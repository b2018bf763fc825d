-- ===== src/Conflict/Identity/Injective.antt =====
-- The encoding of src/conflict/identity.ts confuses no two disagreements.
use mathlib.Core.List.{append_assoc, append-nil}
use mineral_obsidian_sync.Base.{
  ℕ, ◌<◌, ◌≡◌, refl, ap, sym, ◌∙◌, Option, none, some, [], ◌∷◌, ◌++◌, length, All-append, arith,
}
use mineral_obsidian_sync.Sync.Types.{PreviousEntry}
use mineral_obsidian_sync.Conflict.Units.{Units, units}
use mineral_obsidian_sync.Conflict.Decimal.{
  decimal, decimal_inj, Lacks, decimal-Lacks, first_part, last_part, no_separator, same_length,
}
use mineral_obsidian_sync.Conflict.Identity.{
  ConflictInput, Stamp, colon, bar, segment, stamp_of, baseline_stamp, local_identity, or_no_etag,
  baseline_etag, baseline_size, or_no_size, baseline_identity, remote_segment,
  canonical_conflict_input,
}

-- A segment tells where it ends.
segment-append :
    (v w : Units) {rest others : Units}
    → segment v ++ rest ≡ segment w ++ others
    → (v ≡ w) × (rest ≡ others)
segment-append v w {rest} {others} h =
    let (n, both) =
      first_part colon (decimal (length v)) (decimal (length w))
        (decimal-Lacks colon (length v) (omega arith))
        (decimal-Lacks colon (length w) (omega arith))
        (sym (append_assoc (decimal (length v)) (colon ∷ v) rest)
          ∙ h
          ∙ append_assoc (decimal (length w)) (colon ∷ w) others) in
    same_length v w (decimal_inj _ _ n) both

behind : (c : ℕ) (xs ys : Units) → c ∷ xs ≡ c ∷ ys → xs ≡ ys
behind c xs ys h = cc

segment_inj : (v w : Units) → segment v ≡ segment w → v ≡ w
segment_inj v w h =
    (segment-append v w {rest = []} {others = []}
      (append-nil (segment v) ∙ h ∙ sym (append-nil (segment w)))).0

absent_without_bar : Lacks bar (units "absent")
unfolding units
absent_without_bar = omega arith

absent-Lacks : (c : ℕ) → c < 97 → Lacks c (units "absent")
unfolding units
absent-Lacks c h = omega arith

local_identity_inj : (a b : Option Stamp) → local_identity a ≡ local_identity b → a ≡ b
unfolding local_identity
local_identity_inj none none h = refl
local_identity_inj none (some b) h =
    absurd
      (no_separator colon (decimal b.size) (decimal b.mtime) _ (absent-Lacks colon (omega arith)) h)
local_identity_inj (some a) none h = absurd (
    no_separator colon (decimal a.size) (decimal a.mtime) _ (absent-Lacks colon (omega arith))
      (sym h))
local_identity_inj (some a) (some b) h =
    let (size, mtime) =
      first_part colon (decimal a.size) (decimal b.size) (decimal-Lacks colon a.size (omega arith))
        (decimal-Lacks colon b.size (omega arith)) h in
    cc (decimal_inj a.size b.size size, decimal_inj a.mtime b.mtime mtime)

no_size-Lacks : Lacks bar (units "no-size")
unfolding units
no_size-Lacks = omega arith

or_no_size-Lacks : (n : Option ℕ) → Lacks bar (or_no_size n)
unfolding or_no_size
or_no_size-Lacks none = no_size-Lacks
or_no_size-Lacks (some n) = decimal-Lacks bar n (omega arith)

or_no_size_inj : (m n : Option ℕ) → or_no_size m ≡ or_no_size n → m ≡ n
unfolding or_no_size units
or_no_size_inj none none h = refl
or_no_size_inj none (some n) h =
    absurd
      (no_separator 110 [] (units "o-size") (decimal n) (decimal-Lacks 110 n (omega arith)) (sym h))
or_no_size_inj (some m) none h =
    absurd (no_separator 110 [] (units "o-size") (decimal m) (decimal-Lacks 110 m (omega arith)) h)
or_no_size_inj (some m) (some n) h = ap some (decimal_inj m n h)

local_identity-Lacks : (s : Option Stamp) → Lacks bar (local_identity s)
unfolding local_identity
local_identity-Lacks none = absent_without_bar
local_identity-Lacks (some s) =
    All-append _ (decimal s.size) (colon ∷ decimal s.mtime) (decimal-Lacks bar s.size (omega arith))
      (omega arith, decimal-Lacks bar s.mtime (omega arith))

-- What the identity of a baseline distinguishes.
pub record Recorded : Type 0 where
  pub here : Option Stamp
  pub etag : Units
  pub size : Option ℕ

abbrev pub recorded : PreviousEntry → Recorded
recorded p = record {
  here = baseline_stamp p.local_side;
  etag = or_no_etag (baseline_etag p.remote_side);
  size = baseline_size p.remote_side;
}

abbrev pub recorded_option : Option PreviousEntry → Option Recorded
recorded_option none = none
recorded_option (some p) = some (recorded p)

some-baseline_inj :
    (p q : PreviousEntry)
    → baseline_identity (some p) ≡ baseline_identity (some q)
    → recorded p ≡ recorded q
unfolding baseline_identity
some-baseline_inj p q h =
    let (here, rest) =
      first_part bar (local_identity (baseline_stamp p.local_side))
        (local_identity (baseline_stamp q.local_side)) (local_identity-Lacks _)
        (local_identity-Lacks _) h in
    let (etag, size) =
      last_part bar (or_no_etag (baseline_etag p.remote_side))
        (or_no_etag (baseline_etag q.remote_side)) (or_no_size-Lacks _) (or_no_size-Lacks _) rest in
    cc (
      local_identity_inj (baseline_stamp p.local_side) (baseline_stamp q.local_side) here,
      etag,
      or_no_size_inj (baseline_size p.remote_side) (baseline_size q.remote_side) size,
    )

baseline_identity_inj :
    (p q : Option PreviousEntry)
    → baseline_identity p ≡ baseline_identity q
    → recorded_option p ≡ recorded_option q
unfolding baseline_identity
baseline_identity_inj none none h = refl
baseline_identity_inj none (some q) h =
    absurd
      (no_separator bar (local_identity (baseline_stamp q.local_side)) _ _ absent_without_bar h)
baseline_identity_inj (some p) none h =
    absurd (
      no_separator bar (local_identity (baseline_stamp p.local_side)) _ _ absent_without_bar
        (sym h))
baseline_identity_inj (some p) (some q) h = ap some (some-baseline_inj p q h)

-- Two inputs that describe one disagreement.
pub record SameVersions (i j : ConflictInput) : Type 0 where
  pub channel : units i.channel ≡ units j.channel
  pub path : units i.path ≡ units j.path
  pub previous : recorded_option i.previous ≡ recorded_option j.previous
  pub here : stamp_of i.observed_local ≡ stamp_of j.observed_local
  pub there :
      remote_segment i.observed_remote_deletion i.observed_remote
      ≡ remote_segment j.observed_remote_deletion j.observed_remote

pub canonical_conflict_input_inj :
    (i j : ConflictInput)
    → canonical_conflict_input i ≡ canonical_conflict_input j
    → SameVersions i j
unfolding canonical_conflict_input units
canonical_conflict_input_inj i j h =
    let (channel, r1) =
      segment-append (units i.channel) (units j.channel)
        (behind colon _ _ (behind 49 _ _ (behind 118 _ _ h))) in
    let (path, r2) = segment-append (units i.path) (units j.path) (behind colon _ _ r1) in
    let (previous, r3) =
      segment-append (baseline_identity i.previous) (baseline_identity j.previous)
        (behind colon _ _ r2) in
    let (here, r4) =
      segment-append (local_identity (stamp_of i.observed_local))
        (local_identity (stamp_of j.observed_local)) (behind colon _ _ r3) in
    record {
      channel = channel;
      path = path;
      previous = baseline_identity_inj i.previous j.previous previous;
      here = local_identity_inj (stamp_of i.observed_local) (stamp_of j.observed_local) here;
      there = segment_inj _ _ (behind colon _ _ r4);
    }
