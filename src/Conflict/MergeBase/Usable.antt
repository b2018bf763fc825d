-- ===== src/Conflict/MergeBase/Usable.antt =====
-- A snapshot that src/conflict/merge-base.ts recorded is one that the coordinator can merge over.
use mineral_obsidian_sync.Base.{
  ℕ, ◌≤◌, String, Bool, true, false, ◌≡◌, refl, sym, ap, ◌∙◌, Option, none, some, List, length,
  opt_str_eq_iff, eq_iff, if◌then◌else◌, arith,
}
use mineral_obsidian_sync.Sync.Types.{PreviousEntry}
use mineral_obsidian_sync.Sync.Merge.Region.{DecodedText}
use mineral_obsidian_sync.Executor.Effects.{Stat}
use mineral_obsidian_sync.Remote.Client.{Try, ok, raised}
use mineral_obsidian_sync.Conflict.Identity.{
  BaselineIdentity, baseline_of, baseline_matches, baseline_etag,
}
use mineral_obsidian_sync.Conflict.Types.{MergeBaseRecord}
use mineral_obsidian_sync.Conflict.Stores.{by_path, get, put, prune, list_all}
use mineral_obsidian_sync.Conflict.Stores.Refines.{get-put}
use mineral_obsidian_sync.Conflict.Coordinator.{Env, Coordinator}
use mineral_obsidian_sync.Conflict.Coordinator.Inspect.{snapshot_for}
use mineral_obsidian_sync.Conflict.MergeBase.{
  Contents, Reading, MergeBaseInput, record_of, in_version, kept, after_bytes, with_bytes,
  after_stat, prepare_record, record_snapshot, max_records,
}

-- The file was in the version of the baseline before and after its bytes were read, and these are a text.
pub record Prepared (channel : String) (now : ℕ) (input : MergeBaseInput) (r : Reading)
    (prepared : MergeBaseRecord) : Type 0 where
  pub contents : Contents
  pub decoded : DecodedText
  pub before : Option Stat
  pub after : Option Stat
  pub stat_before : r.before ≡ ok before
  pub stat_after : r.after ≡ ok after
  pub same_before : in_version input.baseline.local_version before ≡ true
  pub same_after : in_version input.baseline.local_version after ≡ true
  pub bytes : r.bytes ≡ ok contents
  pub text : contents.decoded ≡ some decoded
  pub is_record : prepared ≡ record_of channel now input contents decoded

guarded-some :
    {A : Type 0} (b : Bool) (t : Try (Option A)) {a : A}
    → (if b then t else ok none) ≡ ok (some a)
    → (b ≡ true) × (t ≡ ok (some a))
guarded-some true t e = (refl, e)
guarded-some false t e = cc

unless-some :
    {A : Type 0} (b : Bool) (t : Try (Option A)) {a : A}
    → (if b then ok none else t) ≡ ok (some a)
    → t ≡ ok (some a)
unless-some true t e = cc
unless-some false t e = e

module _ (channel : String) (now : ℕ) (input : MergeBaseInput) {prepared : MergeBaseRecord} where
  kept-some :
      (contents : Contents) (o : Option DecodedText)
      → kept channel now input contents o ≡ some prepared
      → (decoded : DecodedText) × (o ≡ some decoded)
        × (prepared ≡ record_of channel now input contents decoded)
  kept-some contents none e = cc
  kept-some contents (some decoded) e = (decoded, refl, ground (arith, e))

  after_bytes-some :
      (contents : Contents) (o : Try (Option Stat))
      → after_bytes channel now input contents o ≡ ok (some prepared)
      → (after : Option Stat) × (o ≡ ok after)
        × (in_version input.baseline.local_version after ≡ true)
        × (kept channel now input contents contents.decoded ≡ some prepared)
  after_bytes-some contents (raised x) e = cc
  after_bytes-some contents (ok after) e =
      let (same, rest) = guarded-some _ _ e in (after, refl, same, cc rest)

  with_bytes-some :
      (after : Try (Option Stat)) (o : Try Contents)
      → with_bytes channel now input after o ≡ ok (some prepared)
      → (contents : Contents) × (o ≡ ok contents)
        × (after_bytes channel now input contents after ≡ ok (some prepared))
  with_bytes-some after (raised x) e = cc
  with_bytes-some after (ok contents) e = (contents, refl, e)

  after_stat-some :
      (r : Reading) (o : Try (Option Stat))
      → after_stat channel now input r o ≡ ok (some prepared)
      → (before : Option Stat) × (o ≡ ok before)
        × (in_version input.baseline.local_version before ≡ true)
        × (with_bytes channel now input r.after r.bytes ≡ ok (some prepared))
  after_stat-some r (raised x) e = cc
  after_stat-some r (ok before) e =
      let (same, rest) = guarded-some _ _ e in (before, refl, same, rest)

  after_stat-Prepared :
      (r : Reading)
      → after_stat channel now input r r.before ≡ ok (some prepared)
      → Prepared channel now input r prepared
  after_stat-Prepared r e =
      let (before, stat_before, same_before, e1) = after_stat-some r r.before e in
      let (contents, bytes, e2) = with_bytes-some r.after r.bytes e1 in
      let (after, stat_after, same_after, e3) = after_bytes-some contents r.after e2 in
      let (decoded, text, is_record) = kept-some contents contents.decoded e3 in
      record {
        contents = contents;
        decoded = decoded;
        before = before;
        after = after;
        stat_before = stat_before;
        stat_after = stat_after;
        same_before = same_before;
        same_after = same_after;
        bytes = bytes;
        text = text;
        is_record = is_record;
      }

prune-small :
    (channel : String) (n : ℕ) (rs : List MergeBaseRecord)
    → length (list_all by_path channel rs) ≤ n
    → prune channel n rs ≡ rs
unfolding prune
prune-small channel n rs h = ground (arith, h)

baseline_matches-baseline_of :
    (p : PreviousEntry) (identity : BaselineIdentity)
    → baseline_of p ≡ some identity
    → baseline_matches identity (some p) ≡ true
unfolding baseline_matches baseline_of
baseline_matches-baseline_of p identity e =
    ground (arith, e, opt_str_eq_iff identity.remote_etag (baseline_etag p.remote_side))

module _ (E : Env) where
  prepare_record-Prepared :
      (channel : String) (now : ℕ) (input : MergeBaseInput) (r : Reading)
      {prepared : MergeBaseRecord}
      → prepare_record E channel now input r ≡ ok (some prepared)
      → Prepared channel now input r prepared
  unfolding prepare_record
  prepare_record-Prepared channel now input r e =
      after_stat-Prepared channel now input r (unless-some _ _ e)

  record_snapshot-stored :
      (channel : String) (now : ℕ) (input : MergeBaseInput) (r : Reading)
      (prepared : MergeBaseRecord) (rs : List MergeBaseRecord)
      → prepare_record E channel now input r ≡ ok (some prepared)
      → length (list_all by_path channel (put by_path prepared rs)) ≤ max_records
      → record_snapshot E channel now input r rs ≡ ok (put by_path prepared rs)
  unfolding record_snapshot
  record_snapshot-stored channel now input r prepared rs e small =
      rw (record_snapshot, e)
        (ap ok (prune-small channel max_records (put by_path prepared rs) small))

  get-put-same :
      (prepared : MergeBaseRecord) (rs : List MergeBaseRecord) (channel path : String)
      → prepared.channel ≡ channel
      → prepared.path ≡ path
      → get by_path channel path (put by_path prepared rs) ≡ some prepared
  get-put-same prepared rs channel path c p = ground (
    arith,
    get-put by_path prepared rs channel path,
    eq_iff prepared.channel channel,
    eq_iff prepared.path path,
    c,
    p,
  )

  -- After a snapshot was recorded, while the channel has at most 2000 of them, the coordinator finds it for
  -- the baseline that it was taken for: the decoded text of bytes that were read between two looks at the
  -- file, both of which showed it in the version of this baseline.
  pub record_snapshot-snapshot_for :
      (c : Coordinator) (now : ℕ) (input : MergeBaseInput) (r : Reading) (p : PreviousEntry)
      (prepared : MergeBaseRecord) (store : List MergeBaseRecord)
      → prepare_record E c.channel now input r ≡ ok (some prepared)
      → record_snapshot E c.channel now input r c.merge_base ≡ ok store
      → length (list_all by_path c.channel (put by_path prepared c.merge_base)) ≤ max_records
      → baseline_of p ≡ some input.baseline
      → E.fails c.calls ≡ false
      → (snapshot_for E p input.path (record c { merge_base = store }) ≡ some prepared)
        × Prepared c.channel now input r prepared
  unfolding record_snapshot snapshot_for
  record_snapshot-snapshot_for c now input r p prepared store e q small b f =
      let known = prepare_record-Prepared c.channel now input r e in
      let found : get by_path c.channel input.path store ≡ some prepared = cc (
        record_snapshot-stored c.channel now input r prepared c.merge_base e small,
        q,
        get-put-same prepared c.merge_base c.channel input.path
            (ap (λ x. x.channel) known.is_record) (ap (λ x. x.path) known.is_record),
      ) in
      let usable : baseline_matches prepared.baseline (some p) ≡ true =
        baseline_matches-baseline_of p prepared.baseline
          (b ∙ sym (ap (λ x. some x.baseline) known.is_record)) in
      (rw (f, found, usable) refl, known)
