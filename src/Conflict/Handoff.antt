-- ===== src/Conflict/Handoff.antt =====
-- src/conflict/handoff.ts: which divergences are settled without asking anyone. Texts are slices of
-- code units; the sentences of a decision's reason are constructors.
pub mod Symmetry
pub mod Lossless
pub mod Misplaced
use mineral_obsidian_sync.Base.{
  ℕ, zero, suc, ◌+◌, ◌-◌, min, max, String, Bool, true, false, not, ◌&&◌, ◌||◌, Option, none, some,
  List, [], ◌∷◌, ◌++◌, ◌==◌, leb, ltb, length, take, drop, if◌then◌else◌,
}
use mineral_obsidian_sync.Sync.Types.{TextShape, LineEnding, lf}
use mineral_obsidian_sync.Sync.Text.{ends_with_newline}
use mineral_obsidian_sync.Sync.Merge.{Range}
use mineral_obsidian_sync.Sync.Merge.Region.{
  DecodedText, MergeConflictHunk, MergeUnavailableReason, ThreeWayMergeResult, conflict,
  unavailable, merge_texts,
}
use mineral_obsidian_sync.Conflict.Units.{
  Units, units, same, before, starts_with, significant_text, byte_length,
}

-- Milliseconds, bytes and regions.
abbrev pub handoff_max_separation_ms : ℕ
handoff_max_separation_ms = 30000

abbrev pub handoff_max_delta_bytes : ℕ
handoff_max_delta_bytes = 2048

abbrev pub handoff_max_hunks : ℕ
handoff_max_hunks = 1

pub record ChangeStats : Type 0 where
  pub inserted_bytes : ℕ
  pub deleted_bytes : ℕ
  pub replaced_bytes : ℕ
  pub hunk_count : ℕ

-- A stamp is `none` where the source has a missing or a non-finite number.
pub record DivergenceInput : Type 0 where
  pub base : Option String
  pub here : String
  pub there : String
  pub here_changed_at : Option ℕ
  pub there_changed_at : Option ℕ
  pub base_synced_at : Option ℕ

pub data DivergenceClass : Type 0 where
  clean handoff manual : DivergenceClass

pub data BranchOrder : Type 0 where
  stable_content : BranchOrder

pub data Reason : Type 0 where
  formatting_only different_parts no_ancestor replaced_or_removed there_formatting : Reason
  here_formatting times_missing close_additions : Reason
  not_comparable : MergeUnavailableReason → Reason
  many_regions : ℕ → Reason
  too_far_apart : (separation : ℕ) → Reason
  too_many_bytes : ℕ → Reason

-- A difference of two stamps, which may be negative.
pub data Age : Type 0 where
  after_base : ℕ → Age
  before_base : ℕ → Age

pub record Deltas : Type 0 where
  pub here : ℕ
  pub there : ℕ

pub record DivergenceDecision : Type 0 where
  pub class : DivergenceClass
  pub reason : Reason
  pub merged_text : Option Units
  pub stats : Option ChangeStats
  pub deltas : Option Deltas
  pub branch_separation_ms : Option ℕ
  pub branch_age_ms : Option Age
  pub order : Option BranchOrder

pub record RegionSplit : Type 0 where
  pub prefix : Units
  pub suffix : Units
  pub here_extra : Units
  pub there_extra : Units

-- A hunk by its code units.
pub record Region : Type 0 where
  pub here : Units
  pub base : Units
  pub there : Units

abbrev pub region_of : MergeConflictHunk → Region
region_of h = record { here = units h.here; base = units h.base; there = units h.there }

unfoldable pub common_prefix_length : Units → Units → ℕ
common_prefix_length [] ys = 0
common_prefix_length (x ∷ xs) [] = 0
common_prefix_length (x ∷ xs) (y ∷ ys) =
    let more = common_prefix_length xs ys in if x == y then suc more else 0

-- Whether the texts share the head of this length, and the tail behind their own regions.
unfoldable pub splits_at : (base here there : Units) → Region → ℕ → Bool
unfolding same
splits_at base here there r n =
    let head = take n here in
    let tail = drop (n + length r.here) here in
    same (take n there) head
    && same (take n base) head
    && (same (drop (n + length r.there) there) tail && same (drop (n + length r.base) base) tail)

unfoldable pub split_at : (here : Units) → Region → ℕ → RegionSplit
split_at here r n = record {
  prefix = take n here;
  suffix = drop (n + length r.here) here;
  here_extra = drop (length r.base) r.here;
  there_extra = drop (length r.base) r.there;
}

-- The loop of `splitRegion`, from a length of the head downward.
unfoldable pub search_split : (base here there : Units) → Region → ℕ → Option RegionSplit
unfolding splits_at split_at
search_split base here there r zero =
    if splits_at base here there r zero then some (split_at here r zero) else none
search_split base here there r (suc n) =
    let shorter = search_split base here there r n in
    if splits_at base here there r (suc n) then some (split_at here r (suc n)) else shorter

abbrev pub longest_head : (base here there : Units) → Region → ℕ
longest_head base here there r =
    min (min (common_prefix_length here there) (length here - length r.here))
      (min (length there - length r.there) (length base - length r.base))

unfoldable pub split_region : (base here there : Units) → Region → Option RegionSplit
unfolding search_split starts_with common_prefix_length
split_region base here there r =
    if not (starts_with r.here r.base) || not (starts_with r.there r.base)
    then none
    else search_split base here there r (longest_head base here there r)

pub record Times : Type 0 where
  pub separation_ms : ℕ
  pub age_ms : Option Age

abbrev difference : ℕ → ℕ → Age
difference a b = if leb b a then after_base (a - b) else before_base (b - a)

abbrev distance : ℕ → ℕ → ℕ
distance a b = if leb b a then a - b else b - a

abbrev age_since : Option ℕ → ℕ → Option Age
age_since none latest = none
age_since (some at) latest = if ltb 0 at then some (difference latest at) else none

unfoldable pub usable_times : (here there base : Option ℕ) → Option Times
usable_times none there base = none
usable_times (some h) none base = none
usable_times (some h) (some t) base =
    if ltb 0 h && ltb 0 t
    then some (record { separation_ms = distance h t; age_ms = age_since base (max h t) })
    else none

abbrev manual_for : Reason → DivergenceDecision
manual_for reason = record {
  class = DivergenceClass.manual;
  reason = reason;
  merged_text = none;
  stats = none;
  deltas = none;
  branch_separation_ms = none;
  branch_age_ms = none;
  order = none;
}

-- The two additions, in an order that both devices agree on.
unfoldable pub order_extras : RegionSplit → Units × Units
unfolding before
order_extras s =
    if before s.there_extra s.here_extra
    then (s.there_extra, s.here_extra)
    else (s.here_extra, s.there_extra)

abbrev stats_of : RegionSplit → ChangeStats
stats_of s = record {
  inserted_bytes = byte_length s.here_extra + byte_length s.there_extra;
  deleted_bytes = 0;
  replaced_bytes = 0;
  hunk_count = 1;
}

abbrev deltas_of : RegionSplit → Deltas
deltas_of s = record { here = byte_length s.here_extra; there = byte_length s.there_extra }

-- A side added nothing but formatting, so the other side's addition is kept.
abbrev formatted : Reason → Units → RegionSplit → DivergenceDecision
formatted reason text s = record {
  class = DivergenceClass.clean;
  reason = reason;
  merged_text = some text;
  stats = some (stats_of s);
  deltas = some (deltas_of s);
  branch_separation_ms = none;
  branch_age_ms = none;
  order = none;
}

abbrev joined : (base extra : Units) → RegionSplit → Units
joined base extra s = s.prefix ++ (base ++ (extra ++ s.suffix))

abbrev handed_off : (base : Units) → RegionSplit → Times → DivergenceDecision
handed_off base s times = record {
  class = DivergenceClass.handoff;
  reason = close_additions;
  merged_text = some (joined base ((order_extras s).0 ++ (order_extras s).1) s);
  stats = some (stats_of s);
  deltas = some (deltas_of s);
  branch_separation_ms = some times.separation_ms;
  branch_age_ms = times.age_ms;
  order = some stable_content;
}

-- The tests of a handoff, once the additions are known to have content.
unfoldable pub judge_times : (base : Units) → RegionSplit → Option Times → DivergenceDecision
unfolding order_extras
judge_times base s none = manual_for times_missing
judge_times base s (some times) =
    if ltb handoff_max_separation_ms times.separation_ms
    then manual_for (too_far_apart times.separation_ms)
    else if ltb handoff_max_delta_bytes (stats_of s).inserted_bytes
    then manual_for (too_many_bytes (stats_of s).inserted_bytes)
    else handed_off base s times

abbrev pub is_blank : Units → Bool
is_blank text = same (significant_text text) []

unfoldable pub judge_split : (base : Units) → Option RegionSplit → Option Times → DivergenceDecision
unfolding judge_times
judge_split base none times = manual_for replaced_or_removed
judge_split base (some s) times =
    if is_blank s.here_extra && is_blank s.there_extra
    then formatted formatting_only (joined base s.here_extra s) s
    else if is_blank s.there_extra
    then formatted there_formatting (joined base s.here_extra s) s
    else if is_blank s.here_extra
    then formatted here_formatting (joined base s.there_extra s) s
    else judge_times base s times

abbrev pub as_decoded : String → DecodedText
as_decoded text = record {
  text = text;
  shape = record { bom = false; eol = lf; trailing_newline = ends_with_newline text };
}

-- `merge.hunks[0]`, where the merge reports at most one.
unfoldable pub judge_merge :
    (base here there : String) → Option Times → ThreeWayMergeResult → DivergenceDecision
unfolding judge_split split_region
judge_merge base here there times (ThreeWayMergeResult.clean text shape bytes) =
    record (manual_for different_parts) {
      class = DivergenceClass.clean;
      merged_text = some (units text);
    }
judge_merge base here there times (unavailable reason) = manual_for (not_comparable reason)
judge_merge base here there times (conflict [] draft shape) = manual_for (many_regions 0)
judge_merge base here there times (conflict (hunk ∷ hunks) draft shape) =
    if ltb handoff_max_hunks (length (hunk ∷ hunks))
    then manual_for (many_regions (length (hunk ∷ hunks)))
    else judge_split (units hunk.base)
        (split_region (units base) (units here) (units there) (region_of hunk)) times

module _ (diff : (base side : List String) → List Range) where
  unfoldable pub judge_base :
      (base : Option String) → (here there : String) → Option Times → DivergenceDecision
  unfolding judge_merge
  judge_base none here there times = manual_for no_ancestor
  judge_base (some base) here there times =
      judge_merge base here there times
        (merge_texts diff (as_decoded base) (as_decoded here) (as_decoded there))

  unfoldable pub classify_divergence : DivergenceInput → DivergenceDecision
  unfolding judge_base usable_times
  classify_divergence i =
      if same (significant_text (units i.here)) (significant_text (units i.there))
      then record {
        class = DivergenceClass.clean;
        reason = formatting_only;
        merged_text = some (units i.here);
        stats =
            some (record {
              inserted_bytes = 0;
              deleted_bytes = 0;
              replaced_bytes = 0;
              hunk_count = 0;
            });
        deltas = some (record { here = 0; there = 0 });
        branch_separation_ms = none;
        branch_age_ms = none;
        order = none;
      }
      else judge_base i.base i.here i.there
          (usable_times i.here_changed_at i.there_changed_at i.base_synced_at)
