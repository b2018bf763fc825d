-- ===== src/Conflict/Handoff/Symmetry.antt =====
-- Which side is called local does not decide a handoff of src/conflict/handoff.ts.
use mineral_obsidian_sync.Base.{
  ℕ, zero, suc, ◌+◌, String, true, ◌≡◌, refl, Option, none, some, List, [], ◌∷◌, length, take, drop,
  arith,
}
use mineral_obsidian_sync.Sync.Merge.{Range}
use mineral_obsidian_sync.Sync.Merge.Region.{ThreeWayMergeResult}
use mineral_obsidian_sync.Sync.Merge.Region.Swap.{
  Swapped, both_clean, both_conflict, merge_texts-Swapped,
}
use mineral_obsidian_sync.Conflict.Units.{
  Units, units, significant_text, same_iff, before_total, before_asym,
}
use mineral_obsidian_sync.Conflict.Handoff.{
  DivergenceInput, DivergenceDecision, DivergenceClass, Region, RegionSplit, Times,
  common_prefix_length, splits_at, split_at, search_split, longest_head, split_region, usable_times,
  order_extras, judge_times, judge_split, judge_merge, judge_base, classify_divergence, as_decoded,
}

-- The input that the other device has of the same divergence.
abbrev pub swapped : DivergenceInput → DivergenceInput
swapped i = record i {
  here = i.there;
  there = i.here;
  here_changed_at = i.there_changed_at;
  there_changed_at = i.here_changed_at;
}

abbrev turned : Region → Region
turned r = record { here = r.there; base = r.base; there = r.here }

abbrev turned_split : RegionSplit → RegionSplit
turned_split s = record s { here_extra = s.there_extra; there_extra = s.here_extra }

abbrev turned_option : Option RegionSplit → Option RegionSplit
turned_option none = none
turned_option (some s) = some (turned_split s)

-- Two decisions of one class, which write the same text if they hand off.
pub record Agrees (a b : DivergenceDecision) : Type 0 where
  pub class : b.class ≡ a.class
  pub merged : a.class ≡ DivergenceClass.handoff → b.merged_text ≡ a.merged_text

common_prefix_length_comm :
    (xs ys : Units) → common_prefix_length ys xs ≡ common_prefix_length xs ys
unfolding common_prefix_length
common_prefix_length_comm [] [] = refl
common_prefix_length_comm [] (y ∷ ys) = refl
common_prefix_length_comm (x ∷ xs) [] = refl
common_prefix_length_comm (x ∷ xs) (y ∷ ys) = ground (arith, common_prefix_length_comm xs ys)

longest_head_comm :
    (base here there : Units) (r : Region)
    → longest_head base there here (turned r) ≡ longest_head base here there r
longest_head_comm base here there r = omega (arith, common_prefix_length_comm here there)

splits_at_comm :
    (base here there : Units) (r : Region) (n : ℕ)
    → splits_at base there here (turned r) n ≡ splits_at base here there r n
unfolding splits_at
splits_at_comm base here there r n = ground (
  arith,
  same_iff (take n there) (take n here),
  same_iff (take n here) (take n there),
  same_iff (take n base) (take n here),
  same_iff (take n base) (take n there),
  same_iff (drop (n + length r.there) there) (drop (n + length r.here) here),
  same_iff (drop (n + length r.here) here) (drop (n + length r.there) there),
  same_iff (drop (n + length r.base) base) (drop (n + length r.here) here),
  same_iff (drop (n + length r.base) base) (drop (n + length r.there) there),
)

split_at_comm :
    (base here there : Units) (r : Region) (n : ℕ)
    → splits_at base here there r n ≡ true
    → split_at there (turned r) n ≡ turned_split (split_at here r n)
unfolding split_at splits_at
split_at_comm base here there r n h = ground (
  arith,
  same_iff (take n there) (take n here),
  same_iff (drop (n + length r.there) there) (drop (n + length r.here) here),
)

search_split_comm :
    (base here there : Units) (r : Region) (n : ℕ)
    → search_split base there here (turned r) n ≡ turned_option (search_split base here there r n)
unfolding search_split
search_split_comm base here there r zero =
    ground (arith, splits_at_comm base here there r zero, split_at_comm base here there r zero)
search_split_comm base here there r (suc n) = ground (
  arith,
  splits_at_comm base here there r (suc n),
  split_at_comm base here there r (suc n),
  search_split_comm base here there r n,
)

split_region_comm :
    (base here there : Units) (r : Region)
    → split_region base there here (turned r) ≡ turned_option (split_region base here there r)
unfolding split_region
split_region_comm base here there r =
    rw (longest_head_comm base here there r, search_split_comm base here there r) (ground arith)

order_extras_comm : (s : RegionSplit) → order_extras (turned_split s) ≡ order_extras s
unfolding order_extras
order_extras_comm s = ground (
  arith,
  before_total s.here_extra s.there_extra,
  before_asym s.here_extra s.there_extra,
  before_asym s.there_extra s.here_extra,
)

usable_times_comm :
    (here there base : Option ℕ) → usable_times there here base ≡ usable_times here there base
unfolding usable_times
usable_times_comm none none base = refl
usable_times_comm none (some t) base = refl
usable_times_comm (some h) none base = refl
usable_times_comm (some h) (some t) base = ground arith

judge_times-Agrees :
    (base : Units) (s : RegionSplit) (times : Option Times)
    → Agrees (judge_times base s times) (judge_times base (turned_split s) times)
unfolding judge_times
judge_times-Agrees base s none = record { class = refl; merged = λ h. refl }
judge_times-Agrees base s (some times) = record {
  class = ground arith;
  merged = λ h. ground (arith, order_extras_comm s);
}

judge_split-Agrees :
    (base : Units) (o : Option RegionSplit) (times : Option Times)
    → Agrees (judge_split base o times) (judge_split base (turned_option o) times)
unfolding judge_split
judge_split-Agrees base none times = record { class = refl; merged = λ h. refl }
judge_split-Agrees base (some s) times = record {
  class = ground (arith, (judge_times-Agrees base s times).class);
  merged = λ h. ground (arith, (judge_times-Agrees base s times).merged);
}

judge_merge-Agrees :
    (base here there : String) (times : Option Times) (a b : ThreeWayMergeResult)
    → Swapped a b
    → Agrees (judge_merge base here there times a) (judge_merge base there here times b)
unfolding judge_merge
judge_merge-Agrees base here there times a b (both_clean _ _ (_, _, _, e) (_, _, _, k)) =
    rw (e, k) (record { class = refl; merged = λ h. cc })
judge_merge-Agrees base here there times a b (both_conflict _ _ hunk (_, _, e) (_, _, k)) =
    rw
      (
        e,
        k,
        split_region_comm (units base) (units here) (units there)
            (record { here = units hunk.here; base = units hunk.base; there = units hunk.there }),
      )
      (judge_split-Agrees (units hunk.base) _ times)

module _ (diff : (base side : List String) → List Range) where
  judge_base-Agrees :
      (base : Option String) (here there : String) (times : Option Times)
      → Agrees (judge_base diff base here there times) (judge_base diff base there here times)
  unfolding judge_base
  judge_base-Agrees none here there times = record { class = refl; merged = λ h. refl }
  judge_base-Agrees (some base) here there times =
      judge_merge-Agrees base here there times _ _
        (merge_texts-Swapped diff (as_decoded base) (as_decoded here) (as_decoded there))

  -- Two devices that hold the same divergence, each with its own side as the local one, put it into
  -- the same class; and if they hand it off, both write the same text.
  pub classify_divergence-Agrees :
      (i : DivergenceInput)
      → Agrees (classify_divergence diff i) (classify_divergence diff (swapped i))
  unfolding classify_divergence
  classify_divergence-Agrees i =
      rw (usable_times_comm i.here_changed_at i.there_changed_at i.base_synced_at) (record {
        class = ground (
          arith,
          same_iff (significant_text (units i.here)) (significant_text (units i.there)),
          same_iff (significant_text (units i.there)) (significant_text (units i.here)),
          (judge_base-Agrees i.base i.here i.there
              (usable_times i.here_changed_at i.there_changed_at i.base_synced_at)).class,
        );
        merged = λ h. ground (
          arith,
          same_iff (significant_text (units i.here)) (significant_text (units i.there)),
          same_iff (significant_text (units i.there)) (significant_text (units i.here)),
          (judge_base-Agrees i.base i.here i.there
              (usable_times i.here_changed_at i.there_changed_at i.base_synced_at)).merged,
        );
      })
