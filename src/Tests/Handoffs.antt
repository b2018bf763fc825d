-- ===== src/Tests/Handoffs.antt =====
-- The divergence policy at concrete texts.
use mineral_obsidian_sync.Base.{ℕ, ◌<◌, String, ◌≡◌, refl, some, List, [], ◌∷◌}
use mineral_obsidian_sync.Sync.Merge.{Range}
use mineral_obsidian_sync.Conflict.Units.{units, significant_text, byte_length}
use mineral_obsidian_sync.Sync.Merge.Region.{merge_texts}
use mineral_obsidian_sync.Sync.Text.{to_lines}
use mineral_obsidian_sync.Conflict.Handoff.{
  DivergenceInput, classify_divergence, split_region, split_at,
}
use mineral_obsidian_sync.Conflict.Handoff.Symmetry.{Agrees, swapped, classify_divergence-Agrees}
use mineral_obsidian_sync.Conflict.Handoff.Misplaced.{additions, split_region-misplaced}

-- One line behind the first line of the base, whatever the side's own second line is.
abbrev added : List String → List Range
added (x ∷ line ∷ rest) = record { start = 1; length = 0; replacement = line ∷ [] } ∷ []
added lines = []

abbrev diff_lines : (base side : List String) → List Range
diff_lines base side = added side

abbrev list_edit : DivergenceInput
list_edit = record {
  base = some "x\n";
  here = "x\none\n";
  there = "x\ntwo\n";
  here_changed_at = some 1000;
  there_changed_at = some 2000;
  base_synced_at = some 10;
}

list_run : (classify_divergence diff_lines list_edit).merged_text ≡ some (units "x\none\ntwo\n")
unfolding classify_divergence significant_text units merge_texts to_lines byte_length
list_run = refl

-- Both devices insert an item of a list above an item that is there: its dash moves in front of both.
abbrev item_edit : DivergenceInput
item_edit = record list_edit {
  base = some "x\n- ab\n";
  here = "x\n- L\n- ab\n";
  there = "x\n- R\n- ab\n";
}

item_run :
    (classify_divergence diff_lines item_edit).merged_text ≡ some (units "x\n- - L\n- R\nab\n")
unfolding classify_divergence significant_text units merge_texts to_lines byte_length
item_run = refl

-- Two versions that differ in a space at the end of a line are settled, each device for its own.
abbrev space_edit : DivergenceInput
space_edit = record list_edit { here = "a \n"; there = "a\n" }

space_run :
    ((classify_divergence diff_lines space_edit).merged_text ≡ some (units "a \n"))
    × ((classify_divergence diff_lines (swapped space_edit)).merged_text ≡ some (units "a\n"))
unfolding classify_divergence significant_text units merge_texts to_lines byte_length
space_run = (refl, refl)

classify_divergence-Agrees_example :
    Agrees
      (classify_divergence diff_lines list_edit)
      (classify_divergence diff_lines (swapped list_edit))
classify_divergence-Agrees_example = classify_divergence-Agrees diff_lines list_edit

split_region-misplaced_example :
    (m : ℕ) × (1 < m)
    × (split_region
          (1 ∷ 2 ∷ 3 ∷ [])
          (1 ∷ 2 ∷ 4 ∷ 2 ∷ 3 ∷ [])
          (1 ∷ 2 ∷ 5 ∷ 2 ∷ 3 ∷ [])
          (additions (1 ∷ []) (4 ∷ []) (5 ∷ []) (3 ∷ []) 2)
        ≡ some
            (split_at (1 ∷ 2 ∷ 4 ∷ 2 ∷ 3 ∷ []) (additions (1 ∷ []) (4 ∷ []) (5 ∷ []) (3 ∷ []) 2) m))
split_region-misplaced_example = split_region-misplaced (1 ∷ []) (4 ∷ []) (5 ∷ []) (3 ∷ []) 2
