-- ===== src/Tests/Merges.antt =====
-- Merges of src/sync/merge.ts at concrete lines.
use mineral_obsidian_sync.Base.{
  String, ◌≡◌, refl, some, List, [], ◌∷◌, ◌++◌, arith, take, drop, if◌then◌else◌, ◌==◌,
}
use mineral_obsidian_sync.Base.Sorting.{sort, insert_sorted}
use mineral_obsidian_sync.Sync.Merge.{
  Range, three_way_merge, collides, conflicting, clean_merge, interleave, pieces_of, emit,
  same_replacement,
}
use mineral_obsidian_sync.Sync.Merge.Conservation.{
  three_way_merge-deletions, three_way_merge-insertion,
}

abbrev base : List String
base = "A" ∷ "B" ∷ "C" ∷ "D" ∷ []

-- Line B is gone.
abbrev without_b : Range
without_b = record { start = 1; length = 1; replacement = [] }

abbrev without_d : Range
without_d = record { start = 3; length = 1; replacement = [] }

abbrev b_edited : Range
b_edited = record { start = 1; length = 1; replacement = "B-local" ∷ [] }

-- A line after line B.
abbrev after_b : Range
after_b = record { start = 2; length = 0; replacement = "new" ∷ [] }

abbrev c_edited : Range
c_edited = record { start = 2; length = 1; replacement = "C-remote" ∷ [] }

-- Two edits of different lines are merged.
two_edits_run :
    three_way_merge base (b_edited ∷ []) (c_edited ∷ [])
    ≡ some ("A" ∷ "B-local" ∷ "C-remote" ∷ "D" ∷ [])
unfolding three_way_merge conflicting collides same_replacement clean_merge interleave pieces_of
    sort insert_sorted emit
two_edits_run = refl

-- A line that one side inserts directly after a line that the other side edits is lost.
adjacent_run :
    three_way_merge base (b_edited ∷ []) (after_b ∷ []) ≡ some ("A" ∷ "B-local" ∷ "C" ∷ "D" ∷ [])
unfolding three_way_merge conflicting collides same_replacement clean_merge interleave pieces_of
    sort insert_sorted emit
adjacent_run = refl

three_way_merge-deletions_example :
    three_way_merge base (without_b ∷ []) (without_d ∷ []) ≡ some base
unfolding conflicting collides same_replacement
three_way_merge-deletions_example =
    three_way_merge-deletions base (without_b ∷ []) (without_d ∷ []) (refl, tt) (refl, tt) refl

three_way_merge-insertion_example :
    three_way_merge base (record { start = 0; length = 0; replacement = "top" ∷ [] } ∷ []) []
    ≡ some (if 0 == 0 then base else take 0 base ++ (("top" ∷ []) ++ drop 0 base))
three_way_merge-insertion_example =
    three_way_merge-insertion base ("top" ∷ []) 0 (omega arith) (omega arith)
