-- ===== src/Sync/Merge/Region.antt =====
-- What `threeWayMerge` of src/sync/merge.ts answers for three texts: a clean text, or the region in
-- which the sides disagree. The diff of the library `node-diff3` is an argument.
pub mod Swap
use mineral_obsidian_sync.Base.{
  ℕ, zero, suc, ◌-◌, min, max, String, ◌<>◌, Bool, true, false, Option, some, List, [], ◌∷◌, ◌++◌,
  leb, any, keep, length, take, drop, map, str_eq, if◌then◌else◌,
}
use mineral_obsidian_sync.Base.Sorting.{sort}
use mathlib.Core.List.{reverse}
use mineral_obsidian_sync.Sync.Types.{TextShape}
use mineral_obsidian_sync.Sync.Text.{to_lines, from_lines, preferred_shape, encode_shape}
use mineral_obsidian_sync.Sync.Merge.{
  Range, Piece, end_of, collides, conflicting, pieces_of, interleave, clean_merge, slice,
}

pub record DecodedText : Type 0 where
  pub text : String
  pub shape : TextShape

pub record MergeConflictHunk : Type 0 where
  pub here : String
  pub base : String
  pub there : String

pub data MergeUnavailableReason : Type 0 where
  base_unavailable unsupported too_large decode_failed : MergeUnavailableReason

-- The bytes are given as the text before the UTF-8 encoder.
pub data ThreeWayMergeResult : Type 0 where
  clean : (text : String) → (shape : TextShape) → (bytes : String) → ThreeWayMergeResult
  conflict :
      (hunks : List MergeConflictHunk)
      → (draft : String) → (shape : TextShape) → ThreeWayMergeResult
  unavailable : MergeUnavailableReason → ThreeWayMergeResult

-- `Math.min(...ns)` and `Math.max(...ns)`, on lists that are not empty.
unfoldable pub min_of : List ℕ → ℕ
min_of [] = 0
min_of (n ∷ []) = n
min_of (n ∷ k ∷ ns) = min n (min_of (k ∷ ns))

unfoldable pub max_of : List ℕ → ℕ
max_of [] = 0
max_of (n ∷ ns) = max n (max_of ns)

-- How many lines two lists share from their start, up to a limit.
unfoldable pub shared : (limit : ℕ) → List String → List String → ℕ
shared zero xs ys = 0
shared (suc n) [] ys = 0
shared (suc n) (x ∷ xs) [] = 0
shared (suc n) (x ∷ xs) (y ∷ ys) = let more = shared n xs ys in if str_eq x y then suc more else 0

-- The ranges that collide with another one; none collides with itself.
unfoldable pub colliding : List Range → List Range
unfolding collides
colliding ranges = keep (λ range. any (λ other. collides range other) ranges) ranges

-- One side's lines within the region, without the context that they share with the base.
unfoldable pub side_lines : (base : List String) → (start end : ℕ) → List Range → List String
unfolding interleave pieces_of shared
side_lines base start end ranges =
    let region : Piece = record { start = start; end = end; lines = slice base start end } in
    let rendered = interleave base (pieces_of (length base) ranges) (region ∷ []) in
    let prefix = shared start rendered base in
    let suffix =
      shared (min (length rendered - prefix) (length base - end)) (reverse rendered)
        (reverse base) in
    take (length rendered - suffix - prefix) (drop prefix rendered)

abbrev pub region_start : List Range → ℕ
region_start ranges = min_of (map (λ r. r.start) (colliding ranges))

abbrev pub region_end : List String → List Range → ℕ
region_end base ranges = max_of (map (λ r. min (length base) (end_of r)) (colliding ranges))

-- The text of `conflictRegion`, with its span.
unfoldable pub conflict_region :
    (base : List String) → (here there : List Range) → MergeConflictHunk × ℕ × ℕ
unfolding min_of max_of colliding side_lines from_lines
conflict_region base here there =
    let start = region_start (here ++ there) in
    let end = region_end base (here ++ there) in
    (
      record {
        here = from_lines (side_lines base start end here);
        base = from_lines (slice base start end);
        there = from_lines (side_lines base start end there);
      },
      start,
      end,
    )

unfoldable pub draft_of : List String → MergeConflictHunk × ℕ × ℕ → String
unfolding from_lines
draft_of base (hunk, start, end) =
    from_lines (take start base)
    <> "<<<<<<< LOCAL\n"
    <> hunk.here
    <> "=======\n"
    <> hunk.there
    <> ">>>>>>> REMOTE\n"
    <> from_lines (drop end base)

abbrev range_before : Range → Range → Bool
range_before l r = leb l.start r.start

module _ (diff : (base side : List String) → List Range) where
  unfoldable pub ranges_of : (base side : List String) → List Range
  unfolding sort
  ranges_of base side = sort range_before (diff base side)

  unfoldable pub merge_texts : (base here there : DecodedText) → ThreeWayMergeResult
  unfolding ranges_of conflicting conflict_region draft_of
  merge_texts base here there =
      let shape = preferred_shape (some here.shape) (some there.shape) (some base.shape) in
      let lines = to_lines base.text in
      let ours = ranges_of lines (to_lines here.text) in
      let theirs = ranges_of lines (to_lines there.text) in
      let text = from_lines (clean_merge lines ours theirs) in
      let region = conflict_region lines ours theirs in
      if conflicting ours theirs
      then conflict (region.0 ∷ []) (draft_of lines region) shape
      else clean text shape (encode_shape text shape)
