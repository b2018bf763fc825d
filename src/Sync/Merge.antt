-- ===== src/Sync/Merge.antt =====
-- src/sync/merge.ts: the combination of two sides' changes of the lines of a merge base. The ranges
-- in which a side differs come from the diff of the library `node-diff3`, so they are arguments.
pub mod Conservation
pub mod Region
use mineral_obsidian_sync.Base.{
  ℕ, zero, suc, ◌+◌, ◌-◌, min, max, String, Bool, true, false, not, ◌&&◌, ◌||◌, ◌==◌, ltb, leb,
  Option, none, some, List, [], ◌∷◌, ◌++◌, length, take, drop, any, str_eq, map, if◌then◌else◌,
}
use mineral_obsidian_sync.Base.Sorting.{sort}

-- One side's replacement of a span of the base's lines.
pub record Range : Type 0 where
  pub start : ℕ
  pub length : ℕ
  pub replacement : List String

abbrev pub end_of : Range → ℕ
end_of r = r.start + r.length

-- `left.every((line, index) => line === right[index])` for lists of one length.
unfoldable pub same_lines : List String → List String → Bool
same_lines [] [] = true
same_lines (x ∷ xs) (y ∷ ys) = let rest = same_lines xs ys in str_eq x y && rest
same_lines _ _ = false

unfoldable pub same_replacement : Range → Range → Bool
unfolding same_lines
same_replacement l r =
    (l.start == r.start) && (l.length == r.length) && same_lines l.replacement r.replacement

unfoldable pub collides : Range → Range → Bool
unfolding same_replacement
collides l r =
    let overlaps = ltb (max l.start r.start) (min (end_of l) (end_of r)) in
    let both_insert_at_same_point = (l.length == 0) && (r.length == 0) && (l.start == r.start) in
    if not overlaps && not both_insert_at_same_point then false else not (same_replacement l r)

-- `localRanges.some((left) => remoteRanges.some((right) => collides(left, right)))`
unfoldable pub conflicting : List Range → List Range → Bool
unfolding collides
conflicting ls rs = any (λ l. any (λ r. collides l r) rs) ls

pub record Piece : Type 0 where
  pub start : ℕ
  pub end : ℕ
  pub lines : List String

-- The untouched lines between the cursor and a position.
abbrev stable : ℕ → ℕ → List Piece
stable cursor at =
    if ltb cursor at then record { start = cursor; end = at; lines = [] } ∷ [] else []

-- The loop of `piecesOf` from a cursor on, with the last stable piece.
unfoldable pub pieces_from : ℕ → ℕ → List Range → List Piece
pieces_from base_length cursor [] = stable cursor base_length
pieces_from base_length cursor (r ∷ rs) =
    let skipped = pieces_from base_length cursor rs in
    let after = pieces_from base_length (end_of r) rs in
    if ltb base_length r.start || ltb r.start cursor
    then skipped
    else stable cursor r.start
      ++ (record { start = r.start; end = end_of r; lines = r.replacement } ∷ after)

unfoldable pub pieces_of : ℕ → List Range → List Piece
unfolding pieces_from
pieces_of base_length ranges = pieces_from base_length 0 ranges

-- The order of the events: by start, then the longer piece first.
abbrev pub event_before : Piece → Piece → Bool
event_before l r = ltb l.start r.start || ((l.start == r.start) && leb r.end l.end)

abbrev pub has_lines : Piece → Bool
has_lines p = elim p.lines [ [] ↦ false | _ ∷ _ ↦ true ]

abbrev repeats : Option Piece → Piece → Bool
repeats none p = false
repeats (some last) p = (p.start == last.start) && (p.end == last.end)

-- `base.slice(from, to)`
abbrev pub slice : List String → ℕ → ℕ → List String
slice base from to = take (to - from) (drop from base)

-- The loop of `interleave` from a cursor and the last emitted piece on.
unfoldable pub emit : List String → ℕ → Option Piece → List Piece → List String
emit base cursor last [] = if ltb cursor (length base) then drop cursor base else []
emit base cursor last (p ∷ ps) =
    let skipped = emit base cursor last ps in
    let rest = emit base p.end (some p) ps in
    if repeats last p || leb p.end cursor || not (has_lines p)
    then skipped
    else slice base cursor p.start ++ (p.lines ++ rest)

unfoldable pub interleave : List String → List Piece → List Piece → List String
unfolding emit sort
interleave base here there = emit base 0 none (sort event_before (here ++ there))

-- The lines of a clean merge: `threeWayMerge` where nothing collides.
unfoldable pub clean_merge : List String → List Range → List Range → List String
unfolding interleave pieces_of
clean_merge base here there =
    interleave base (pieces_of (length base) here) (pieces_of (length base) there)

-- The lines of `threeWayMerge`, where it does not report a conflict.
unfoldable pub three_way_merge : List String → List Range → List Range → Option (List String)
unfolding conflicting clean_merge
three_way_merge base here there =
    if conflicting here there then none else some (clean_merge base here there)
