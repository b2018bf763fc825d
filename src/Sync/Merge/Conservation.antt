-- ===== src/Sync/Merge/Conservation.antt =====
-- Which lines a clean merge of src/sync/merge.ts keeps.
use mineral_obsidian_sync.Base.{
  ℕ, ◌<◌, String, Bool, true, false, ◌||◌, ◌≡◌, refl, none, some, List, [], ◌∷◌, ◌++◌, length, take,
  drop, All, All-append, ltb, ◌==◌, if◌then◌else◌, arith, eq_iff,
}
use mineral_obsidian_sync.Base.Sorting.{sort, insert_sorted}
use mineral_obsidian_sync.Sync.Merge.{
  Range, Piece, end_of, stable, pieces_from, pieces_of, event_before, emit, interleave, clean_merge,
  collides, same_replacement, same_lines, conflicting, three_way_merge,
}

abbrev HasNoLines : Piece → Type 0
HasNoLines p = p.lines ≡ []

abbrev pub IsDeletion : Range → Type 0
IsDeletion r = r.replacement ≡ []

stable-HasNoLines : (a b : ℕ) → All HasNoLines (stable a b)
stable-HasNoLines a b = chosen (ltb a b)
  where
    chosen :
        (t : Bool)
        → All HasNoLines (if t then record { start = a; end = b; lines = [] } ∷ [] else [])
    chosen true = (refl, tt)
    chosen false = tt

pieces-HasNoLines :
    (n cursor : ℕ) (rs : List Range) → All IsDeletion rs → All HasNoLines (pieces_from n cursor rs)
unfolding pieces_from
pieces-HasNoLines n cursor [] d = stable-HasNoLines cursor n
pieces-HasNoLines n cursor (r ∷ rs) (e, d) =
    chosen (ltb n r.start || ltb r.start cursor) (pieces-HasNoLines n cursor rs d)
      (pieces-HasNoLines n (end_of r) rs d)
  where
    piece : Piece
    piece = record { start = r.start; end = end_of r; lines = r.replacement }

    chosen :
        (t : Bool)
        → All HasNoLines (pieces_from n cursor rs)
        → All HasNoLines (pieces_from n (end_of r) rs)
        → All HasNoLines (
            if t
            then pieces_from n cursor rs
            else stable cursor r.start ++ (piece ∷ pieces_from n (end_of r) rs))
    chosen true p q = p
    chosen false p q = All-append HasNoLines _ _ (stable-HasNoLines cursor r.start) (e, q)

insert-HasNoLines :
    (p : Piece) (ps : List Piece)
    → HasNoLines p
    → All HasNoLines ps
    → All HasNoLines (insert_sorted event_before p ps)
unfolding insert_sorted
insert-HasNoLines p [] e d = (e, tt)
insert-HasNoLines p (q ∷ qs) e (x, d) = chosen (event_before p q) (insert-HasNoLines p qs e d)
  where
    chosen :
        (t : Bool)
        → All HasNoLines (insert_sorted event_before p qs)
        → All HasNoLines (if t then p ∷ q ∷ qs else q ∷ insert_sorted event_before p qs)
    chosen true i = (e, (x, d))
    chosen false i = (x, i)

sort-HasNoLines : (ps : List Piece) → All HasNoLines ps → All HasNoLines (sort event_before ps)
unfolding sort
sort-HasNoLines [] d = tt
sort-HasNoLines (p ∷ ps) (e, d) = insert-HasNoLines p _ e (sort-HasNoLines ps d)

emit-HasNoLines :
    (base : List String) (ps : List Piece) → All HasNoLines ps → emit base 0 none ps ≡ base
unfolding emit
emit-HasNoLines [] [] d = refl
emit-HasNoLines (l ∷ ls) [] d = ground arith
emit-HasNoLines base (p ∷ ps) (e, d) = ground (arith, e, emit-HasNoLines base ps d)

-- Where every change of both sides is a deletion and none collides, the merge is clean and its result
-- is the merge base: all the deletions are undone.
pub three_way_merge-deletions :
    (base : List String) (here there : List Range)
    → All IsDeletion here
    → All IsDeletion there
    → conflicting here there ≡ false
    → three_way_merge base here there ≡ some base
unfolding three_way_merge clean_merge interleave pieces_of
three_way_merge-deletions base here there d e c = ground (
  arith,
  c,
  emit-HasNoLines base _ (
      sort-HasNoLines _ (
        All-append HasNoLines _ _ (pieces-HasNoLines (length base) 0 here d)
          (pieces-HasNoLines (length base) 0 there e))),
)

same_lines_comm : (xs ys : List String) → same_lines xs ys ≡ same_lines ys xs
unfolding same_lines
same_lines_comm [] [] = refl
same_lines_comm [] (y ∷ ys) = refl
same_lines_comm (x ∷ xs) [] = refl
same_lines_comm (x ∷ xs) (y ∷ ys) = ground (arith, same_lines_comm xs ys, eq_iff x y, eq_iff y x)

-- Whether two changes collide does not depend on which side made them.
pub collides_comm : (l r : Range) → collides l r ≡ collides r l
unfolding collides same_replacement
collides_comm l r = ground (arith, same_lines_comm l.replacement r.replacement)

-- One change of one side, at some lines that it replaces by others, is what the merge makes of the base.
pub three_way_merge-replacement :
    (base : List String) (r : Range)
    → 0 < r.length
    → end_of r < length base
    → 0 < length r.replacement
    → three_way_merge base (r ∷ []) []
      ≡ some (take r.start base ++ (r.replacement ++ drop (end_of r) base))
unfolding three_way_merge clean_merge interleave pieces_of pieces_from sort insert_sorted emit
    conflicting
three_way_merge-replacement base r l e n = ground (arith, l, e, n)

-- One insertion of one side: in the middle of the base its lines appear there, at the very start of
-- the base they are lost.
pub three_way_merge-insertion :
    (base lines : List String) (at : ℕ)
    → at < length base
    → 0 < length lines
    → three_way_merge base (record { start = at; length = 0; replacement = lines } ∷ []) []
      ≡ some (if at == 0 then base else take at base ++ (lines ++ drop at base))
unfolding three_way_merge clean_merge interleave pieces_of pieces_from sort insert_sorted emit
    conflicting
three_way_merge-insertion base lines at l n = ground (arith, l, n)
