-- ===== src/Sync/Merge/Region/Swap.antt =====
-- What becomes of the answer of `threeWayMerge` of src/sync/merge.ts when the two sides change places.
use mathlib.Core.List.{append-nil, map-append}
use mineral_obsidian_sync.Sync.Types.{TextShape}
use mineral_obsidian_sync.Sync.Text.{to_lines, from_lines, preferred_shape, encode_shape}
use mineral_obsidian_sync.Base.{
  ℕ, min, max, String, Bool, true, false, ◌||◌, ◌≡◌, refl, sym, ◌∙◌, some, List, [], ◌∷◌, ◌++◌, any,
  keep, length, map, arith, ◌⊎◌, inl, inr, Bool-cases,
}
use mineral_obsidian_sync.Sync.Merge.{Range, end_of, collides, conflicting, clean_merge}
use mineral_obsidian_sync.Sync.Merge.Conservation.{collides_comm}
use mineral_obsidian_sync.Sync.Merge.Region.{
  DecodedText, MergeConflictHunk, ThreeWayMergeResult, clean, conflict, min_of, max_of, colliding,
  region_start, region_end, conflict_region, ranges_of, merge_texts, draft_of,
}

abbrev pub swapped_hunk : MergeConflictHunk → MergeConflictHunk
swapped_hunk h = record { here = h.there; base = h.base; there = h.here }

any_or {ℓ} :
    {A : Type ℓ} (p q : A → Bool) (xs : List A) → any (λ x. p x || q x) xs ≡ (any p xs || any q xs)
any_or p q [] = refl
any_or p q (x ∷ xs) = ground (arith, any_or p q xs)

any-false {ℓ} : {A : Type ℓ} (xs : List A) → any (λ x. false) xs ≡ false
any-false [] = refl
any-false (x ∷ xs) = any-false xs

any_swap {ℓ} :
    {A : Type ℓ} (p : A → A → Bool) (xs ys : List A)
    → any (λ x. any (λ y. p x y) ys) xs ≡ any (λ y. any (λ x. p x y) xs) ys
any_swap p [] ys = sym (any-false ys)
any_swap p (x ∷ xs) ys =
    ground (arith, any_swap p xs ys, any_or (λ y. p x y) (λ y. any (λ z. p z y) xs) ys)

any_ext {ℓ} :
    {A : Type ℓ} (p q : A → Bool) → ((x : A) → p x ≡ q x) → (xs : List A) → any p xs ≡ any q xs
any_ext p q h [] = refl
any_ext p q h (x ∷ xs) = ground (arith, h x, any_ext p q h xs)

any-append {ℓ} :
    {A : Type ℓ} (p : A → Bool) (xs ys : List A) → any p (xs ++ ys) ≡ (any p xs || any p ys)
any-append p [] ys = refl
any-append p (x ∷ xs) ys = ground (arith, any-append p xs ys)

conflicting_comm : (ls rs : List Range) → conflicting ls rs ≡ conflicting rs ls
unfolding conflicting
conflicting_comm ls rs =
    any_swap collides ls rs ∙ any_ext _ _ (λ r. any_ext _ _ (λ l. collides_comm l r) ls) rs

keep-append {ℓ} :
    {A : Type ℓ} (p : A → Bool) (xs ys : List A) → keep p (xs ++ ys) ≡ keep p xs ++ keep p ys
keep-append p [] ys = refl
keep-append p (x ∷ xs) ys = ground (arith, keep-append p xs ys)

keep_ext {ℓ} :
    {A : Type ℓ} (p q : A → Bool) → ((x : A) → p x ≡ q x) → (xs : List A) → keep p xs ≡ keep q xs
keep_ext p q h [] = refl
keep_ext p q h (x ∷ xs) = ground (arith, h x, keep_ext p q h xs)

abbrev hits : List Range → Range → Bool
hits all range = any (λ other. collides range other) all

hits_comm : (ls rs : List Range) (range : Range) → hits (ls ++ rs) range ≡ hits (rs ++ ls) range
hits_comm ls rs range = ground (
  arith,
  any-append (λ other. collides range other) ls rs,
  any-append (λ other. collides range other) rs ls,
)

colliding-append :
    (ls rs : List Range)
    → colliding (ls ++ rs) ≡ keep (hits (ls ++ rs)) ls ++ keep (hits (ls ++ rs)) rs
unfolding colliding
colliding-append ls rs = keep-append (hits (ls ++ rs)) ls rs

colliding_comm :
    (ls rs : List Range)
    → colliding (rs ++ ls) ≡ keep (hits (ls ++ rs)) rs ++ keep (hits (ls ++ rs)) ls
colliding_comm ls rs =
    colliding-append rs ls
    ∙ rw (keep_ext _ _ (hits_comm rs ls) rs, keep_ext _ _ (hits_comm rs ls) ls)

min_of-append :
    (x y : ℕ) (xs ys : List ℕ)
    → min_of ((x ∷ xs) ++ (y ∷ ys)) ≡ min (min_of (x ∷ xs)) (min_of (y ∷ ys))
unfolding min_of
min_of-append x y [] ys = refl
min_of-append x y (z ∷ xs) ys = omega (arith, min_of-append z y xs ys)

min_of_comm : (xs ys : List ℕ) → min_of (xs ++ ys) ≡ min_of (ys ++ xs)
min_of_comm [] ys = rw append-nil
min_of_comm (x ∷ xs) [] = rw append-nil
min_of_comm (x ∷ xs) (y ∷ ys) = omega (arith, min_of-append x y xs ys, min_of-append y x ys xs)

max_of-append : (xs ys : List ℕ) → max_of (xs ++ ys) ≡ max (max_of xs) (max_of ys)
unfolding max_of
max_of-append [] ys = omega arith
max_of-append (x ∷ xs) ys = omega (arith, max_of-append xs ys)

region_start_comm : (ls rs : List Range) → region_start (rs ++ ls) ≡ region_start (ls ++ rs)
region_start_comm ls rs =
    rw (colliding_comm ls rs, colliding-append ls rs, map-append, map-append)
      (min_of_comm (map (λ (r : Range). r.start) (keep (hits (ls ++ rs)) rs))
        (map (λ (r : Range). r.start) (keep (hits (ls ++ rs)) ls)))

region_end_comm :
    (base : List String) (ls rs : List Range)
    → region_end base (rs ++ ls) ≡ region_end base (ls ++ rs)
region_end_comm base ls rs =
    rw (colliding_comm ls rs, colliding-append ls rs, map-append, map-append)
      (omega (
        arith,
        max_of-append
            (map (λ (r : Range). min (length base) (end_of r)) (keep (hits (ls ++ rs)) rs))
            (map (λ (r : Range). min (length base) (end_of r)) (keep (hits (ls ++ rs)) ls)),
        max_of-append
            (map (λ (r : Range). min (length base) (end_of r)) (keep (hits (ls ++ rs)) ls))
            (map (λ (r : Range). min (length base) (end_of r)) (keep (hits (ls ++ rs)) rs)),
      ))

conflict_region_comm :
    (base : List String) (ls rs : List Range)
    → (conflict_region base rs ls).0 ≡ swapped_hunk (conflict_region base ls rs).0
unfolding conflict_region
conflict_region_comm base ls rs = rw (region_start_comm ls rs, region_end_comm base ls rs)

abbrev pub IsClean : ThreeWayMergeResult → Type 0
IsClean r = (text : String) × (shape : TextShape) × (bytes : String) × (r ≡ clean text shape bytes)

abbrev pub HasHunk : MergeConflictHunk → ThreeWayMergeResult → Type 0
HasHunk hunk r = (draft : String) × (shape : TextShape) × (r ≡ conflict (hunk ∷ []) draft shape)

-- The two answers of a merge with its sides in either place.
pub data Swapped : ThreeWayMergeResult → ThreeWayMergeResult → Type 0 where
  both_clean : (a b : ThreeWayMergeResult) → IsClean a → IsClean b → Swapped a b
  both_conflict :
      (a b : ThreeWayMergeResult) (hunk : MergeConflictHunk)
      → HasHunk hunk a
      → HasHunk (swapped_hunk hunk) b
      → Swapped a b

pub merge_texts-Swapped :
    (diff : (base side : List String) → List Range) (base here there : DecodedText)
    → Swapped (merge_texts diff base here there) (merge_texts diff base there here)
unfolding merge_texts
merge_texts-Swapped diff base here there = chosen (Bool-cases (conflicting ours theirs))
  where
    lines : List String
    lines = to_lines base.text

    ours : List Range
    ours = ranges_of diff lines (to_lines here.text)

    theirs : List Range
    theirs = ranges_of diff lines (to_lines there.text)

    shape_of : DecodedText → DecodedText → TextShape
    shape_of a b = preferred_shape (some a.shape) (some b.shape) (some base.shape)

    merged : List Range → List Range → String
    merged ls rs = from_lines (clean_merge lines ls rs)

    chosen :
        (conflicting ours theirs ≡ true) ⊎ (conflicting ours theirs ≡ false)
        → Swapped (merge_texts diff base here there) (merge_texts diff base there here)
    chosen (inl e) =
        both_conflict _ _ (conflict_region lines ours theirs).0
          (draft_of lines (conflict_region lines ours theirs), shape_of here there, rw e)
          (
            draft_of lines (conflict_region lines theirs ours),
            shape_of there here,
            rw (conflicting_comm theirs ours, e, ← conflict_region_comm lines ours theirs),
          )
    chosen (inr e) =
        both_clean _ _
          (
            merged ours theirs,
            shape_of here there,
            encode_shape (merged ours theirs) (shape_of here there),
            rw e,
          )
          (
            merged theirs ours,
            shape_of there here,
            encode_shape (merged theirs ours) (shape_of there here),
            rw (conflicting_comm theirs ours, e),
          )
