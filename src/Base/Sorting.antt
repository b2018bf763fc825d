-- ===== src/Base/Sorting.antt =====
-- `[...new Set(xs)].sort(compare)`: distinct texts by a stable insertion sort.
use mineral_obsidian_sync.Base.Tests.{str_eq, if◌then◌else◌}
use mineral_obsidian_sync.Base.Lists.{str_mem, NodupText}
use Prim.Native.String.{String}
use mathlib.Core.Path.{◌≡◌, refl}
use mathlib.Core.Bool.{Bool, true, false, ◌||◌}
use mathlib.Core.List.{List, [], ◌∷◌}
use native.Mathlib.Omega.{arith}
use text.Mathlib.TextEquality.{eq_iff}

remove : String → List String → List String
remove x [] = []
remove x (y ∷ ys) = let rest = remove x ys in if str_eq y x then rest else y ∷ rest

-- `[...new Set(xs)]`: each text at its first place.
unfoldable pub distinct : List String → List String
unfolding remove
distinct [] = []
distinct (x ∷ xs) = x ∷ remove x (distinct xs)

module _ {ℓ} {A : Type ℓ} (before : A → A → Bool) where
  -- `before a b` is `compare(a, b) <= 0`.
  unfoldable pub insert_sorted : A → List A → List A
  insert_sorted x [] = x ∷ []
  insert_sorted x (y ∷ ys) = if before x y then x ∷ y ∷ ys else y ∷ insert_sorted x ys

  unfoldable pub sort : List A → List A
  unfolding insert_sorted
  sort [] = []
  sort (x ∷ xs) = insert_sorted x (sort xs)

  -- Each element may stand before all that follow it directly.
  abbrev pub IsSorted : List A → Type 0
  IsSorted [] = Unit
  IsSorted (x ∷ []) = Unit
  IsSorted (x ∷ y ∷ ys) = (before x y ≡ true) × IsSorted (y ∷ ys)

str_mem-remove :
    (s x : String) (xs : List String)
    → str_mem s (remove x xs) ≡ (if str_eq x s then false else str_mem s xs)
unfolding remove
str_mem-remove s x [] = ground arith
str_mem-remove s x (y ∷ ys) =
    ground (arith, str_mem-remove s x ys, eq_iff y x, eq_iff x s, eq_iff y s)

pub str_mem-distinct : (s : String) (xs : List String) → str_mem s (distinct xs) ≡ str_mem s xs
unfolding distinct
str_mem-distinct s [] = refl
str_mem-distinct s (x ∷ xs) =
    ground (arith, str_mem-distinct s xs, str_mem-remove s x (distinct xs), eq_iff x s)

remove-NodupText : (x : String) (xs : List String) → NodupText xs → NodupText (remove x xs)
unfolding remove
remove-NodupText x [] n = tt
remove-NodupText x (y ∷ ys) n =
    ground (arith, remove-NodupText x ys, str_mem-remove y x ys, eq_iff y x, eq_iff x y)

pub distinct-NodupText : (xs : List String) → NodupText (distinct xs)
unfolding distinct
distinct-NodupText [] = tt
distinct-NodupText (x ∷ xs) = (
  rw (str_mem-remove x x (distinct xs)) (ground (arith, eq_iff x x)),
  remove-NodupText x (distinct xs) (distinct-NodupText xs),
)

module _ (before : String → String → Bool) where
  pub str_mem-insert_sorted :
      (s x : String) (xs : List String)
      → str_mem s (insert_sorted before x xs) ≡ (str_eq x s || str_mem s xs)
  unfolding insert_sorted
  str_mem-insert_sorted s x [] = refl
  str_mem-insert_sorted s x (y ∷ ys) = ground (arith, str_mem-insert_sorted s x ys)

  pub str_mem-sort : (s : String) (xs : List String) → str_mem s (sort before xs) ≡ str_mem s xs
  unfolding sort
  str_mem-sort s [] = refl
  str_mem-sort s (x ∷ xs) =
      ground (arith, str_mem-insert_sorted s x (sort before xs), str_mem-sort s xs)

  insert_sorted-NodupText :
      (x : String) (xs : List String)
      → str_mem x xs ≡ false
      → NodupText xs
      → NodupText (insert_sorted before x xs)
  unfolding insert_sorted
  insert_sorted-NodupText x [] h n = (refl, tt)
  insert_sorted-NodupText x (y ∷ ys) h n =
      ground
        (arith, insert_sorted-NodupText x ys, str_mem-insert_sorted y x ys, eq_iff x y, eq_iff y x)

  pub sort-NodupText : (xs : List String) → NodupText xs → NodupText (sort before xs)
  unfolding sort
  sort-NodupText [] n = tt
  sort-NodupText (x ∷ xs) (h, n) =
      insert_sorted-NodupText x (sort before xs) (ground (arith, str_mem-sort x xs))
        (sort-NodupText xs n)
