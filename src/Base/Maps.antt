-- ===== src/Base/Maps.antt =====
-- A JavaScript `Map` with text keys: an association list in insertion order, no key twice.
use mineral_obsidian_sync.Base.Tests.{str_eq, if◌then◌else◌}
use mineral_obsidian_sync.Base.Lists.{str_mem}
use Prim.Native.String.{String}
use mathlib.Core.Path.{◌≡◌, refl}
use mathlib.Core.Bool.{false}
use mathlib.Core.Option.{Option, none, some}
use mathlib.Core.List.{List, [], ◌∷◌}
use native.Mathlib.Omega.{arith}
use text.Mathlib.TextEquality.{eq_iff}

abbrev pub Map {ℓ} : Type ℓ → Type ℓ
Map V = List (String × V)

module _ {ℓ} {V : Type ℓ} where
  -- `m.get(key)`
  unfoldable pub lookup : (key : String) → Map V → Option V
  lookup key [] = none
  lookup key ((name, value) ∷ rest) = if str_eq name key then some value else lookup key rest

  -- `m.delete(key)`
  unfoldable pub erase : (key : String) → Map V → Map V
  erase key [] = []
  erase key ((name, value) ∷ rest) =
      let others = erase key rest in if str_eq name key then others else (name, value) ∷ others

  -- `m.set(key, value)`, which leaves a known key at its place.
  unfoldable pub insert : (key : String) → (value : V) → Map V → Map V
  insert key value [] = (key, value) ∷ []
  insert key value ((name, old) ∷ rest) =
      (name, if str_eq name key then value else old)
      ∷ (if str_eq name key then rest else insert key value rest)

  -- `[...m.keys()]`
  unfoldable pub keys : Map V → List String
  keys [] = []
  keys ((name, _) ∷ rest) = name ∷ keys rest

  -- `[...m.values()]`
  unfoldable pub values : Map V → List V
  values [] = []
  values ((_, value) ∷ rest) = value ∷ values rest

  pub lookup-insert :
      (asked key : String) (value : V) (m : Map V)
      → lookup asked (insert key value m)
        ≡ (if str_eq key asked then some value else lookup asked m)
  unfolding insert lookup
  lookup-insert asked key value [] = refl
  lookup-insert asked key value ((name, _) ∷ rest) = ground (
    arith,
    lookup-insert asked key value rest,
    eq_iff name asked,
    eq_iff name key,
    eq_iff key asked,
  )

  pub lookup-erase :
      (asked key : String) (m : Map V)
      → lookup asked (erase key m) ≡ (if str_eq key asked then none else lookup asked m)
  unfolding erase lookup
  lookup-erase asked key [] = ground arith
  lookup-erase asked key ((name, _) ∷ rest) =
      ground
        (arith, lookup-erase asked key rest, eq_iff name asked, eq_iff name key, eq_iff key asked)

  pub keys-lookup : (key : String) (m : Map V) → str_mem key (keys m) ≡ false → lookup key m ≡ none
  unfolding keys lookup
  keys-lookup key [] absent = refl
  keys-lookup key (_ ∷ rest) absent = ground (arith, keys-lookup key rest)
