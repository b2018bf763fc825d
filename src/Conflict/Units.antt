-- ===== src/Conflict/Units.antt =====
-- A JavaScript text by its UTF-16 code units, as src/conflict/handoff.ts slices and compares it, with
-- `significantText` and `byteLength` of src/sync/text.ts on such texts.
use Prim.Native.Char.{code}
use mineral_obsidian_sync.Base.{
  ℕ, ◌+◌, ◌-◌, ◌/◌, ◌%◌, ◌≡◌, refl, Bool, true, false, not, ◌&&◌, ◌||◌, ◌↔◌, String, List, [], ◌∷◌,
  ◌++◌, ◌==◌, ltb, leb, keep, if◌then◌else◌, arith,
}

abbrev pub Units : Type 0
Units = List ℕ

-- The code units of a well-formed text.
unfoldable pub units : String → Units
units String.[] = []
units (String.◌∷◌ c s) =
    let rest = units s in
    if ltb (code c) 0x10000
    then code c ∷ rest
    else (0xd800 + (code c - 0x10000) / 0x400) ∷ (0xdc00 + (code c - 0x10000) % 0x400) ∷ rest

-- `left === right`
unfoldable pub same : Units → Units → Bool
same [] [] = true
same [] (y ∷ ys) = false
same (x ∷ xs) [] = false
same (x ∷ xs) (y ∷ ys) = (x == y) && same xs ys

-- `left < right`, by code unit.
unfoldable pub before : Units → Units → Bool
before xs [] = false
before [] (y ∷ ys) = true
before (x ∷ xs) (y ∷ ys) = ltb x y || ((x == y) && before xs ys)

-- `text.startsWith(prefix)`
unfoldable pub starts_with : (text prefix : Units) → Bool
starts_with text [] = true
starts_with [] (p ∷ ps) = false
starts_with (x ∷ xs) (p ∷ ps) = (x == p) && starts_with xs ps

-- `normalizeToLf`
unfoldable pub to_lf : Units → Units
to_lf [] = []
to_lf (c ∷ []) = c ∷ []
to_lf (c ∷ d ∷ s) = let rest = to_lf (d ∷ s) in if c == 13 && d == 10 then rest else c ∷ rest

-- Without the units at the end that pass the test.
unfoldable pub trim_end : (ℕ → Bool) → Units → Units
trim_end p [] = []
trim_end p (c ∷ s) = elim (trim_end p s) [
  | [] ↦ if p c then [] else c ∷ []
  | d ∷ rest ↦ c ∷ d ∷ rest
]

abbrev joined_to : ℕ → List Units → List Units
joined_to c [] = (c ∷ []) ∷ []
joined_to c (line ∷ lines) = (c ∷ line) ∷ lines

-- `text.split("\n")`
unfoldable pub lines_of : Units → List Units
lines_of [] = [] ∷ []
lines_of (c ∷ s) = let rest = lines_of s in if c == 10 then [] ∷ rest else joined_to c rest

-- The lines without their spaces and tabs at the end, joined by line feeds.
unfoldable pub joined_trimmed : List Units → Units
unfolding trim_end
joined_trimmed [] = []
joined_trimmed (line ∷ []) = trim_end (λ c. c == 32 || c == 9) line
joined_trimmed (line ∷ next ∷ lines) =
    trim_end (λ c. c == 32 || c == 9) line ++ (10 ∷ joined_trimmed (next ∷ lines))

unfoldable pub significant_text : Units → Units
unfolding to_lf lines_of joined_trimmed
significant_text text =
    trim_end (λ c. c == 10) (joined_trimmed (lines_of (keep (λ c. not (c == 0xfeff)) (to_lf text))))

abbrev is_high : ℕ → Bool
is_high c = leb 0xd800 c && ltb c 0xdc00

abbrev is_low : ℕ → Bool
is_low c = leb 0xdc00 c && ltb c 0xe000

-- The bytes of the UTF-8 encoding; a lone surrogate is encoded as U+FFFD.
unfoldable pub byte_length : Units → ℕ
byte_length [] = 0
byte_length (c ∷ []) = if ltb c 0x80 then 1 else if ltb c 0x800 then 2 else 3
byte_length (c ∷ d ∷ s) =
    let paired = byte_length s in
    let rest = byte_length (d ∷ s) in
    if is_high c && is_low d
    then 4 + paired
    else (if ltb c 0x80 then 1 else if ltb c 0x800 then 2 else 3) + rest

pub same_iff : (xs ys : Units) → (same xs ys ≡ true) ↔ (xs ≡ ys)
unfolding same
same_iff [] [] = ground arith
same_iff [] (y ∷ ys) = ground arith
same_iff (x ∷ xs) [] = ground arith
same_iff (x ∷ xs) (y ∷ ys) = ground (arith, same_iff xs ys)

-- Of two different texts, exactly one stands before the other.
pub before_total : (xs ys : Units) → before xs ys ≡ false → before ys xs ≡ false → xs ≡ ys
unfolding before
before_total [] [] h k = refl
before_total [] (y ∷ ys) h k = ground arith
before_total (x ∷ xs) [] h k = ground arith
before_total (x ∷ xs) (y ∷ ys) h k = ground (arith, before_total xs ys)

pub before_asym : (xs ys : Units) → before xs ys ≡ true → before ys xs ≡ false
unfolding before
before_asym [] [] h = ground arith
before_asym [] (y ∷ ys) h = refl
before_asym (x ∷ xs) [] h = ground arith
before_asym (x ∷ xs) (y ∷ ys) h = ground (arith, before_asym xs ys)
