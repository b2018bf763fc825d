-- ===== src/Conflict/Decimal.antt =====
-- Numbers as JavaScript prints them in a text, and texts that are told apart by a separator.
use mineral_obsidian_sync.Base.{
  ℕ, zero, suc, ◌+◌, ◌-◌, ◌*◌, ◌/◌, ◌%◌, ◌≤◌, ◌<◌, ltb→lt, inl, inr, Bool-cases, ◌≡◌, ◌≢◌, refl, ap,
  sym, ◌∙◌, [], ◌∷◌, ◌++◌, ltb, length, All, All-append, if◌then◌else◌, arith,
}
use mineral_obsidian_sync.Conflict.Units.{Units}

-- With the number as fuel, of which each digit takes one.
decimal_within : (fuel : ℕ) → ℕ → Units
decimal_within zero n = (48 + n % 10) ∷ []
decimal_within (suc fuel) n =
    let more = decimal_within fuel (n / 10) in
    if ltb n 10 then (48 + n) ∷ [] else more ++ ((48 + n % 10) ∷ [])

-- `${n}`
unfoldable pub decimal : ℕ → Units
unfolding decimal_within
decimal n = decimal_within n n

value_from : ℕ → Units → ℕ
value_from acc [] = acc
value_from acc (c ∷ s) = value_from (acc * 10 + (c - 48)) s

value_from-append :
    (acc c : ℕ) (s : Units) → value_from acc (s ++ (c ∷ [])) ≡ value_from acc s * 10 + (c - 48)
unfolding value_from
value_from-append acc c [] = refl
value_from-append acc c (d ∷ s) = value_from-append (acc * 10 + (d - 48)) c s

value_from-decimal : (fuel n : ℕ) → n ≤ fuel → value_from 0 (decimal_within fuel n) ≡ n
unfolding value_from decimal_within
value_from-decimal zero n h = omega arith
value_from-decimal (suc fuel) n h = ground (
  arith,
  value_from-append 0 (48 + n % 10) (decimal_within fuel (n / 10)),
  value_from-decimal fuel (n / 10),
)

-- Different numbers are printed differently.
pub decimal_inj : (m n : ℕ) → decimal m ≡ decimal n → m ≡ n
unfolding decimal
decimal_inj m n h =
    sym (value_from-decimal m m (omega arith))
    ∙ ap (value_from 0) h
    ∙ value_from-decimal n n (omega arith)

abbrev pub Lacks : ℕ → Units → Type 0
Lacks c = All (λ d. d ≢ c)

pub decimal-Lacks : (c n : ℕ) → 57 < c → Lacks c (decimal n)
unfolding decimal
decimal-Lacks c n h = digits n n
  where
    digits : (fuel k : ℕ) → Lacks c (decimal_within fuel k)
    digits zero k = (omega arith, tt)
    digits (suc fuel) k = elim (Bool-cases (ltb k 10)) [
      | inl e ↦ rw e (omega (arith, ltb→lt k 10), tt)
      | inr e ↦ rw e (All-append _ _ _ (digits fuel (k / 10)) (omega arith, tt))
    ]

-- The first separator ends the part before it.
pub first_part :
    (c : ℕ) (xs ys : Units) {rest others : Units}
    → Lacks c xs
    → Lacks c ys
    → xs ++ (c ∷ rest) ≡ ys ++ (c ∷ others)
    → (xs ≡ ys) × (rest ≡ others)
first_part c [] [] p q h = ground arith
first_part c [] (y ∷ ys) p q h = ground arith
first_part c (x ∷ xs) [] p q h = ground arith
first_part c (x ∷ xs) (y ∷ ys) {rest} {others} p q h =
    ground (arith, first_part c xs ys {rest = rest} {others = others} p.1 q.1)

pub no_separator : (c : ℕ) (xs rest text : Units) → Lacks c text → text ≡ xs ++ (c ∷ rest) → ⊥
no_separator c [] rest [] p h = cc
no_separator c [] rest (t ∷ text) p h = ground arith
no_separator c (x ∷ xs) rest [] p h = cc
no_separator c (x ∷ xs) rest (t ∷ text) p h = ground (arith, no_separator c xs rest text)

-- The last separator begins the part behind it.
pub last_part :
    (c : ℕ) (xs ys : Units) {rest others : Units}
    → Lacks c rest
    → Lacks c others
    → xs ++ (c ∷ rest) ≡ ys ++ (c ∷ others)
    → (xs ≡ ys) × (rest ≡ others)
last_part c [] [] p q h = ground arith
last_part c [] (y ∷ ys) {rest} {others} p q h = ground (arith, no_separator c ys others rest)
last_part c (x ∷ xs) [] {rest} {others} p q h = ground (arith, no_separator c xs rest others)
last_part c (x ∷ xs) (y ∷ ys) {rest} {others} p q h =
    ground (arith, last_part c xs ys {rest = rest} {others = others} p q)

-- Parts of one length.
pub same_length :
    (xs ys : Units) {rest others : Units}
    → length xs ≡ length ys
    → xs ++ rest ≡ ys ++ others
    → (xs ≡ ys) × (rest ≡ others)
same_length [] [] n h = ground arith
same_length [] (y ∷ ys) n h = absurd (omega arith)
same_length (x ∷ xs) [] n h = absurd (omega arith)
same_length (x ∷ xs) (y ∷ ys) {rest} {others} n h =
    ground (arith, same_length xs ys {rest = rest} {others = others})
