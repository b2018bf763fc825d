-- ===== src/Conflict/Handoff/Misplaced.antt =====
-- Where `splitRegion` of src/conflict/handoff.ts splits a file in which the line behind two added lines
-- begins like both of them.
use mineral_obsidian_sync.Base.{
  ℕ, zero, suc, ◌+◌, ◌≤◌, ◌<◌, true, false, ◌≡◌, refl, ap, ◌∙◌, some, [], ◌∷◌, ◌++◌, ◌==◌, length,
  take, drop, arith, length-append, inl, inr, Bool-cases,
}
use mineral_obsidian_sync.Conflict.Units.{Units, starts_with, same_iff}
use mineral_obsidian_sync.Conflict.Handoff.{
  Region, common_prefix_length, splits_at, split_at, search_split, longest_head, split_region,
}

module _ (p a b s : Units) (c : ℕ) where
  -- The ancestor, and the two sides with an addition of their own behind `p`.
  abbrev pub ancestor : Units
  ancestor = p ++ (c ∷ s)

  abbrev pub with_here : Units
  with_here = p ++ ((c ∷ a) ++ (c ∷ s))

  abbrev pub with_there : Units
  with_there = p ++ ((c ∷ b) ++ (c ∷ s))

  abbrev pub additions : Region
  additions = record { here = c ∷ a; base = []; there = c ∷ b }

take-suc :
    (p xs ys : Units) (c : ℕ)
    → take (suc (length p)) (p ++ (c ∷ xs)) ≡ take (suc (length p)) (p ++ (c ∷ ys))
take-suc [] xs ys c = refl
take-suc (x ∷ p) xs ys c = ap (λ (t : Units). x ∷ t) (take-suc p xs ys c)

drop-append : (p s : Units) (n : ℕ) → drop (length p + n) (p ++ s) ≡ drop n s
drop-append [] s n = ap (λ (k : ℕ). drop k s) (omega arith)
drop-append (x ∷ p) s n =
    ap (λ (k : ℕ). drop k (x ∷ (p ++ s))) {y = suc (length p + n)} (omega arith) ∙ drop-append p s n

common_prefix-append :
    (p xs ys : Units) (c : ℕ) → length p < common_prefix_length (p ++ (c ∷ xs)) (p ++ (c ∷ ys))
unfolding common_prefix_length
common_prefix-append [] xs ys c = ground arith
common_prefix-append (x ∷ p) xs ys c = ground (arith, common_prefix-append p xs ys c)

-- The search ends at a head that is at least as long as any other that fits.
search_split-longest :
    (base here there : Units) (r : Region) (k n : ℕ)
    → k ≤ n
    → splits_at base here there r k ≡ true
    → (m : ℕ) × (k ≤ m) × (search_split base here there r n ≡ some (split_at here r m))
unfolding search_split
search_split-longest base here there r k zero h e =
    let z : k ≡ zero = omega arith in let found = rw z at e in (zero, h, rw found)
search_split-longest base here there r k (suc n) h e =
    elim (Bool-cases (splits_at base here there r (suc n))) [
      | inl fits ↦ (suc n, h, rw fits)
      | inr misses ↦
          let (m, le, found) = search_split-longest base here there r k n (below misses) e in
          (m, le, rw misses found)
    ]
  where
    below : splits_at base here there r (suc n) ≡ false → k ≤ n
    below misses = elim (Bool-cases (k == suc n)) [
      | inl last ↦ cc (rw (at_end last) at e, misses)
      | inr other ↦ ground arith
    ]
      where
        at_end : (k == suc n) ≡ true → k ≡ suc n
        at_end last = ground arith

tail_behind :
    (p a s : Units) (c : ℕ) → drop (suc (length p) + suc (length a)) (p ++ ((c ∷ a) ++ (c ∷ s))) ≡ s
tail_behind p a s c =
    ap (λ (k : ℕ). drop k (p ++ ((c ∷ a) ++ (c ∷ s)))) {y = length p + suc (suc (length a))}
      (omega arith)
    ∙ drop-append p ((c ∷ a) ++ (c ∷ s)) (suc (suc (length a)))
    ∙ ap (λ (k : ℕ). drop k (a ++ (c ∷ s))) {x = suc (length a)} {y = length a + 1} (omega arith)
    ∙ drop-append a (c ∷ s) 1

tail_of_base : (p s : Units) (c : ℕ) → drop (suc (length p) + 0) (p ++ (c ∷ s)) ≡ s
tail_of_base p s c =
    ap (λ (k : ℕ). drop k (p ++ (c ∷ s))) {y = length p + 1} (omega arith) ∙ drop-append p (c ∷ s) 1

module _ (p a b s : Units) (c : ℕ) where
  splits_at-suc :
      splits_at
        (ancestor p a b s c)
        (with_here p a b s c)
        (with_there p a b s c)
        (additions p a b s c)
        (suc (length p))
      ≡ true
  unfolding splits_at
  splits_at-suc = rw (
    tail_behind p a s c,
    tail_behind p b s c,
    tail_of_base p s c,
    take-suc p (b ++ (c ∷ s)) (a ++ (c ∷ s)) c,
    take-suc p s (a ++ (c ∷ s)) c,
    (same_iff (take (suc (length p)) (with_here p a b s c)) _).1 refl,
    (same_iff s s).1 refl,
  )

  longest_head-append :
      length p
      < longest_head
          (ancestor p a b s c)
          (with_here p a b s c)
          (with_there p a b s c)
          (additions p a b s c)
  longest_head-append = omega (
    arith,
    common_prefix-append p (a ++ (c ∷ s)) (b ++ (c ∷ s)) c,
    length-append p (c ∷ s),
    length-append p ((c ∷ a) ++ (c ∷ s)),
    length-append p ((c ∷ b) ++ (c ∷ s)),
    length-append (c ∷ a) (c ∷ s),
    length-append (c ∷ b) (c ∷ s),
  )

  -- Where both sides add text behind `p` that begins like the text that follows there, the file is
  -- split behind the place of the additions, so that their first units stay in front of both.
  pub split_region-misplaced :
      (m : ℕ) × (length p < m)
      × (split_region
            (ancestor p a b s c)
            (with_here p a b s c)
            (with_there p a b s c)
            (additions p a b s c)
          ≡ some (split_at (with_here p a b s c) (additions p a b s c) m))
  unfolding split_region starts_with
  split_region-misplaced =
      search_split-longest (ancestor p a b s c) (with_here p a b s c) (with_there p a b s c)
        (additions p a b s c) (suc (length p)) _ longest_head-append splits_at-suc
