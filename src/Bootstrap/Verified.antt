-- ===== src/Bootstrap/Verified.antt =====
-- Which baselines src/bootstrap/bootstrap.ts proposes.
use mineral_obsidian_sync.Base.{
  ℕ, suc, ◌+◌, String, Bool, true, false, not, ◌≡◌, refl, sym, subst, ◌∙◌, Option, none, some, List,
  [], ◌∷◌, Memᴰ, keep, length, str_eq, eq_iff, if◌then◌else◌, arith,
}
use mineral_obsidian_sync.Base.Maps.{Map, insert, lookup, lookup-insert}
use mineral_obsidian_sync.Sync.Types.{LocalEntry, RemoteEntry, PreviousEntry}
use mineral_obsidian_sync.Remote.Client.{Try, ok, raised, Bytes}
use mineral_obsidian_sync.Bootstrap.{
  Reader, Progress, baseline_of, candidate, compare_key, compare_keys, compare_read, bootstrap,
  candidate_keys, metadata_different,
}

-- The baseline pairs two observed entries of one size whose bytes were read and have one digest, for
-- a key without a complete baseline.
pub record IsVerified (R : Reader) (l : Map LocalEntry) (r : Map RemoteEntry)
    (previous : Map PreviousEntry) (key : String) (p : PreviousEntry) : Type 0 where
  pub here : LocalEntry
  pub there : RemoteEntry
  pub local_bytes : Bytes
  pub remote_bytes : Bytes
  pub observed : lookup key l ≡ some here
  pub listed : lookup key r ≡ some there
  pub eligible : candidate (some here) (some there) (lookup key previous) ≡ true
  pub read_here : R.read_local key here ≡ ok local_bytes
  pub read_there : R.read_remote key there ≡ ok remote_bytes
  pub same_digest : R.sha256 local_bytes ≡ R.sha256 remote_bytes
  pub baseline : p ≡ baseline_of R key here there local_bytes remote_bytes

module _ (R : Reader) (l : Map LocalEntry) (r : Map RemoteEntry)
    (previous : Map PreviousEntry) where
  abbrev Verified : Progress → Type 0
  Verified p =
      (key : String) (b : PreviousEntry)
      → lookup key p.candidates ≡ some b
      → IsVerified R l r previous key b

  insert-Verified :
      (key : String) (b : PreviousEntry) (m : Map PreviousEntry)
      → IsVerified R l r previous key b
      → ((k : String) (c : PreviousEntry) → lookup k m ≡ some c → IsVerified R l r previous k c)
      → (k : String) (c : PreviousEntry) → lookup k (insert key b m) ≡ some c
      → IsVerified R l r previous k c
  insert-Verified key b m v all k c e =
      chosen (str_eq key k) refl (sym (lookup-insert k key b m) ∙ e)
    where
      chosen :
          (t : Bool)
          → str_eq key k ≡ t
          → (if t then some b else lookup k m) ≡ some c
          → IsVerified R l r previous k c
      chosen true q x =
          subst (λ w. IsVerified R l r previous k w) (ground (arith, x))
            (subst (λ w. IsVerified R l r previous w b) ((eq_iff key k).0 q) v)
      chosen false q x = all k c x

  if-Verified :
      (b : Bool) (p q : Progress)
      → (b ≡ true → Verified p)
      → (b ≡ false → Verified q)
      → Verified (if b then p else q)
  if-Verified true p q x y = x refl
  if-Verified false p q x y = y refl

  bytes-Verified :
      (key : String) (here : LocalEntry) (there : RemoteEntry) (x y : Try Bytes) (p : Progress)
      → lookup key l ≡ some here
      → lookup key r ≡ some there
      → candidate (some here) (some there) (lookup key previous) ≡ true
      → R.read_local key here ≡ x
      → R.read_remote key there ≡ y
      → Verified p
      → Verified (compare_read R key here there x y p)
  bytes-Verified key here there (raised e) y p a b c s t v = v
  bytes-Verified key here there (ok lb) (raised e) p a b c s t v = v
  bytes-Verified key here there (ok lb) (ok rb) p a b c s t v =
      if-Verified (not (str_eq (R.sha256 lb) (R.sha256 rb))) _ _ (λ e. v)
        (λ e.
          insert-Verified key _ p.candidates
            (record {
              here = here;
              there = there;
              local_bytes = lb;
              remote_bytes = rb;
              observed = a;
              listed = b;
              eligible = c;
              read_here = s;
              read_there = t;
              same_digest = (eq_iff (R.sha256 lb) (R.sha256 rb)).0 (ground (arith, e));
              baseline = refl;
            })
            v)

  key-Verified :
      (key : String) (x : Option LocalEntry) (y : Option RemoteEntry) (p : Progress)
      → lookup key l ≡ x
      → lookup key r ≡ y
      → candidate x y (lookup key previous) ≡ true
      → Verified p
      → Verified (compare_key R key x y p)
  unfolding compare_key
  key-Verified key none y p a b c v = v
  key-Verified key (some here) none p a b c v = v
  key-Verified key (some here) (some there) p a b c v =
      bytes-Verified key here there _ _ p a b c refl refl v

  keys-Verified :
      (ks : List String) (p : Progress)
      → ((key : String)
          → Memᴰ key ks
          → candidate (lookup key l) (lookup key r) (lookup key previous) ≡ true)
      → Verified p
      → Verified (compare_keys R l r ks p)
  unfolding compare_keys
  keys-Verified [] p c v = v
  keys-Verified (key ∷ ks) p c v =
      keys-Verified ks _ (λ k m. c k (Memᴰ.tail m))
        (key-Verified key (lookup key l) (lookup key r) p refl refl (c key (Memᴰ.head refl)) v)

mem-keep : (q : String → Bool) (ks : List String) (k : String) → Memᴰ k (keep q ks) → q k ≡ true
mem-keep q [] k m = elim m [ ]
mem-keep q (x ∷ xs) k m = chosen (q x) refl (λ n. mem-keep q xs k n) m
  where
    chosen :
        (b : Bool)
        → q x ≡ b
        → (Memᴰ k (keep q xs) → q k ≡ true)
        → Memᴰ k (if b then x ∷ keep q xs else keep q xs)
        → q k ≡ true
    chosen true e f (Memᴰ.head s) = subst (λ y. q y ≡ true) (sym s) e
    chosen true e f (Memᴰ.tail n) = f n
    chosen false e f n = f n

-- Every proposed baseline is verified: both entries were observed with one size, the key had no
-- complete baseline, both sides' bytes were read and have the same digest, and the baseline records
-- exactly the two entries with this digest.
pub bootstrap-IsVerified :
    (R : Reader) (before : String → String → Bool) (l : Map LocalEntry) (r : Map RemoteEntry)
    (previous : Map PreviousEntry) (key : String) (b : PreviousEntry)
    → lookup key (bootstrap R before l r previous).candidates ≡ some b
    → IsVerified R l r previous key b
unfolding bootstrap lookup
bootstrap-IsVerified R before l r previous =
    keys-Verified R l r previous (candidate_keys R before l r previous) _
      (λ k m. mem-keep (λ key. candidate (lookup key l) (lookup key r) (lookup key previous)) _ k m)
      (λ k c e. ground (arith, e))

-- What the diagnostics have counted of the candidates.
abbrev counted : Progress → ℕ
counted p =
    p.diagnostics.verified_identical + (p.diagnostics.different_content + p.diagnostics.unresolved)

read-counted :
    (R : Reader) (key : String) (here : LocalEntry) (there : RemoteEntry) (x y : Try Bytes)
    (p : Progress)
    → counted (compare_read R key here there x y p) ≡ suc (counted p)
read-counted R key here there (raised e) y p = omega arith
read-counted R key here there (ok lb) (raised e) p = omega arith
read-counted R key here there (ok lb) (ok rb) p = ground arith

key-counted :
    (R : Reader) (key : String) (x : Option LocalEntry) (y : Option RemoteEntry)
    (before : Option PreviousEntry) (p : Progress)
    → candidate x y before ≡ true
    → counted (compare_key R key x y p) ≡ suc (counted p)
unfolding candidate compare_key
key-counted R key none y before p c = ground (arith, c)
key-counted R key (some here) none before p c = ground (arith, c)
key-counted R key (some here) (some there) before p c = read-counted R key here there _ _ p

keys-counted :
    (R : Reader) (l : Map LocalEntry) (r : Map RemoteEntry) (previous : Map PreviousEntry)
    (ks : List String) (p : Progress)
    → ((key : String)
        → Memᴰ key ks
        → candidate (lookup key l) (lookup key r) (lookup key previous) ≡ true)
    → counted (compare_keys R l r ks p) ≡ length ks + counted p
unfolding compare_keys
keys-counted R l r previous [] p c = omega arith
keys-counted R l r previous (key ∷ ks) p c = omega (
  arith,
  keys-counted R l r previous ks (compare_key R key (lookup key l) (lookup key r) p)
      (λ k m. c k (Memᴰ.tail m)),
  key-counted R key (lookup key l) (lookup key r) (lookup key previous) p (c key (Memᴰ.head refl)),
)

-- The diagnostics account for every pair: verified, different and unresolved pairs together are the
-- candidates and the pairs without a complete baseline whose sizes differ.
pub bootstrap-counted :
    (R : Reader) (before : String → String → Bool) (l : Map LocalEntry) (r : Map RemoteEntry)
    (previous : Map PreviousEntry)
    → let d = (bootstrap R before l r previous).diagnostics in
      d.verified_identical + (d.different_content + d.unresolved)
      ≡ length (candidate_keys R before l r previous) + metadata_different R before l r previous
unfolding bootstrap
bootstrap-counted R before l r previous =
    keys-counted R l r previous (candidate_keys R before l r previous) _
      (λ k m. mem-keep (λ key. candidate (lookup key l) (lookup key r) (lookup key previous)) _ k m)
    ∙ ground arith
