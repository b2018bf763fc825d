-- ===== src/Sync/RemoteDelta/Announced/Sourced.antt =====
-- Where the observation of announced changes by src/sync/remote-delta.ts takes each entry from.
use mineral_obsidian_sync.Base.{
  ℕ, String, Bool, true, false, ◌≡◌, inl, inr, refl, sym, subst, Option, none, some, List, [], ◌∷◌,
  Memᴰ, str_eq, eq_iff, Bool-cases, if◌then◌else◌, arith,
}
use mineral_obsidian_sync.Base.Maps.{Map, insert, lookup, erase, lookup-insert, lookup-erase}
use mineral_obsidian_sync.Sync.Types.{LocalEntry, RemoteEntry, PreviousEntry}
use mineral_obsidian_sync.Remote.Client.{Try, ok, raised}
use mineral_obsidian_sync.Sync.RemoteDelta.Announced.{
  delta_keys, Change, put, delete, rename, Sources, with_key, truthy, present_of, recorded, date_of,
  stated_by, observe_put, deletion_of, observe_deletion, observe_change, observe_changes, observed,
  observe_remote_delta,
}

module _ (s : Sources) where
  -- Where the entry of a path comes from.
  pub data Sourced (changes : List Change) (key : String) : RemoteEntry → Type 0 where
    stated :
        (path etag modified : String) (size at : ℕ)
        → Memᴰ (put path (some etag) (some size) (some modified)) changes
        → s.canonical path ≡ some key
        → s.parse_date modified ≡ some at
        → Sourced changes key (record {
          key = key;
          size = size;
          etag = some etag;
          last_modified = at;
          deleted = none;
        })
    seen :
        (if_match : Option String) (entry : RemoteEntry)
        → s.observe_version key if_match ≡ ok entry
        → Sourced changes key entry
    gone :
        (path : String) (present : Option RemoteEntry)
        → Memᴰ (delete path) changes
        → s.canonical path ≡ some key
        → present_of (s.paths.observe_object key) ≡ ok present
        → Sourced changes key (deletion_of s key present)

  abbrev pub AllSourced : List Change → Map RemoteEntry → Type 0
  AllSourced changes m =
      (key : String) (entry : RemoteEntry)
      → lookup key m ≡ some entry
      → (s.paths.ignores key ≡ false) × Sourced changes key entry

  insert-AllSourced :
      (changes : List Change) (m : Map RemoteEntry) (key : String) (entry : RemoteEntry)
      → AllSourced changes m
      → s.paths.ignores key ≡ false
      → Sourced changes key entry
      → AllSourced changes (insert key entry m)
  insert-AllSourced changes m key entry all open_to source asked found e =
      elim (Bool-cases (str_eq key asked)) [
        | inl same ↦
            let known : key ≡ asked = (eq_iff key asked).0 same in
            let equal : entry ≡ found = ground (arith, e, same, lookup-insert asked key entry m) in
            (
              subst (λ k. s.paths.ignores k ≡ false) known open_to,
              subst (Sourced changes asked) equal
                  (subst (λ k. Sourced changes k entry) known source),
            )
        | inr differs ↦
            all asked found (ground (arith, e, differs, lookup-insert asked key entry m))
      ]

  erase-AllSourced :
      (changes : List Change) (m : Map RemoteEntry) (key : String)
      → AllSourced changes m
      → AllSourced changes (erase key m)
  erase-AllSourced changes m key all other_key entry e =
      all other_key entry (ground (arith, e, lookup-erase other_key key m))

  abbrev Becomes : List Change → Try (Map RemoteEntry) → Type 0
  Becomes changes result = (m : Map RemoteEntry) → result ≡ ok m → AllSourced changes m

  module _ (changes : List Change) where
    ok-Becomes : (m : Map RemoteEntry) → AllSourced changes m → Becomes changes (ok m)
    ok-Becomes m all n e = subst (AllSourced changes) (cc e) all

    with_key-Becomes :
        (o : Option String) (f : String → Try (Map RemoteEntry))
        → ((key : String) → o ≡ some key → Becomes changes (f key))
        → Becomes changes (with_key o f)
    with_key-Becomes none f h = λ m e. cc
    with_key-Becomes (some key) f h = h key refl

    guarded-Becomes :
        (ignored : Bool) (m : Map RemoteEntry) (t : Try (Map RemoteEntry))
        → AllSourced changes m
        → (ignored ≡ false → Becomes changes t)
        → Becomes changes (if ignored then ok m else t)
    guarded-Becomes true m t all h = ok-Becomes m all
    guarded-Becomes false m t all h = h refl

    recorded-Becomes :
        (key : String) (m : Map RemoteEntry) (t : Try RemoteEntry)
        → AllSourced changes m
        → s.paths.ignores key ≡ false
        → ((entry : RemoteEntry) → t ≡ ok entry → Sourced changes key entry)
        → Becomes changes (recorded key m t)
    recorded-Becomes key m (raised x) all i h = λ n e. cc
    recorded-Becomes key m (ok entry) all i h =
        ok-Becomes (insert key entry m) (insert-AllSourced changes m key entry all i (h entry refl))

    stated_by-some :
        (key : String) (etag : Option String) (size at : Option ℕ) {entry : RemoteEntry}
        → stated_by s key etag size at ≡ some entry
        → (e : String) × (n : ℕ) × (t : ℕ) × (etag ≡ some e)
          × (size ≡ some n)
          × (at ≡ some t)
          × (entry
              ≡ record { key = key; size = n; etag = some e; last_modified = t; deleted = none })
    stated_by-some key none size at h = cc
    stated_by-some key (some e) none at h = cc
    stated_by-some key (some e) (some n) none h = cc
    stated_by-some key (some e) (some n) (some t) h = (e, n, t, refl, refl, refl, cc h)

    truthy-some : (o : Option String) {e : String} → truthy o ≡ some e → o ≡ some e
    truthy-some none h = h
    truthy-some (some etag) h = ground (arith, h)

    date_of-some :
        (o : Option String) {at : ℕ}
        → date_of s o ≡ some at
        → (modified : String) × (o ≡ some modified) × (s.parse_date modified ≡ some at)
    date_of-some none h = cc
    date_of-some (some modified) h = (modified, refl, ground (arith, h))

    stated-Sourced :
        (path key : String) (etag : Option String) (size : Option ℕ) (modified : Option String)
        (entry : RemoteEntry)
        → Memᴰ (put path etag size modified) changes
        → s.canonical path ≡ some key
        → stated_by s key (truthy etag) size (date_of s modified) ≡ some entry
        → Sourced changes key entry
    stated-Sourced path key etag size modified entry member c h =
        let (e, n, t, he, hn, ht, q) =
          stated_by-some key (truthy etag) size (date_of s modified) h in
        let (written, hw, parsed) = date_of-some modified ht in
        let same : put path etag size modified ≡ put path (some e) (some n) (some written) =
          cc (truthy-some etag he, hn, hw) in
        subst (Sourced changes key) (sym q)
          (stated path e written n t (subst (λ x. Memᴰ x changes) same member) c parsed)

    observe_put-Becomes :
        (key : String) (if_match : Option String) (o : Option RemoteEntry) (m : Map RemoteEntry)
        → AllSourced changes m
        → s.paths.ignores key ≡ false
        → ((entry : RemoteEntry) → o ≡ some entry → Sourced changes key entry)
        → Becomes changes (observe_put s key if_match o m)
    observe_put-Becomes key if_match (some entry) m all i h =
        ok-Becomes (insert key entry m) (insert-AllSourced changes m key entry all i (h entry refl))
    observe_put-Becomes key if_match none m all i h =
        recorded-Becomes key m (s.observe_version key if_match) all i (seen if_match)

    observe_deletion-Becomes :
        (path key : String) (m : Map RemoteEntry) (t : Try (Option RemoteEntry))
        → AllSourced changes m
        → s.paths.ignores key ≡ false
        → Memᴰ (delete path) changes
        → s.canonical path ≡ some key
        → present_of (s.paths.observe_object key) ≡ t
        → Becomes changes (observe_deletion s key m t)
    observe_deletion-Becomes path key m (raised x) all i member c q = λ n e. cc
    observe_deletion-Becomes path key m (ok present) all i member c q =
        ok-Becomes (insert key (deletion_of s key present) m) (
          insert-AllSourced changes m key (deletion_of s key present) all i
            (gone path present member c q))

    observe_change-Becomes :
        (change : Change) (m : Map RemoteEntry)
        → Memᴰ change changes
        → AllSourced changes m
        → Becomes changes (observe_change s change m)
    unfolding observe_change
    observe_change-Becomes (put path etag size modified) m member all =
        with_key-Becomes (s.canonical path) _ (λ key c.
          guarded-Becomes (s.paths.ignores key) m _ all (λ i.
            observe_put-Becomes key (truthy etag)
              (stated_by s key (truthy etag) size (date_of s modified)) m all i
              (λ entry h. stated-Sourced path key etag size modified entry member c h)))
    observe_change-Becomes (delete path) m member all =
        with_key-Becomes (s.canonical path) _ (λ key c.
          guarded-Becomes (s.paths.ignores key) m _ all (λ i.
            observe_deletion-Becomes path key m (present_of (s.paths.observe_object key)) all i
              member c refl))
    observe_change-Becomes (rename from to etag) m member all =
        with_key-Becomes (s.canonical from) _ (λ left l.
          with_key-Becomes (s.canonical to) _ (λ key c.
            let rest = erase-AllSourced changes m left all in
            guarded-Becomes (s.paths.ignores key) (erase left m) _ rest (λ i.
              recorded-Becomes key (erase left m) (s.observe_version key (truthy etag)) rest i
                (seen (truthy etag)))))

    observe_changes-Becomes :
        (rest : List Change) (m : Map RemoteEntry)
        → ((change : Change) → Memᴰ change rest → Memᴰ change changes)
        → AllSourced changes m
        → Becomes changes (observe_changes s rest m)
    unfolding observe_changes
    observe_changes-Becomes [] m within all = ok-Becomes m all
    observe_changes-Becomes (change ∷ rest) m within all =
        onwards (observe_change s change m)
          (observe_change-Becomes change m (within change (Memᴰ.head refl)) all)
          (λ found. observe_changes-Becomes rest found (λ c k. within c (Memᴰ.tail k)))
      where
        onwards :
            (t : Try (Map RemoteEntry))
            → Becomes changes t
            → ((found : Map RemoteEntry)
                → AllSourced changes found
                → Becomes changes (observe_changes s rest found))
            → Becomes changes
                (elim t [ raised e ↦ raised e | ok found ↦ observe_changes s rest found ])
        onwards (raised x) h again = λ n e. cc
        onwards (ok found) h again = again found (h found refl)

  nothing-AllSourced : (changes : List Change) → AllSourced changes []
  unfolding lookup
  nothing-AllSourced changes key entry e = cc

  -- What an observation of announced changes knows of a path that is not ignored is the complete fact of
  -- an announced write of this path, an answer of R2 for it, or, where its deletion was announced, the
  -- deletion of the version that R2 has there.
  pub observe_remote_delta-AllSourced :
      (changes : List Change) (here : Map LocalEntry) (there : Map RemoteEntry)
      (previous : Map PreviousEntry)
      → observe_remote_delta s changes ≡ ok (here, there, previous)
      → AllSourced changes there
  unfolding observe_remote_delta
  observe_remote_delta-AllSourced changes here there previous e =
      from_keys (delta_keys s changes) (observe_changes s changes [])
        (observe_changes-Becomes changes changes [] (λ c k. k) (nothing-AllSourced changes)) e
    where
      from_keys :
          (keys : Try (List String)) (t : Try (Map RemoteEntry))
          → Becomes changes t
          → observed s keys t ≡ ok (here, there, previous)
          → AllSourced changes there
      from_keys (raised x) t h q = cc
      from_keys (ok ks) (raised x) h q = cc
      from_keys (ok ks) (ok found) h q = subst (AllSourced changes) (cc q) (h found refl)
