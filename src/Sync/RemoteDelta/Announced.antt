-- ===== src/Sync/RemoteDelta/Announced.antt =====
-- `observeRemoteDelta` of src/sync/remote-delta.ts: the observation of the paths that other writers
-- announced. Canonical keys, the parsing of dates and HEAD requests with a condition are parameters.
pub mod Sourced
use mineral_obsidian_sync.Base.{
  ℕ, String, Bool, true, false, not, ◌&&◌, ◌||◌, ◌≡◌, ◌⊎◌, inl, inr, refl, sym, subst, Option, none,
  some, List, [], ◌∷◌, ◌++◌, Memᴰ, is_nonempty, str_eq, eq_iff, Bool-cases, if◌then◌else◌, arith,
}
use mineral_obsidian_sync.Base.Maps.{Map, insert, lookup, erase, lookup-insert, lookup-erase}
use mineral_obsidian_sync.Base.Sorting.{distinct}
use mineral_obsidian_sync.Sync.Types.{LocalEntry, RemoteEntry, PreviousEntry}
use mineral_obsidian_sync.Remote.Client.{Error, other, Try, ok, raised}
use mineral_obsidian_sync.Sync.RemoteDelta.{
  Dependencies, is_404, entry_at, deleted_observation, baseline_modified, usable_baselines,
}

-- What another writer announces.
pub data Change : Type 0 where
  put :
      (path : String)
      → (etag : Option String) → (size : Option ℕ) → (modified : Option String) → Change
  delete : (path : String) → Change
  rename : (from to : String) → (etag : Option String) → Change

abbrev pub with_key : {A : Type 0} → Option String → (String → Try A) → Try A
with_key none f = raised (other "Path must be a non-empty vault-relative path without traversal")
with_key (some key) f = f key

-- `change.etag ? { ifMatch: change.etag } : {}`
abbrev pub truthy : Option String → Option String
truthy none = none
truthy (some etag) = if is_nonempty etag then some etag else none

abbrev etag_of : Option RemoteEntry → Option String
etag_of none = none
etag_of (some e) = e.etag

abbrev modified_of : Option RemoteEntry → Option ℕ
modified_of none = none
modified_of (some e) = some e.last_modified

abbrev pub present_of : Try RemoteEntry → Try (Option RemoteEntry)
present_of (raised e) = if is_404 e then ok none else raised e
present_of (ok entry) = ok (some entry)

abbrev pub recorded : String → Map RemoteEntry → Try RemoteEntry → Try (Map RemoteEntry)
recorded key m (raised e) = raised e
recorded key m (ok entry) = ok (insert key entry m)

-- What an observation of announced changes reads.
pub record Sources : Type 0 where
  pub paths : Dependencies
  pub canonical : String → Option String
  pub parse_date : String → Option ℕ
  pub observe_version : (key : String) → (if_match : Option String) → Try RemoteEntry

module _ (s : Sources) where
  -- `deltaKeys`
  unfoldable pub delta_keys : List Change → Try (List String)
  unfolding distinct
  delta_keys changes = elim (collect changes) [ raised e ↦ raised e | ok keys ↦ ok (distinct keys) ]
    where
      add : String → Try (List String) → Try (List String)
      add key (raised e) = raised e
      add key (ok keys) = ok (key ∷ keys)

      collect : List Change → Try (List String)
      collect [] = ok []
      collect (put path _ _ _ ∷ rest) =
          let more = collect rest in with_key (s.canonical path) (λ key. add key more)
      collect (delete path ∷ rest) =
          let more = collect rest in with_key (s.canonical path) (λ key. add key more)
      collect (rename from to _ ∷ rest) =
          let more = collect rest in
          with_key (s.canonical from)
            (λ gone. with_key (s.canonical to) (λ key. add gone (add key more)))

  abbrev pub date_of : Option String → Option ℕ
  date_of none = none
  date_of (some modified) = if is_nonempty modified then s.parse_date modified else none

  -- The entry of a put whose fact is complete.
  abbrev pub stated_by : String → Option String → Option ℕ → Option ℕ → Option RemoteEntry
  stated_by key (some etag) (some size) (some at) =
      some (record { key = key; size = size; etag = some etag; last_modified = at; deleted = none })
  stated_by key _ _ _ = none

  abbrev pub observe_put :
      String → Option String → Option RemoteEntry → Map RemoteEntry → Try (Map RemoteEntry)
  observe_put key if_match (some entry) m = ok (insert key entry m)
  observe_put key if_match none m = recorded key m (s.observe_version key if_match)

  abbrev pub deletion_of : String → Option RemoteEntry → RemoteEntry
  deletion_of key present =
      deleted_observation key (etag_of present) (modified_of present)
        (baseline_modified (lookup key s.paths.previous))

  abbrev pub observe_deletion :
      String → Map RemoteEntry → Try (Option RemoteEntry) → Try (Map RemoteEntry)
  observe_deletion key m (raised e) = raised e
  observe_deletion key m (ok present) = ok (insert key (deletion_of key present) m)

  -- One round of the loop.
  unfoldable pub observe_change : Change → Map RemoteEntry → Try (Map RemoteEntry)
  unfolding deleted_observation
  observe_change (put path etag size modified) m = with_key (s.canonical path) (λ key.
      if s.paths.ignores key
      then ok m
      else observe_put key (truthy etag) (stated_by key (truthy etag) size (date_of modified)) m)
  observe_change (delete path) m = with_key (s.canonical path) (λ key.
      if s.paths.ignores key
      then ok m
      else observe_deletion key m (present_of (s.paths.observe_object key)))
  observe_change (rename from to etag) m = with_key (s.canonical from) (λ gone.
      with_key (s.canonical to) (λ key.
        if s.paths.ignores key
        then ok (erase gone m)
        else recorded key (erase gone m) (s.observe_version key (truthy etag))))

  unfoldable pub observe_changes : List Change → Map RemoteEntry → Try (Map RemoteEntry)
  unfolding observe_change
  observe_changes [] m = ok m
  observe_changes (change ∷ rest) m = elim (observe_change change m) [
    | raised e ↦ raised e
    | ok seen ↦ observe_changes rest seen
  ]

  abbrev pub in_front : String → Option LocalEntry → Map LocalEntry → Map LocalEntry
  in_front key none m = m
  in_front key (some entry) m = (key, entry) ∷ m

  -- The keys are distinct.
  unfoldable pub observe_local : List String → Map LocalEntry
  observe_local [] = []
  observe_local (key ∷ keys) =
      let rest = observe_local keys in
      if s.paths.ignores key
      then rest
      else in_front key (entry_at key (s.paths.stat_local key)) rest

  abbrev pub observed :
      Try (List String)
      → Try (Map RemoteEntry)
      → Try (Map LocalEntry × Map RemoteEntry × Map PreviousEntry)
  observed (raised e) found = raised e
  observed (ok keys) (raised e) = raised e
  observed (ok keys) (ok found) =
      ok (observe_local keys, found, usable_baselines s.paths keys s.paths.previous)

  unfoldable pub observe_remote_delta :
      List Change → Try (Map LocalEntry × Map RemoteEntry × Map PreviousEntry)
  unfolding delta_keys observe_changes observe_local usable_baselines
  observe_remote_delta changes = observed (delta_keys changes) (observe_changes changes [])
