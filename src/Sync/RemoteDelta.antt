-- ===== src/Sync/RemoteDelta.antt =====
-- src/sync/remote-delta.ts: the observation of single paths.
pub mod Resurrection
pub mod Announced
use mineral_obsidian_sync.Base.{
  ℕ, String, Bool, true, false, not, ◌&&◌, ◌||◌, Option, none, some, List, [], ◌∷◌, ◌==◌, is_some,
  str_eq, str_mem, if◌then◌else◌,
}
use mineral_obsidian_sync.Base.Maps.{Map, insert, lookup}
use mineral_obsidian_sync.Sync.Types.{
  LocalEntry, RemoteEntry, PreviousEntry, RemoteDeletionIdentity,
}
use mineral_obsidian_sync.Remote.Client.{Error, remote_http, other, Try, ok, raised}
use mineral_obsidian_sync.Executor.Effects.{Stat}

-- A parsed tombstone.
pub record Record : Type 0 where
  pub path : String
  pub deleted_remote_etag : String
  pub created_at : String

-- The dependencies of an observation: what the baseline store, the Vault and R2 answer for each path.
-- `read_keys` are the places of a tombstone, `read_record` reads and parses the record at one.
pub record Dependencies : Type 0 where
  pub ignores : String → Bool
  pub accepts_baseline : String → PreviousEntry → Bool
  pub previous : Map PreviousEntry
  pub stat_local : String → Option Stat
  pub observe_object : String → Try RemoteEntry
  pub read_keys : (path etag : String) → List String
  pub read_record : String → Try Record

abbrev pub is_404 : Error → Bool
is_404 (remote_http _ status) = status == 404
is_404 _ = false

abbrev pub describes : String → String → Record → Bool
describes key etag r = str_eq r.path key && str_eq r.deleted_remote_etag etag

-- The loop of `findLogicallyDeleted`.
unfoldable pub find_among :
    (read : String → Try Record)
    → (key etag : String) → List String
    → Try (Option RemoteDeletionIdentity)
find_among read key etag [] = ok none
find_among read key etag (k ∷ ks) =
    let later = find_among read key etag ks in
    elim (read k) [
      | raised e ↦ if is_404 e then later else raised e
      | ok r ↦
          if describes key etag r
          then ok (
              some (record {
                path = key;
                deleted_remote_etag = etag;
                created_at = some r.created_at;
                metadata_etag = none;
                object_present = true;
              }))
          else raised (other "Tombstone does not describe the object it was looked up for")
    ]

abbrev pub entry_at : String → Option Stat → Option LocalEntry
entry_at key none = none
entry_at key (some s) = some (record { key = key; size = s.size; mtime = s.mtime })

abbrev or_modified : Option ℕ → Option ℕ → ℕ
or_modified (some at) _ = at
or_modified none (some at) = at
or_modified none none = 0

-- `deletedObservation`
unfoldable pub deleted_observation :
    String
    → (object_etag : Option String) → (object_modified baseline_modified : Option ℕ) → RemoteEntry
deleted_observation key none object_modified baseline_modified = record {
  key = key;
  size = 0;
  etag = none;
  last_modified = or_modified baseline_modified object_modified;
  deleted = some (record {
    path = key;
    deleted_remote_etag = "";
    created_at = none;
    metadata_etag = none;
    object_present = false;
  });
}
deleted_observation key (some etag) object_modified baseline_modified = record {
  key = key;
  size = 0;
  etag = none;
  last_modified = or_modified object_modified baseline_modified;
  deleted = some (record {
    path = key;
    deleted_remote_etag = etag;
    created_at = none;
    metadata_etag = none;
    object_present = true;
  });
}

abbrev baseline_modified : Option PreviousEntry → Option ℕ
baseline_modified none = none
baseline_modified (some p) = elim p.remote_side [ none ↦ none | some r ↦ r.last_modified ]

module _ (d : Dependencies) where
  -- `baseline !== undefined && dependencies.acceptsBaseline(key, baseline)`
  abbrev pub is_accepted : String → Option PreviousEntry → Bool
  is_accepted key none = false
  is_accepted key (some p) = d.accepts_baseline key p

  abbrev settle_deleted :
      String → RemoteEntry → String → Try (Option RemoteDeletionIdentity) → Try (Option RemoteEntry)
  settle_deleted key present etag (raised e) = raised e
  settle_deleted key present etag (ok none) = ok (some present)
  settle_deleted key present etag (ok (some _)) = ok (
      some (
        deleted_observation key (some etag) (some present.last_modified)
          (baseline_modified (lookup key d.previous))))

  -- The object that is there, as `observeLocalDelta` records it.
  abbrev judge_present : String → RemoteEntry → Option String → Try (Option RemoteEntry)
  judge_present key present none = ok (some present)
  judge_present key present (some etag) =
      if not (is_some (entry_at key (d.stat_local key)))
        && not (is_accepted key (lookup key d.previous))
      then settle_deleted key present etag
          (find_among d.read_record key etag (d.read_keys key etag))
      else ok (some present)

  -- One round of the loop of `observeLocalDelta`: the remote entry of the key, if any.
  unfoldable pub observe_key : String → Try (Option RemoteEntry)
  unfolding find_among deleted_observation
  observe_key key = elim (d.observe_object key) [
    | raised e ↦ if is_404 e then ok none else raised e
    | ok present ↦ judge_present key present present.etag
  ]

  abbrev set_if {ℓ} : {V : Type ℓ} → String → Option V → Map V → Map V
  set_if key none m = m
  set_if key (some v) m = insert key v m

  -- The loop: the first request that fails ends it.
  unfoldable pub observe_keys :
      List String → Map LocalEntry → Map RemoteEntry → Try (Map LocalEntry × Map RemoteEntry)
  unfolding observe_key
  observe_keys [] here there = ok (here, there)
  observe_keys (key ∷ keys) here there =
      if d.ignores key then observe_keys keys here there else elim (observe_key key) [
        | raised e ↦ raised e
        | ok found ↦
            observe_keys keys (set_if key (entry_at key (d.stat_local key)) here)
              (set_if key found there)
      ]

  -- `usableBaselines`
  unfoldable pub usable_baselines : List String → Map PreviousEntry → Map PreviousEntry
  usable_baselines keys [] = []
  usable_baselines keys ((key, p) ∷ rest) =
      let more = usable_baselines keys rest in
      if str_mem key keys && not (d.ignores key) && d.accepts_baseline key p
      then (key, p) ∷ more
      else more
