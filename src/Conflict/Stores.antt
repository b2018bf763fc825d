-- ===== src/Conflict/Stores.antt =====
-- The conflict stores of src/conflict/stores.ts: records under the key of their channel and identity,
-- or channel and path, in the order in which their keys came in.
pub mod Refines
use mineral_obsidian_sync.Base.{
  ℕ, ◌-◌, String, Bool, true, false, not, ◌&&◌, ◌||◌, Option, none, some, List, [], ◌∷◌, leb, keep,
  drop, length, map, any, str_eq, str_mem, opt_str_eq, if◌then◌else◌,
}
use mineral_obsidian_sync.Base.Maps.{Map, lookup}
use mineral_obsidian_sync.Base.Sorting.{sort}
use mineral_obsidian_sync.Conflict.Types.{MergeBaseRecord, ConflictRecord, ResolutionIntent}

-- A store of records that have a channel and a name in it.
pub record Keyed (R : Type 0) : Type 0 where
  pub channel_of : R → String
  pub name_of : R → String

abbrev pub by_path : Keyed MergeBaseRecord
by_path = record { channel_of = λ r. r.channel; name_of = λ r. r.path }

abbrev pub by_conflict : Keyed ConflictRecord
by_conflict = record { channel_of = λ r. r.channel; name_of = λ r. r.conflict_id }

abbrev pub by_intent : Keyed ResolutionIntent
by_intent = record { channel_of = λ r. r.channel; name_of = λ r. r.conflict_id }

module _ {R : Type 0} (k : Keyed R) where
  abbrev pub is_at : (channel name : String) → R → Bool
  is_at channel name r = str_eq (k.channel_of r) channel && str_eq (k.name_of r) name

  -- `get`, `getConflict`
  unfoldable pub get : (channel name : String) → List R → Option R
  get channel name [] = none
  get channel name (r ∷ rs) = if is_at channel name r then some r else get channel name rs

  -- `put`, `putConflict`, `putIntent`
  unfoldable pub put : R → List R → List R
  put new [] = new ∷ []
  put new (r ∷ rs) =
      let rest = put new rs in
      if is_at (k.channel_of new) (k.name_of new) r then new ∷ rs else r ∷ rest

  -- `putMany`
  unfoldable pub put_many : List R → List R → List R
  unfolding put
  put_many [] store = store
  put_many (new ∷ news) store = put_many news (put new store)

  -- `remove`, `removeConflicts`, `removeIntents`
  unfoldable pub remove_all : (channel : String) → (names : List String) → List R → List R
  remove_all channel names rs =
      keep (λ r. not (str_eq (k.channel_of r) channel && str_mem (k.name_of r) names)) rs

  -- `listConflicts`, `listIntents`
  unfoldable pub list_all : (channel : String) → List R → List R
  list_all channel rs = keep (λ r. str_eq (k.channel_of r) channel) rs

-- `reconcile`: `active` has the current identity of each path.
unfoldable pub reconcile :
    (channel : String) → (active : Map String) → List ConflictRecord → List ConflictRecord
unfolding lookup
reconcile channel active rs =
    keep
      (λ r.
        not (str_eq r.channel channel) || opt_str_eq (lookup r.path active) (some r.conflict_id))
      rs

abbrev newer : MergeBaseRecord → MergeBaseRecord → Bool
newer l r = leb r.updated_at l.updated_at

-- The paths that `prune` removes: all but the newest of the channel.
unfoldable pub doomed : (channel : String) → (max_records : ℕ) → List MergeBaseRecord → List String
unfolding list_all sort
doomed channel max_records rs =
    map (λ r. r.path) (drop max_records (sort newer (list_all by_path channel rs)))

unfoldable pub prune :
    (channel : String) → (max_records : ℕ) → List MergeBaseRecord → List MergeBaseRecord
unfolding doomed remove_all
prune channel max_records rs =
    if leb (length (list_all by_path channel rs)) max_records
    then rs
    else remove_all by_path channel (doomed channel max_records rs) rs
