-- ===== src/Sync/Planner.antt =====
-- src/sync/planner.ts: the plan as a pure function of the two observations, the baselines and the
-- pending resolutions.
pub mod Table
pub mod Safety
pub mod Plan
use mineral_obsidian_sync.Base.{
  String, ◌<>◌, Bool, true, false, not, ◌&&◌, Option, none, some, List, ◌++◌, filter_map,
  if◌then◌else◌, is_truthy,
}
use mineral_obsidian_sync.Base.Maps.{Map, lookup, keys}
use mineral_obsidian_sync.Base.Sorting.{distinct, sort}
use mineral_obsidian_sync.Sync.Types
use mineral_obsidian_sync.Sync.Types.{
  LocalEntry, RemoteEntry, PreviousEntry, RemoteDeletionIdentity, ExpectedLocal, ExpectedRemote,
  SyncOperation, ConflictKind, MergedContent, is_remote_deleted, both_modified,
  local_modified_remote_deleted, local_deleted_remote_modified, both_created_different,
}
use mineral_obsidian_sync.Sync.Fingerprint.{local_changed, remote_changed}

-- `intent.type`
pub data IntentType : Type 0 where
  keep_local keep_remote accept_remote_delete accept_local_delete merged : IntentType

-- `ResolutionProposal`, whose one field is `intent`.
pub record ResolutionProposal : Type 0 where
  pub conflict_id : String
  pub type : IntentType
  pub merged_content : Option MergedContent

abbrev pub intent_name : IntentType → String
intent_name keep_local = "keep-local"
intent_name keep_remote = "keep-remote"
intent_name accept_remote_delete = "accept-remote-delete"
intent_name accept_local_delete = "accept-local-delete"
intent_name merged = "merged"

abbrev pub observed_reason : ResolutionProposal → String
observed_reason p = "user resolution (" <> intent_name p.type <> ") for the observed conflict"

abbrev pub deletion_reason : ResolutionProposal → String
deletion_reason p =
    "user resolution (" <> intent_name p.type <> ") for the observed deletion conflict"

-- The last step of `resolutionOperation`: a `merged` body is all that it asks for.
merged_operation :
    ResolutionProposal
    → String
    → LocalEntry
    → RemoteEntry
    → Option MergedContent
    → Option SyncOperation
merged_operation p key here there none = none
merged_operation p key here there (some body) =
    some (SyncOperation.resolve_merged key (observed_reason p) p.conflict_id here there.etag body)

by_intent :
    IntentType → ResolutionProposal → String → LocalEntry → RemoteEntry → Option SyncOperation
unfolding merged_operation
by_intent keep_local p key here there =
    some
      (SyncOperation.resolve_keep_local key (observed_reason p) p.conflict_id here there.etag false)
by_intent keep_remote p key here there = some (
    SyncOperation.resolve_keep_remote key (observed_reason p) p.conflict_id
      (ExpectedLocal.entry here) there.etag)
by_intent _ p key here there = merged_operation p key here there p.merged_content

unfoldable pub resolution_operation :
    Option ResolutionProposal → String → LocalEntry → RemoteEntry → Option SyncOperation
unfolding by_intent
resolution_operation none key here there = none
resolution_operation (some p) key here there = by_intent p.type p key here there

by_deletion_intent :
    IntentType
    → ResolutionProposal
    → String
    → LocalEntry
    → RemoteDeletionIdentity
    → Option SyncOperation
by_deletion_intent keep_local p key here deletion = some (
    if deletion.object_present
    then SyncOperation.resolve_keep_local key (deletion_reason p) p.conflict_id here
        (some deletion.deleted_remote_etag) false
    else SyncOperation.resolve_keep_local key (deletion_reason p) p.conflict_id here none true)
by_deletion_intent accept_remote_delete p key here deletion =
    some (
      SyncOperation.resolve_accept_remote_delete key (deletion_reason p) p.conflict_id here
        deletion)
by_deletion_intent _ p key here deletion = none

unfoldable pub deleted_remote_resolution :
    Option ResolutionProposal → String → LocalEntry → RemoteDeletionIdentity → Option SyncOperation
unfolding by_deletion_intent
deleted_remote_resolution none key here deletion = none
deleted_remote_resolution (some p) key here deletion = by_deletion_intent p.type p key here deletion

by_local_deletion_intent : IntentType → ResolutionProposal → String → String → Option SyncOperation
by_local_deletion_intent keep_remote p key etag = some (
    SyncOperation.resolve_keep_remote key (deletion_reason p) p.conflict_id ExpectedLocal.absent
      (some etag))
by_local_deletion_intent accept_local_delete p key etag =
    some (SyncOperation.resolve_accept_local_delete key (deletion_reason p) p.conflict_id etag)
by_local_deletion_intent _ p key etag = none

-- `!there.etag` is also true of the empty text.
unfoldable pub deleted_local_resolution :
    Option ResolutionProposal → String → RemoteEntry → Option SyncOperation
unfolding by_local_deletion_intent
deleted_local_resolution none key there = none
deleted_local_resolution (some p) key there = elim there.etag [
  | none ↦ none
  | some etag ↦ if is_truthy (some etag) then by_local_deletion_intent p.type p key etag else none
]

-- `resolution ?? conflict`
abbrev pub or_conflict : Option SyncOperation → SyncOperation → Option SyncOperation
or_conflict none c = some c
or_conflict (some op) c = some op

abbrev pub expected_of : RemoteDeletionIdentity → ExpectedRemote
expected_of d =
    if d.object_present
    then ExpectedRemote.etag (some d.deleted_remote_etag)
    else ExpectedRemote.absent

-- The deletion that an absent remote key stands for.
abbrev pub absent_deletion : String → RemoteDeletionIdentity
absent_deletion key = record {
  path = key;
  deleted_remote_etag = "";
  created_at = none;
  metadata_etag = none;
  object_present = false;
}

-- The branch under `isRemoteDeleted(there)`.
plan_deleted :
    String
    → Option LocalEntry
    → RemoteDeletionIdentity
    → Option PreviousEntry
    → Option ResolutionProposal
    → Option SyncOperation
plan_deleted key none d before p = none
plan_deleted key (some here) d none p =
    some
      (SyncOperation.upload key "new local file after remote logical deletion" here (expected_of d))
plan_deleted key (some here) d (some before) p =
    if local_changed here before
    then or_conflict (deleted_remote_resolution p key here d) (
        SyncOperation.conflict key local_modified_remote_deleted
          "remote logically deleted while local changed")
    else some (
        SyncOperation.delete_local key "remote logical deletion since previous successful sync"
          here)

-- The branch under `!before`.
plan_new : String → Option LocalEntry → Option RemoteEntry → Option SyncOperation
plan_new key (some here) none =
    some (SyncOperation.upload key "new local file" here ExpectedRemote.absent)
plan_new key none (some there) =
    some (SyncOperation.download key "new remote object" ExpectedLocal.absent there)
plan_new key (some here) (some there) = some (
    SyncOperation.conflict key both_created_different
      "first sync cannot prove both entries identical")
plan_new key none none = none

-- The branch under `here && there`.
plan_both :
    String
    → LocalEntry
    → RemoteEntry
    → Option ResolutionProposal
    → (changed_local changed_remote : Bool) → Option SyncOperation
plan_both key here there p false false =
    some (SyncOperation.noop key "unchanged since previous successful sync")
plan_both key here there p true false = some (
    SyncOperation.upload key "local changed since previous successful sync" here
      (ExpectedRemote.etag there.etag))
plan_both key here there p false true = some (
    SyncOperation.download key "remote changed since previous successful sync"
      (ExpectedLocal.entry here) there)
plan_both key here there p true true =
    or_conflict (resolution_operation p key here there)
      (SyncOperation.conflict key both_modified "both sides changed since previous successful sync")

-- The branches with a baseline.
plan_known :
    String
    → Option LocalEntry
    → Option RemoteEntry
    → PreviousEntry
    → Option ResolutionProposal
    → Option SyncOperation
unfolding plan_both
plan_known key (some here) (some there) before p =
    plan_both key here there p (local_changed here before) (remote_changed there before)
plan_known key none none before p = some (
    SyncOperation.prune_baseline key
      "absent locally and remotely since the previous successful sync")
plan_known key none (some there) before p =
    if remote_changed there before
    then or_conflict (deleted_local_resolution p key there) (
        SyncOperation.conflict key local_deleted_remote_modified
          "local deleted while remote changed")
    else some
        (SyncOperation.delete_remote key "local deletion since previous successful sync" there.etag)
plan_known key (some here) none before p =
    if local_changed here before
    then or_conflict (deleted_remote_resolution p key here (absent_deletion key)) (
        SyncOperation.conflict key local_modified_remote_deleted
          "remote deleted while local changed")
    else some (SyncOperation.delete_local key "remote deletion since previous successful sync" here)

plan_live :
    String
    → Option LocalEntry
    → Option RemoteEntry
    → Option PreviousEntry
    → Option ResolutionProposal
    → Option SyncOperation
unfolding plan_new plan_known
plan_live key here there none p = plan_new key here there
plan_live key here there (some before) p = plan_known key here there before p

-- One round of the loop of `buildSyncPlan`: the operation pushed for `key`, if any.
unfoldable pub plan_key :
    String
    → Option LocalEntry
    → Option RemoteEntry
    → Option PreviousEntry
    → Option ResolutionProposal
    → Option SyncOperation
unfolding plan_deleted plan_live is_remote_deleted
plan_key key here there before p = elim (is_remote_deleted there) [
  | some d ↦ plan_deleted key here d before p
  | none ↦ plan_live key here there before p
]

abbrev pub known_keys : Map LocalEntry → Map RemoteEntry → Map PreviousEntry → List String
known_keys l r p = keys l ++ keys r ++ keys p

-- `before` is the order of `localeCompare`, which belongs to the JavaScript engine.
module _ (before : String → String → Bool) where
  -- `resolutions` left out is the empty map.
  unfoldable pub build_sync_plan :
      Map LocalEntry
      → Map RemoteEntry
      → Map PreviousEntry
      → Map ResolutionProposal
      → List SyncOperation
  build_sync_plan l r p resolutions =
      filter_map
        (λ key. plan_key key (lookup key l) (lookup key r) (lookup key p) (lookup key resolutions))
        (sort before (distinct (known_keys l r p)))
