-- ===== src/Scheduler/Results.antt =====
-- What src/scheduler/scheduler.ts concludes from one operation and its result.
pub mod Facts
use mineral_obsidian_sync.Base.{
  ℕ, ◌+◌, String, Bool, true, false, not, ◌&&◌, ◌||◌, Option, none, some, ◌==◌, ltb, leb, is_truthy,
  if◌then◌else◌,
}
use mineral_obsidian_sync.Sync.Types.{SyncOperation, RemoteVersion, op_key}
use mineral_obsidian_sync.Remote.Client.{Error, remote_http, remote_transport}
use mineral_obsidian_sync.Executor.Result.{
  OperationResult, ambiguous_put, remote_applied_local_changed,
}
use mineral_obsidian_sync.Scheduler.Types.{
  FailureClass, retryable, stable, auth, CycleRemoteMutation, confirmed, possible, CycleResult,
  result, ResultCounts, RemoteChange, LandedWrite,
}

-- The classification of an HTTP status, by `classify` and `classifyError` alike.
abbrev pub status_class : ℕ → FailureClass
status_class status =
    if status == 401 || status == 403
    then auth
    else if status == 429 || leb 500 status
    then retryable
    else stable

abbrev status_class_of : Option ℕ → FailureClass
status_class_of none = stable
status_class_of (some status) = status_class status

unfoldable pub classify : CycleResult → Option FailureClass
classify (result (OperationResult.unresolved _ _ _ _ _)) = some retryable
classify (result (OperationResult.failed _ _ _ status)) = some (status_class_of status)
classify _ = none

unfoldable pub classify_error : Error → FailureClass
classify_error (remote_http _ status) = status_class status
classify_error (remote_transport _) = retryable
classify_error _ = stable

-- `writesRemote`
abbrev pub writes_remote : SyncOperation → Bool
writes_remote (SyncOperation.upload _ _ _ _) = true
writes_remote (SyncOperation.delete_remote _ _ _) = true
writes_remote (SyncOperation.resolve_keep_local _ _ _ _ _ _) = true
writes_remote (SyncOperation.resolve_merged _ _ _ _ _ _) = true
writes_remote (SyncOperation.resolve_accept_local_delete _ _ _ _) = true
writes_remote _ = false

abbrev mutation_of : CycleResult → Option CycleRemoteMutation
mutation_of (result (OperationResult.applied _ _ _ _ _)) = some confirmed
mutation_of (result (OperationResult.unresolved _ ambiguous_put _ _ _)) = some possible
mutation_of (result (OperationResult.partial _ remote_applied_local_changed _ _)) = some confirmed
mutation_of _ = none

unfoldable pub observe_remote_mutation : SyncOperation → CycleResult → Option CycleRemoteMutation
observe_remote_mutation operation r = if writes_remote operation then mutation_of r else none

-- `"remote" in result ? result.remote : undefined`
abbrev pub revision_of : CycleResult → Option RemoteVersion
revision_of (result (OperationResult.applied _ _ remote _ _)) = remote
revision_of (result (OperationResult.unresolved _ _ remote _ _)) = remote
revision_of (result (OperationResult.partial _ _ _ remote)) = remote
revision_of _ = none

abbrev pub retired_of : CycleResult → Option String
retired_of (result (OperationResult.applied _ _ _ retired _)) = retired
retired_of (result (OperationResult.unresolved _ _ _ retired _)) = retired
retired_of _ = none

abbrev pub physically_deleted_of : CycleResult → Bool
physically_deleted_of (result (OperationResult.applied _ _ _ _ physical)) = physical
physically_deleted_of (result (OperationResult.unresolved _ _ _ _ physical)) = physical
physically_deleted_of _ = false

-- `etag ? { etag } : {}`
abbrev shown : Option String → Option String
shown etag = if is_truthy etag then etag else none

abbrev put_change : String → Option RemoteVersion → RemoteChange
put_change path none = RemoteChange.put path none none
put_change path (some v) = RemoteChange.put path (shown v.etag) (some v.size)

unfoldable pub remote_change_for_operation : SyncOperation → CycleResult → Option RemoteChange
remote_change_for_operation (SyncOperation.delete_remote key _ _) r = some (RemoteChange.delete key)
remote_change_for_operation (SyncOperation.resolve_accept_local_delete key _ _ _) r =
    some (RemoteChange.delete key)
remote_change_for_operation (SyncOperation.upload key _ _ _) r =
    some (put_change key (revision_of r))
remote_change_for_operation (SyncOperation.resolve_keep_local key _ _ _ _ _) r =
    some (put_change key (revision_of r))
remote_change_for_operation (SyncOperation.resolve_merged key _ _ _ _ _) r =
    some (put_change key (revision_of r))
remote_change_for_operation _ r = none

landed_version : String → Option String → ℕ → Option LandedWrite
landed_version path none size = none
landed_version path (some etag) size =
    if is_truthy (some etag) then some (LandedWrite.put path etag size) else none

landed_put : String → Option RemoteVersion → Option LandedWrite
unfolding landed_version
landed_put path none = none
landed_put path (some v) = landed_version path v.etag v.size

landed_retired : String → Option String → Option LandedWrite
landed_retired path none = none
landed_retired path (some etag) =
    if is_truthy (some etag) then some (LandedWrite.delete path etag) else none

landed_delete : String → CycleResult → Option LandedWrite
unfolding landed_retired
landed_delete path r =
    if physically_deleted_of r
    then some (LandedWrite.physically_deleted path)
    else landed_retired path (retired_of r)

unfoldable pub landed_write_for_operation : SyncOperation → CycleResult → Option LandedWrite
unfolding landed_put landed_delete
landed_write_for_operation (SyncOperation.upload key _ _ _) r = landed_put key (revision_of r)
landed_write_for_operation (SyncOperation.resolve_keep_local key _ _ _ _ _) r =
    landed_put key (revision_of r)
landed_write_for_operation (SyncOperation.resolve_merged key _ _ _ _ _) r =
    landed_put key (revision_of r)
landed_write_for_operation (SyncOperation.delete_remote key _ _) r = landed_delete key r
landed_write_for_operation (SyncOperation.resolve_accept_local_delete key _ _ _) r =
    landed_delete key r
landed_write_for_operation _ r = none
