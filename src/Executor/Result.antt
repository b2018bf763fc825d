-- ===== src/Executor/Result.antt =====
-- What one operation did: `OperationResult` of src/sync/executor.ts.
use mineral_obsidian_sync.Base.{ℕ, String, Bool, Option}
use mineral_obsidian_sync.Sync.Types.{LocalEntry, RemoteVersion}

-- `VaultWriteFailure | VaultTrashFailure | ResolutionWriteFailure`
pub data FailureReason : Type 0 where
  parent_path_is_file folder_create_failed target_path_is_folder : FailureReason
  trash_unavailable target_is_folder file_manager_unavailable target_missing : FailureReason

pub data PartialReason : Type 0 where
  physical_delete_pending remote_applied_local_changed : PartialReason
  remote_write_raced_with_local_edit remote_write_landing_unknown : PartialReason
  local_delete_landing_unknown : PartialReason

pub data StaleReason : Type 0 where
  local_changed remote_changed conflict_superseded : StaleReason

pub data BlockedReason : Type 0 where
  deletion_not_supported missing_remote_etag : BlockedReason
  remote_deletion_requires_version_identity : BlockedReason
  physical_delete_confirmation_required : BlockedReason

pub data UnresolvedReason : Type 0 where
  ambiguous_put state_commit_failed : UnresolvedReason

pub data OperationResult : Type 0 where
  applied :
      (key : String)
      → (local_write : Option LocalEntry) → (remote : Option RemoteVersion)
      → (retired : Option String) → (physical_deleted : Bool) → OperationResult
  stale : (key : String) → StaleReason → OperationResult
  blocked : (key : String) → BlockedReason → OperationResult
  failed :
      (key error : String)
      → (reason : Option FailureReason) → (http_status : Option ℕ) → OperationResult
  unresolved :
      (key : String)
      → UnresolvedReason
      → (remote : Option RemoteVersion) → (retired : Option String) → (physical_deleted : Bool)
      → OperationResult
  partial :
      (key : String)
      → PartialReason
      → (error : Option String) → (remote : Option RemoteVersion) → OperationResult
