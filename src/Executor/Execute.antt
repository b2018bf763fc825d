-- ===== src/Executor/Execute.antt =====
-- `SafeExecutor.execute` of src/sync/executor.ts.
use mineral_obsidian_sync.Base.{none, some, false}
use mineral_obsidian_sync.Sync.Types.{SyncOperation}
use mineral_obsidian_sync.Executor.Result.{OperationResult, failed}
use mineral_obsidian_sync.Executor.Effects.{Env, M, ret}
use mineral_obsidian_sync.Executor.Steps.{prune_result}
use mineral_obsidian_sync.Executor.Transfers.{upload}
use mineral_obsidian_sync.Executor.Downloads.{download}
use mineral_obsidian_sync.Executor.Deletes.{delete_local, delete_remote}
use mineral_obsidian_sync.Executor.Resolutions.{
  resolve_keep_local, resolve_keep_remote, resolve_merged, accept_remote_delete,
}

unfoldable pub execute : (E : Env) → SyncOperation → M OperationResult
execute E (SyncOperation.delete_remote key _ etag) = delete_remote E key etag
execute E (SyncOperation.prune_baseline key _) = prune_result E key none false
execute E (SyncOperation.delete_local key _ here) = delete_local E key here
execute E (SyncOperation.resolve_keep_local key _ _ here etag absent) =
    resolve_keep_local E key here etag absent
execute E (SyncOperation.resolve_keep_remote key _ _ expected etag) =
    resolve_keep_remote E key expected etag
execute E (SyncOperation.resolve_merged key _ _ here etag merged) =
    resolve_merged E key here etag merged
execute E (SyncOperation.resolve_accept_remote_delete key _ _ here deletion) =
    accept_remote_delete E key here deletion
execute E (SyncOperation.resolve_accept_local_delete key _ _ etag) = delete_remote E key (some etag)
execute E (SyncOperation.upload key _ here expected) = upload E key here expected
execute E (SyncOperation.download key _ expected there) = download E key expected there
execute E (SyncOperation.noop key _) = ret (failed key "operation noop is not executable" none none)
execute E (SyncOperation.conflict key _ _) =
    ret (failed key "operation conflict is not executable" none none)
