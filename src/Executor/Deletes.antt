-- ===== src/Executor/Deletes.antt =====
-- The deletions of src/sync/executor.ts: `prune`, `deleteLocal`, `deleteRemote` and
-- `executeRemoteDeletes`.
pub mod Trash
pub mod Remote
use mineral_obsidian_sync.Base.{
  String, Bool, true, false, ◌&&◌, Option, none, some, if◌then◌else◌, is_truthy, List, [], ◌∷◌,
  ◌++◌, map,
}
use mineral_obsidian_sync.Base.Maps.{Map, lookup, insert}
use mineral_obsidian_sync.Sync.Types.{LocalEntry, ExpectedLocal}
use mineral_obsidian_sync.Remote.Client.{Error, remote_object_changed, Try, ok, raised}
use mineral_obsidian_sync.Executor.Result.{
  OperationResult, stale, blocked, failed, partial, missing_remote_etag, local_changed,
  remote_changed, remote_deletion_requires_version_identity, physical_delete_confirmation_required,
  physical_delete_pending, local_delete_landing_unknown, trash_unavailable,
  file_manager_unavailable,
}
use mineral_obsidian_sync.Executor.Effects.{
  Env, M, ret, attempt, ◌>>=◌, ◌>>◌, DeleteOutcome, DeleteState, deleted, conflicted, pending,
  get_file_by_path, trash_of, confirm_delete_of, delete_file_of, delete_files_of, send_tombstone,
  note_recovery_changed,
}
use mineral_obsidian_sync.Executor.Steps.{
  upload_failure, read_failure, lift, local_still_matches, verify_version, prune_result,
}

-- What a physical deletion that raised means.
abbrev pub delete_failure : Env → String → Error → OperationResult
delete_failure E key remote_object_changed = stale key remote_changed
delete_failure E key e = failed key (E.message e) none none

abbrev pub pending_result : String → Option String → OperationResult
pending_result key error = partial key physical_delete_pending error none

-- `results.get(op.key) ?? partial`
abbrev pub result_or_pending : String → Option OperationResult → OperationResult
result_or_pending key none = pending_result key none
result_or_pending key (some r) = r

module _ (E : Env) where
  -- Once the trash was asked: the file itself decides.
  after_trash : String → Try (Unit {0}) → Bool → M OperationResult
  after_trash key (raised e) true = ret (failed key (E.message e) (some trash_unavailable) none)
  after_trash key (raised e) false =
      ret (partial key local_delete_landing_unknown (some (E.message e)) none)
  after_trash key (ok _) true = ret (
      failed key "the file is still present after the trash operation" (some trash_unavailable)
        none)
  after_trash key (ok _) false = prune_result E key none false

  trash_file : String → M OperationResult
  unfolding after_trash
  trash_file key =
      if E.has_remover
      then (do
        r ← attempt (trash_of E key)
        there ← get_file_by_path E key
        after_trash key r there)
      else ret
          (failed key "no Vault file remover is configured" (some file_manager_unavailable) none)

  unfoldable pub delete_local : String → LocalEntry → M OperationResult
  unfolding trash_file
  delete_local key expected = do
    still ← local_still_matches E key (ExpectedLocal.entry expected)
    file ← get_file_by_path E key
    if file
        then (if still then trash_file key else ret (stale key local_changed))
        else prune_result E key none false

  -- What one answer of a batch makes of its path.
  outcome_result : String → DeleteState → Option String → M OperationResult
  outcome_result path deleted error = prune_result E path none true
  outcome_result path conflicted error = ret (stale path remote_changed)
  outcome_result path pending error = ret (pending_result path error)

  -- The answers of a batch, path by path.
  record_outcomes : List DeleteOutcome → Map OperationResult → M (Map OperationResult)
  unfolding outcome_result
  record_outcomes [] results = ret results
  record_outcomes (o ∷ rest) results = do
    r ← outcome_result o.path o.state o.error
    record_outcomes rest (insert o.path r results)

  -- The loop that asks for every path's confirmation.
  confirm_all :
      List (String × Option String)
      → List (String × String)
      → Map OperationResult
      → M (List (String × String) × Map OperationResult)
  confirm_all [] eligible results = ret (eligible, results)
  confirm_all ((key, none) ∷ rest) eligible results =
      confirm_all rest eligible (insert key (blocked key missing_remote_etag) results)
  confirm_all ((key, some etag) ∷ rest) eligible results =
      if is_truthy (some etag)
      then (do
        agreed ← confirm_delete_of E key
        if agreed
            then confirm_all rest (eligible ++ ((key, etag) ∷ [])) results
            else confirm_all rest eligible
                (insert key (blocked key physical_delete_confirmation_required) results))
      else confirm_all rest eligible (insert key (blocked key missing_remote_etag) results)

  -- `try { m } finally { recoveryChanged() }`
  abbrev with_notice : {A : Type 0} → M A → M A
  with_notice m = do r ← attempt m; note_recovery_changed E; lift r

  -- `executeRemoteDeletes` with a recovery port.
  unfoldable pub delete_batch : List (String × Option String) → M (List OperationResult)
  unfolding confirm_all record_outcomes
  delete_batch ops = do
    (eligible, refused) ← confirm_all ops [] []
    results ←
        with_notice (do outcomes ← delete_files_of E eligible; record_outcomes outcomes refused)
    ret (map (λ (key, _). result_or_pending key (lookup key results)) ops)

  abbrev first_result : String → List OperationResult → OperationResult
  first_result key [] = pending_result key none
  first_result key (r ∷ _) = r

  abbrev after_physical : String → DeleteState → M OperationResult
  after_physical key deleted = prune_result E key none true
  after_physical key conflicted = ret (pending_result key none)
  after_physical key pending = ret (pending_result key none)

  abbrev settle_physical : String → Try OperationResult → OperationResult
  settle_physical key (ok r) = r
  settle_physical key (raised e) = delete_failure E key e

  -- The physical deletion of one object by the recovery library.
  delete_physical : String → String → M OperationResult
  delete_physical key etag = do
    agreed ← confirm_delete_of E key
    if agreed
        then with_notice (do
          r ← attempt (do state ← delete_file_of E key etag; after_physical key state)
          ret (settle_physical key r))
        else ret (blocked key physical_delete_confirmation_required)

  abbrev after_tombstone : String → String → Try (Unit {0}) → M OperationResult
  after_tombstone key etag (raised e) = ret (upload_failure E "PutObject tombstone" key e)
  after_tombstone key etag (ok _) = prune_result E key (some etag) false

  abbrev after_proof : String → String → Try (Unit {0}) → M OperationResult
  after_proof key etag (raised e) = ret (read_failure E key (stale key remote_changed) e)
  after_proof key etag (ok _) = do
    put ← attempt (send_tombstone E key etag)
    after_tombstone key etag put

  -- The logical deletion: the version is proved by a conditional HEAD, then its tombstone is written.
  delete_logical : String → String → M OperationResult
  delete_logical key etag = do
    proved ← attempt (verify_version E key etag)
    after_proof key etag proved

  delete_version : String → String → M OperationResult
  unfolding delete_physical delete_logical
  delete_version key etag =
      if E.direct_deletion && E.has_recovery_port
      then (do rs ← delete_batch ((key, some etag) ∷ []); ret (first_result key rs))
      else if E.has_recovery_port
      then delete_physical key etag
      else if E.has_tombstones
      then delete_logical key etag
      else ret (blocked key remote_deletion_requires_version_identity)

  unfoldable pub delete_remote : String → Option String → M OperationResult
  unfolding delete_version
  delete_remote key none = ret (blocked key missing_remote_etag)
  delete_remote key (some etag) =
      if is_truthy (some etag)
      then delete_version key etag
      else ret (blocked key missing_remote_etag)

  -- `Promise.all(operations.map(...))`, in the order of the list.
  delete_each : List (String × Option String) → M (List OperationResult)
  delete_each [] = ret []
  delete_each ((key, etag) ∷ rest) = do
    r ← delete_remote key etag
    rs ← delete_each rest
    ret (r ∷ rs)

  unfoldable pub execute_remote_deletes : List (String × Option String) → M (List OperationResult)
  unfolding delete_each
  execute_remote_deletes ops = if E.has_recovery_port then delete_batch ops else delete_each ops
