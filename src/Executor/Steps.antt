-- ===== src/Executor/Steps.antt =====
-- The helpers of src/sync/executor.ts that its operations share.
pub mod Rules
use mineral_obsidian_sync.Base.{
  ℕ, String, ◌<>◌, Bool, false, not, ◌&&◌, Option, none, some, ◌==◌, ltb, if◌then◌else◌, ◌∷◌,
  is_truthy,
}
use mineral_obsidian_sync.Sync.Types.{
  LocalEntry, ExpectedLocal, PreviousEntry, RemoteVersion, LocalBaseline, RemoteBaseline,
}
use mineral_obsidian_sync.Remote.Client.{
  Error, remote_object_changed, remote_http, Try, ok, raised, Bytes, PutOptions, put_object,
  get_object, verify_object_version,
}
use mineral_obsidian_sync.Local.Reading.{matches}
use mineral_obsidian_sync.Executor.Result.{
  OperationResult, stale, failed, unresolved, partial, applied, ambiguous_put, state_commit_failed,
  remote_changed, remote_write_landing_unknown,
}
use mineral_obsidian_sync.Executor.Effects.{
  Env, Event, M, ret, attempt, ◌>>=◌, ◌>>◌, adapter_stat, get_file_by_path, send_put, send_get,
  send_head, backup_of, note_recovery_changed, state_put_of, state_delete_of, date_now,
}

-- `uploadFailure`
unfoldable pub upload_failure : (E : Env) → (operation key : String) → Error → OperationResult
upload_failure E operation key remote_object_changed = stale key remote_changed
upload_failure E operation key (remote_http _ status) =
    if ltb status 500 && not (status == 429)
    then failed key ("R2 " <> operation <> " failed with HTTP " <> E.show_status status) none
        (some status)
    else unresolved key ambiguous_put none none false
upload_failure E operation key _ = unresolved key ambiguous_put none none false

-- The answer to a failed conditional read: `getObject` and `verifyObjectVersion`.
unfoldable pub read_failure :
    (E : Env) → String → (superseded : OperationResult) → Error → OperationResult
read_failure E key superseded remote_object_changed = superseded
read_failure E key superseded (remote_http operation status) =
    failed key (E.message (remote_http operation status)) none (some status)
read_failure E key superseded e = failed key (E.message e) none none

-- `{ ...result, remote }`
abbrev pub landed : OperationResult → RemoteVersion → OperationResult
landed (unresolved key reason _ retired physical) v =
    unresolved key reason (some v) retired physical
landed (partial key reason error _) v = partial key reason error (some v)
landed r v = r

unfoldable pub lift {ℓ} : {A : Type ℓ} → Try A → M A
lift r h = (r, h)

-- `remote: RemoteVersion & { hash? }` of a baseline.
abbrev pub remote_side_of : RemoteVersion → RemoteBaseline
remote_side_of v = record {
  size = v.size;
  etag = v.etag;
  last_modified = v.last_modified;
  hash = none;
}

module _ (E : Env) where
  unfoldable pub local_still_matches : String → ExpectedLocal → M Bool
  unfolding matches
  local_still_matches key ExpectedLocal.absent = do file ← get_file_by_path E key; ret (not file)
  local_still_matches key (ExpectedLocal.entry e) = do s ← adapter_stat E e.key; ret (matches s e)

  backup_first : String → Option String → M (Unit {0})
  backup_first key none = ret tt
  backup_first key (some etag) =
      if is_truthy (some etag) && E.has_recovery_port
      then (do backup_of E key etag; note_recovery_changed E)
      else ret tt

  unfoldable pub put_with_backup : String → Bytes → PutOptions → M RemoteVersion
  unfolding backup_first
  put_with_backup key bytes options = do
    backup_first key options.if_match
    response ← send_put E key bytes options
    lift (put_object bytes response)

  unfoldable pub get_if_match : String → String → M Bytes
  get_if_match key etag = do response ← send_get E key etag; lift (get_object response)

  unfoldable pub verify_version : String → String → M (Unit {0})
  verify_version key etag = do
    response ← send_head E key etag
    lift (verify_object_version response)

  abbrev refusal_of : String → Try (Unit {0}) → Option OperationResult
  refusal_of key (ok _) = none
  refusal_of key (raised e) = some (unresolved key state_commit_failed none none false)

  -- `commit`: nothing on success.
  unfoldable pub commit : PreviousEntry → M (Option OperationResult)
  commit p = do r ← attempt (state_put_of E p); ret (refusal_of p.key r)

  -- The entry that every commit of the executor writes.
  abbrev pub entry_for : String → LocalBaseline → RemoteBaseline → ℕ → PreviousEntry
  entry_for key l r at = record {
    key = key;
    local_side = some l;
    remote_side = some r;
    synced_at = at;
    remote_identity = some E.identity;
    ignore_policy = some E.ignore_policy;
  }

  abbrev pub version_of : LocalEntry → LocalBaseline
  version_of e = record { size = e.size; mtime = e.mtime; hash = none }

  unfoldable pub commit_floor_baseline :
      String → LocalEntry → RemoteVersion → M (Option OperationResult)
  unfolding commit
  commit_floor_baseline key e v = do
    at ← date_now E
    commit (entry_for key (version_of e) (remote_side_of v) at)

  -- A snapshot is recorded at best; whether that worked changes nothing.
  unfoldable pub record_merge_base : String → LocalEntry → Option String → M (Unit {0})
  record_merge_base key version etag h =
      if E.has_merge_base then (ok tt, Event.record_base key version etag ∷ h) else (ok tt, h)

  unfoldable pub prune_result : String → Option String → Bool → M OperationResult
  prune_result key retired physical = do
    r ← attempt (state_delete_of E key)
    ret (elim r [
      | ok _ ↦ applied key none none retired physical
      | raised e ↦ unresolved key state_commit_failed none retired physical
    ])

  abbrev pub landing_unknown : String → Error → OperationResult
  landing_unknown key e = partial key remote_write_landing_unknown (some (E.message e)) none
