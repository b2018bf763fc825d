-- ===== src/Executor/Transfers.antt =====
-- `upload` and `catchUpLatestLocalUpload` of src/sync/executor.ts.
pub mod Baselines
use mineral_obsidian_sync.Base.{
  String, Bool, true, false, not, Option, none, some, if◌then◌else◌, is_truthy,
}
use mineral_obsidian_sync.Sync.Types.{LocalEntry, ExpectedRemote, RemoteVersion}
use mineral_obsidian_sync.Remote.Client.{
  Try, Error, remote_object_changed, local_file_changed, ok, raised, Bytes, PutOptions,
}
use mineral_obsidian_sync.Local.Reading.{
  matches, read_stable_local_bytes, read_current_stable_local_bytes,
}
use mineral_obsidian_sync.Executor.Result.{
  OperationResult, applied, stale, blocked, failed, partial, missing_remote_etag, local_changed,
  remote_applied_local_changed,
}
use mineral_obsidian_sync.Executor.Effects.{Env, M, ret, attempt, ◌>>=◌, ◌>>◌, adapter_stat}
use mineral_obsidian_sync.Executor.Steps.{
  upload_failure, landed, put_with_backup, commit_floor_baseline, record_merge_base,
}

-- `partial(known?)`
abbrev pub catch_up_partial : String → Option RemoteVersion → OperationResult
catch_up_partial key known = partial key remote_applied_local_changed none known

-- Which revision R2 holds when the catch-up did not complete.
abbrev pub known_after : Error → RemoteVersion → Option RemoteVersion
known_after remote_object_changed first = some first
known_after _ first = none

-- What a failed stable read means for an upload.
abbrev pub unreadable : Env → String → Error → OperationResult
unreadable E key local_file_changed = stale key local_changed
unreadable E key e = failed key (E.message e) none none

abbrev pub put_options : ExpectedRemote → PutOptions
put_options ExpectedRemote.absent = record { if_match = none; if_none_match = true }
put_options (ExpectedRemote.etag e) = record { if_match = e; if_none_match = false }

-- `expectedRemote.kind === "etag" && !expectedRemote.value`
abbrev pub lacks_etag : ExpectedRemote → Bool
lacks_etag ExpectedRemote.absent = false
lacks_etag (ExpectedRemote.etag e) = not (is_truthy e)

-- What a `catch` makes of a throw.
abbrev pub settle : (Error → OperationResult) → Try OperationResult → OperationResult
settle f (ok r) = r
settle f (raised e) = f e

module _ (E : Env) where
  -- The merge base of the pair just committed, and a last look at the file.
  after_floor :
      String
      → LocalEntry
      → RemoteVersion
      → M OperationResult
      → Option OperationResult
      → M OperationResult
  after_floor key version v moved_on (some refusal) = ret (landed refusal v)
  after_floor key version v moved_on none = do
    record_merge_base E key version v.etag
    s ← adapter_stat E key
    if matches s version then ret (applied key none (some v) none false) else moved_on

  -- After a PUT that landed: the floor baseline comes first.
  pub account_for : String → LocalEntry → RemoteVersion → M OperationResult → M OperationResult
  unfolding after_floor
  account_for key version v moved_on = do
    floor ← commit_floor_baseline E key version v
    after_floor key version v moved_on floor

  catch_up_put : String → RemoteVersion → Bytes × LocalEntry → M OperationResult
  unfolding account_for
  catch_up_put key first (bytes, version) = do
    r ← attempt (do
      v ← put_with_backup E key bytes (record { if_match = first.etag; if_none_match = false })
      account_for key version v (ret (catch_up_partial key (some v))))
    ret (settle (λ e. catch_up_partial key (known_after e first)) r)

  after_latest : String → RemoteVersion → Try (Bytes × LocalEntry) → M OperationResult
  unfolding catch_up_put
  after_latest key first (raised e) = ret (catch_up_partial key (some first))
  after_latest key first (ok found) = catch_up_put key first found

  unfoldable pub catch_up_latest_local_upload : String → RemoteVersion → M OperationResult
  unfolding after_latest
  catch_up_latest_local_upload key first = do
    latest ← attempt (read_current_stable_local_bytes E key)
    after_latest key first latest

  after_read : String → LocalEntry → ExpectedRemote → Try Bytes → M OperationResult
  unfolding account_for
  after_read key here expected (raised e) = ret (unreadable E key e)
  after_read key here expected (ok bytes) = do
    r ← attempt (do
      v ← put_with_backup E key bytes (put_options expected)
      account_for key here v (catch_up_latest_local_upload key v))
    ret (settle (λ e. upload_failure E "PutObject" key e) r)

  unfoldable pub upload : String → LocalEntry → ExpectedRemote → M OperationResult
  unfolding after_read
  upload key here expected =
      if lacks_etag expected
      then ret (blocked key missing_remote_etag)
      else (do read ← attempt (read_stable_local_bytes E here); after_read key here expected read)
