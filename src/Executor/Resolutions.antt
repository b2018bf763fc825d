-- ===== src/Executor/Resolutions.antt =====
-- The resolutions of src/sync/executor.ts.
pub mod Keeping
use mineral_obsidian_sync.Base.{
  String, Bool, true, false, not, ◌&&◌, Option, none, some, if◌then◌else◌, is_truthy, length,
}
use mineral_obsidian_sync.Sync.Types.{
  LocalEntry, ExpectedLocal, RemoteVersion, RemoteDeletionIdentity, MergedContent,
}
use mineral_obsidian_sync.Sync.Text.{encode_shape}
use mineral_obsidian_sync.Remote.Client.{other, Try, ok, raised, Bytes, PutOptions}
use mineral_obsidian_sync.Local.Reading.{read_stable_local_bytes}
use mineral_obsidian_sync.Local.Folders.{created, refused, ensure_parent_folders}
use mineral_obsidian_sync.Executor.Result.{
  OperationResult, applied, stale, blocked, failed, missing_remote_etag, local_changed,
  remote_changed, conflict_superseded, target_path_is_folder, target_missing,
}
use mineral_obsidian_sync.Executor.Effects.{
  Env, Stat, M, ret, attempt, ◌>>=◌, ◌>>◌, file_stat_of, get_file_by_path,
  get_abstract_file_by_path, modify_binary_of, create_binary_of, date_now,
}
use mineral_obsidian_sync.Executor.Steps.{
  upload_failure, read_failure, landed, local_still_matches, put_with_backup, get_if_match,
  verify_version, commit, entry_for, version_of, remote_side_of, record_merge_base, landing_unknown,
}
use mineral_obsidian_sync.Executor.Transfers.{account_for, catch_up_partial, unreadable}
use mineral_obsidian_sync.Executor.Downloads.{folder_error_text, entry_of}
use mineral_obsidian_sync.Executor.Deletes.{delete_local}

-- `{ version } | OperationResult`
pub data Written : Type 0 where
  wrote : Stat → Written
  ended : OperationResult → Written

-- `"kind" in operation.expectedLocal`
abbrev pub is_absent : ExpectedLocal → Bool
is_absent ExpectedLocal.absent = true
is_absent (ExpectedLocal.entry _) = false

abbrev pub keep_local_options : Option String → Bool → PutOptions
keep_local_options etag absent =
    if absent
    then record { if_match = none; if_none_match = true }
    else record { if_match = etag; if_none_match = false }

module _ (E : Env) where
  after_keep_put : String → LocalEntry → Try RemoteVersion → M OperationResult
  after_keep_put key here (raised e) = ret (upload_failure E "PutObject" key e)
  after_keep_put key here (ok v) = account_for E key here v (ret (catch_up_partial key (some v)))

  after_keep_read :
      String → LocalEntry → Option String → (absent : Bool) → Try Bytes → M OperationResult
  unfolding after_keep_put
  after_keep_read key here etag absent (raised e) = ret (unreadable E key e)
  after_keep_read key here etag absent (ok bytes) = do
    put ← attempt (put_with_backup E key bytes (keep_local_options etag absent))
    after_keep_put key here put

  unfoldable pub resolve_keep_local :
      String → LocalEntry → Option String → (absent : Bool) → M OperationResult
  unfolding after_keep_read
  resolve_keep_local key here etag absent =
      if not (is_truthy etag) && not absent then ret (blocked key missing_remote_etag) else (do
        still ← local_still_matches E key (ExpectedLocal.entry here)
        if still
            then (do
              read ← attempt (read_stable_local_bytes E here)
              after_keep_read key here etag absent read)
            else ret (stale key conflict_superseded))

  written_file : String → Try (Unit {0}) → M Written
  written_file key (raised e) = ret (ended (landing_unknown E key e))
  written_file key (ok _) = do
    s ← file_stat_of E key
    ret (elim s [
      | none ↦ ended (landing_unknown E key (other "Vault write did not produce a file"))
      | some v ↦ wrote v
    ])

  create_file : String → Bytes → M Written
  unfolding written_file
  create_file key bytes = do
    folders ← ensure_parent_folders E key
    elim folders [
      | refused reason _ error ↦ ret (ended (failed key error (some reason) none))
      | created _ ↦ do
        file ← get_file_by_path E key
        if file
            then ret (ended (stale key local_changed))
            else (do r ← attempt (create_binary_of E key bytes); written_file key r)
    ]

  unfoldable pub write_local : String → Bytes → (allow_create : Bool) → M Written
  unfolding create_file
  write_local key bytes allow_create = do
    file ← get_file_by_path E key
    if file then (do r ← attempt (modify_binary_of E key bytes); written_file key r) else (do
      taken ← get_abstract_file_by_path E key
      if taken
          then ret (ended (failed key (folder_error_text key) (some target_path_is_folder) none))
          else if allow_create
          then create_file key bytes
          else ret (
              ended (
                failed key "the conflicted local file no longer exists" (some target_missing)
                  none)))

  keep_remote_bytes : String → ExpectedLocal → String → Bytes → M OperationResult
  keep_remote_bytes key expected etag bytes = do
    w ← write_local key bytes (is_absent expected)
    elim w [
      | ended r ↦ ret r
      | wrote s ↦ do
        at ← date_now E
        let v : RemoteVersion = record {
          size = length bytes;
          etag = some etag;
          last_modified = none;
        }
        refusal ← commit E (entry_for E key (version_of E (entry_of key s)) (remote_side_of v) at)
        elim refusal [
          | some r ↦ ret r
          | none ↦ do
            record_merge_base E key (entry_of key s) (some etag)
            ret (applied key (some (entry_of key s)) none none false)
        ]
    ]

  keep_remote_version : String → ExpectedLocal → Option String → M OperationResult
  unfolding keep_remote_bytes
  keep_remote_version key expected none = ret (blocked key missing_remote_etag)
  keep_remote_version key expected (some etag) =
      if is_truthy (some etag)
      then (do
        still ← local_still_matches E key expected
        if still
            then (do
              got ← attempt (get_if_match E key etag)
              elim got [
                | raised e ↦ ret (read_failure E key (stale key remote_changed) e)
                | ok bytes ↦ do
                  again ← local_still_matches E key expected
                  if again
                      then keep_remote_bytes key expected etag bytes
                      else ret (stale key local_changed)
              ])
            else ret (stale key conflict_superseded))
      else ret (blocked key missing_remote_etag)

  unfoldable pub resolve_keep_remote : String → ExpectedLocal → Option String → M OperationResult
  unfolding keep_remote_version
  resolve_keep_remote key expected etag = keep_remote_version key expected etag

  -- The remote holds the merged content; the local file follows.
  merged_local : String → LocalEntry → Bytes → RemoteVersion → M OperationResult
  merged_local key here bytes v = do
    still ← local_still_matches E key (ExpectedLocal.entry here)
    if still
        then (do
          w ← write_local key bytes false
          elim w [
            | ended _ ↦ ret (catch_up_partial key (some v))
            | wrote s ↦ do
              at ← date_now E
              refusal ←
                  commit E (entry_for E key (version_of E (entry_of key s)) (remote_side_of v) at)
              elim refusal [
                | some r ↦ ret (landed r v)
                | none ↦ do
                  record_merge_base E key (entry_of key s) v.etag
                  ret (applied key (some (entry_of key s)) (some v) none false)
              ]
          ])
        else ret (catch_up_partial key none)

  unfoldable pub resolve_merged :
      String → LocalEntry → Option String → MergedContent → M OperationResult
  unfolding merged_local
  resolve_merged key here etag merged =
      if is_truthy etag
      then (do
        still ← local_still_matches E key (ExpectedLocal.entry here)
        let bytes = E.encode (encode_shape merged.content merged.encoding)
        if still
            then (do
              put ←
                  attempt (
                    put_with_backup E key bytes (record { if_match = etag; if_none_match = false }))
              elim put [
                | raised e ↦ ret (upload_failure E "PutObject" key e)
                | ok v ↦ merged_local key here bytes v
              ])
            else ret (stale key conflict_superseded))
      else ret (blocked key missing_remote_etag)

  unfoldable pub accept_remote_delete :
      String → LocalEntry → RemoteDeletionIdentity → M OperationResult
  accept_remote_delete key here deletion =
      if deletion.object_present
      then (do
        proved ← attempt (verify_version E key deletion.deleted_remote_etag)
        elim proved [
          | raised e ↦ ret (read_failure E key (stale key conflict_superseded) e)
          | ok _ ↦ delete_local E key here
        ])
      else delete_local E key here
