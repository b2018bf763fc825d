-- ===== src/Executor/Downloads.antt =====
-- `download` and `verifyWrittenContent` of src/sync/executor.ts.
pub mod Contents
use mineral_obsidian_sync.Base.{
  String, ◌<>◌, false, ◌&&◌, Option, none, some, if◌then◌else◌, is_truthy, str_eq,
}
use mineral_obsidian_sync.Sync.Types.{
  LocalEntry, ExpectedLocal, RemoteEntry, RemoteBaseline, LocalBaseline,
}
use mineral_obsidian_sync.Remote.Client.{Try, ok, raised, Bytes}
use mineral_obsidian_sync.Local.Reading.{matches}
use mineral_obsidian_sync.Local.Folders.{FoldersResult, created, refused, ensure_parent_folders}
use mineral_obsidian_sync.Executor.Result.{
  OperationResult, applied, stale, blocked, failed, partial, missing_remote_etag, local_changed,
  remote_changed, remote_write_landing_unknown, remote_write_raced_with_local_edit,
  target_path_is_folder,
}
use mineral_obsidian_sync.Executor.Effects.{
  Env, Stat, M, ret, attempt, ◌>>=◌, ◌>>◌, adapter_stat, file_stat_of, read_binary_of,
  get_file_by_path, get_abstract_file_by_path, modify_binary_of, create_binary_of, date_now,
}
use mineral_obsidian_sync.Executor.Steps.{
  read_failure, local_still_matches, get_if_match, commit, entry_for, record_merge_base,
  landing_unknown,
}

-- The answers of `verifyWrittenContent`.
pub data Verified : Type 0 where
  matched : Stat → (hash : String) → Verified
  unavailable mismatch : Verified

abbrev pub folder_error_text : String → String
folder_error_text key = "Vault path \"" <> key <> "\" is a folder, not a file"

-- `expectedRemote` as a baseline records it.
abbrev pub observed_side : RemoteEntry → RemoteBaseline
observed_side there = record {
  size = there.size;
  etag = there.etag;
  last_modified = some there.last_modified;
  hash = none;
}

abbrev pub entry_of : String → Stat → LocalEntry
entry_of key s = record { key = key; size = s.size; mtime = s.mtime }

module _ (E : Env) where
  -- The adapter's version of the file, or the one that the write left on the file itself.
  version : String → M (Option Stat)
  version key = do
    direct ← file_stat_of E key
    s ← attempt (adapter_stat E key)
    ret (elim s [ ok (some seen) ↦ some seen | _ ↦ direct ])

  abbrev judge : Stat → Option Stat → Bytes → Bytes → Verified
  judge before none expected actual = mismatch
  judge before (some after) expected actual =
      if matches (some after) (entry_of "" before) && str_eq (E.sha256 expected) (E.sha256 actual)
      then matched after (E.sha256 actual)
      else mismatch

  after_read_back : String → Bytes → Stat → Try Bytes → M Verified
  unfolding version matches
  after_read_back key expected before (raised e) = ret unavailable
  after_read_back key expected before (ok bytes) = do
    after ← version key
    ret (judge before after expected bytes)

  after_version : String → Bytes → Option Stat → M Verified
  unfolding after_read_back
  after_version key expected none = ret unavailable
  after_version key expected (some before) = do
    actual ← attempt (read_binary_of E key)
    after_read_back key expected before actual

  -- The written file is at hand: `createBinary` returned it, or `modifyBinary` took it.
  unfoldable pub verify_written_content : String → Bytes → M Verified
  unfolding version after_version
  verify_written_content key expected = do before ← version key; after_version key expected before

  -- The outcome of a write: nothing, or the result that ends the download.
  abbrev written : String → Try (Unit {0}) → Option OperationResult
  written key (ok _) = none
  written key (raised e) = some (landing_unknown E key e)

  after_folders : String → ExpectedLocal → Bytes → FoldersResult → M (Option OperationResult)
  after_folders key expected bytes (refused reason _ error) =
      ret (some (failed key error (some reason) none))
  after_folders key expected bytes (created _) = do
    still ← local_still_matches E key expected
    if still
        then (do r ← attempt (create_binary_of E key bytes); ret (written key r))
        else ret (some (stale key local_changed))

  create_target : String → ExpectedLocal → Bytes → M (Option OperationResult)
  unfolding after_folders
  create_target key expected bytes = do
    taken ← get_abstract_file_by_path E key
    if taken
        then ret (some (failed key (folder_error_text key) (some target_path_is_folder) none))
        else (do folders ← ensure_parent_folders E key; after_folders key expected bytes folders)

  write_target : String → ExpectedLocal → Bytes → M (Option OperationResult)
  unfolding create_target
  write_target key expected bytes = do
    file ← get_file_by_path E key
    if file
        then (do r ← attempt (modify_binary_of E key bytes); ret (written key r))
        else create_target key expected bytes

  abbrev hashed : Stat → String → LocalBaseline
  hashed s hash = record { size = s.size; mtime = s.mtime; hash = some hash }

  after_commit : String → RemoteEntry → Stat → Option OperationResult → M OperationResult
  after_commit key there s (some r) = ret r
  after_commit key there s none = do
    record_merge_base E key (entry_of key s) there.etag
    ret (applied key (some (entry_of key s)) none none false)

  after_verification : String → RemoteEntry → Verified → M OperationResult
  unfolding after_commit
  after_verification key there unavailable =
      ret (partial key remote_write_landing_unknown none none)
  after_verification key there mismatch =
      ret (partial key remote_write_raced_with_local_edit none none)
  after_verification key there (matched s hash) = do
    at ← date_now E
    refusal ← commit E (entry_for E key (hashed s hash) (observed_side there) at)
    after_commit key there s refusal

  -- Past the write.
  account_for_download : String → RemoteEntry → Bytes → M OperationResult
  unfolding verify_written_content after_verification
  account_for_download key there bytes = do
    v ← verify_written_content key bytes
    after_verification key there v

  abbrev settle_download : String → Try OperationResult → OperationResult
  settle_download key (ok r) = r
  settle_download key (raised e) = landing_unknown E key e

  after_write : String → RemoteEntry → Bytes → Try (Option OperationResult) → M OperationResult
  unfolding account_for_download
  after_write key there bytes (raised e) = ret (failed key (E.message e) none none)
  after_write key there bytes (ok (some r)) = ret r
  after_write key there bytes (ok none) = do
    done ← attempt (account_for_download key there bytes)
    ret (settle_download key done)

  -- The `try` block: a throw before the write is a failure, one after it is landing-unknown.
  place : String → ExpectedLocal → RemoteEntry → Bytes → M OperationResult
  unfolding write_target after_write
  place key expected there bytes = do
    wrote ← attempt (write_target key expected bytes)
    after_write key there bytes wrote

  after_fetch : String → ExpectedLocal → RemoteEntry → Try Bytes → M OperationResult
  unfolding place
  after_fetch key expected there (raised e) = ret (read_failure E key (stale key remote_changed) e)
  after_fetch key expected there (ok bytes) = do
    again ← local_still_matches E key expected
    if again then place key expected there bytes else ret (stale key local_changed)

  fetch_and_place : String → ExpectedLocal → RemoteEntry → String → M OperationResult
  unfolding after_fetch
  fetch_and_place key expected there etag = do
    got ← attempt (get_if_match E key etag)
    after_fetch key expected there got

  -- `download` from its ETag on.
  download_version : String → ExpectedLocal → RemoteEntry → Option String → M OperationResult
  unfolding fetch_and_place
  download_version key expected there none = ret (blocked key missing_remote_etag)
  download_version key expected there (some etag) =
      if is_truthy (some etag)
      then (do
        still ← local_still_matches E key expected
        if still then fetch_and_place key expected there etag else ret (stale key local_changed))
      else ret (blocked key missing_remote_etag)

  unfoldable pub download : String → ExpectedLocal → RemoteEntry → M OperationResult
  unfolding download_version
  download key expected there = download_version key expected there there.etag
