-- ===== src/Tests/Runs.antt =====
-- Runs of the operations of src/sync/executor.ts against a concrete environment.
use mineral_obsidian_sync.Base.{
  String, Bool, true, false, ◌≡◌, refl, Option, none, some, List, [], ◌∷◌,
}
use mineral_obsidian_sync.Sync.Types.{LocalEntry, ExpectedLocal, ExpectedRemote, RemoteEntry}
use mineral_obsidian_sync.Remote.Client.{
  Try, ok, Response, put_object, get_object, verify_object_version,
}
use mineral_obsidian_sync.Executor.Result.{OperationResult, applied}
use mineral_obsidian_sync.Executor.Effects.{Env, Event, History, deleted, ◌>>=◌, attempt, ret}
use mineral_obsidian_sync.Executor.Steps.{
  put_with_backup, lift, commit_floor_baseline, record_merge_base, local_still_matches,
  get_if_match, commit, prune_result, verify_version,
}
use mineral_obsidian_sync.Local.Reading.{read_stable_local_bytes}
use mineral_obsidian_sync.Executor.Triples.{Traced}
use mineral_obsidian_sync.Executor.Transfers.{upload}
use mineral_obsidian_sync.Executor.Transfers.Baselines.{UploadRule, upload-Traced}
use mineral_obsidian_sync.Executor.Downloads.{download, verify_written_content}
use mineral_obsidian_sync.Executor.Downloads.Contents.{DownloadRule}
use mineral_obsidian_sync.Executor.Downloads.Contents.Accounts.{download-Traced}
use mineral_obsidian_sync.Executor.Deletes.{delete_local, delete_remote, execute_remote_deletes}
use mineral_obsidian_sync.Executor.Deletes.Trash.{DeleteLocalRule, delete_local-Traced}
use mineral_obsidian_sync.Executor.Deletes.Remote.{DeleteRemoteRule}
use mineral_obsidian_sync.Executor.Deletes.Remote.Single.{
  delete_remote-Traced, execute_remote_deletes-Traced,
}

abbrev done : Try (Unit {0})
done = ok tt

abbrev answer_200 : Response
answer_200 = record { status = 200; etag = some "e2"; body = 1 ∷ 2 ∷ 3 ∷ [] }

-- The file is there until it is trashed.
abbrev trashed : History → Bool
trashed [] = false
trashed (Event.trash k r ∷ h) = true
trashed (e ∷ h) = trashed h

abbrev there_until_trashed : History → Bool
there_until_trashed h = elim (trashed h) [ true ↦ false | false ↦ true ]

-- Everything works, and nobody else edits anything; `port` says whether the recovery library is there.
abbrev calm : Bool → Env
calm port = record {
  identity = record { endpoint = "https://r2"; bucket = "b"; remote_prefix = "v/" };
  ignore_policy = "p1";
  has_remover = true;
  has_merge_base = true;
  has_recovery_port = port;
  has_tombstones = true;
  direct_deletion = false;
  sha256 = λ b. "same";
  message = λ e. "message";
  folder_error = λ e. "folder";
  show_status = λ n. "status";
  encode = λ s. [];
  file_at = λ h k. there_until_trashed h;
  entry_at = λ h k. true;
  stat = λ h k. ok (some (record { size = 3; mtime = 10 }));
  file_stat = λ h k. some (record { size = 3; mtime = 10 });
  read_binary = λ h k. ok (1 ∷ 2 ∷ 3 ∷ []);
  modify_binary = λ h k b. done;
  create_binary = λ h k b. done;
  create_folder = λ h k. done;
  mkdir = λ h k. done;
  exists = λ h k. ok true;
  trash = λ h k. done;
  get_object = λ h k e. ok answer_200;
  head_object = λ h k e. ok answer_200;
  put_object = λ h k b o. ok answer_200;
  put_tombstone = λ h k e. done;
  backup = λ h k e. done;
  confirm_delete = λ h k. ok true;
  delete_file = λ h k e. ok deleted;
  delete_files = λ h fs. ok [];
  state_put = λ h p. done;
  state_delete = λ h k. done;
  now = λ h. 100;
}

abbrev local_note : LocalEntry
local_note = record { key = "a.md"; size = 3; mtime = 10 }

abbrev remote_note : RemoteEntry
remote_note = record { key = "a.md"; size = 3; etag = some "e1"; last_modified = 7; deleted = none }

upload-Traced_example :
    Traced
      (UploadRule "a.md")
      (upload (calm true) "a.md" local_note (ExpectedRemote.etag (some "e1")) []).1
upload-Traced_example =
    upload-Traced (calm true) "a.md" local_note (ExpectedRemote.etag (some "e1"))

download-Traced_example :
    Traced
      (DownloadRule (calm true) "a.md" "e1" (ExpectedLocal.entry local_note) remote_note)
      (download (calm true) "a.md" (ExpectedLocal.entry local_note) remote_note []).1
download-Traced_example =
    download-Traced (calm true) "a.md" "e1" (ExpectedLocal.entry local_note) remote_note refl

delete_local-Traced_example :
    Traced (DeleteLocalRule "a.md" local_note) (delete_local (calm true) "a.md" local_note []).1
delete_local-Traced_example = delete_local-Traced (calm true) "a.md" local_note

delete_remote-Traced_example :
    Traced
      (DeleteRemoteRule (("a.md", some "e1") ∷ []))
      (delete_remote (calm false) "a.md" (some "e1") []).1
delete_remote-Traced_example = delete_remote-Traced (calm false) "a.md" (some "e1")

abbrev two_deletions : List (String × Option String)
two_deletions = ("a.md", some "e1") ∷ ("b.md", some "e3") ∷ []

execute_remote_deletes-Traced_example :
    Traced (DeleteRemoteRule two_deletions) (execute_remote_deletes (calm true) two_deletions []).1
execute_remote_deletes-Traced_example = execute_remote_deletes-Traced (calm true) two_deletions

-- The runs end with a result that stands for success.
abbrev succeeds : Try OperationResult → Bool
succeeds (ok (applied _ _ _ _ _)) = true
succeeds _ = false

abbrev finish : {A : Type 0} → Try A × History → Try A
finish (r, h) = r

upload_run :
    succeeds (finish (upload (calm true) "a.md" local_note (ExpectedRemote.etag (some "e1")) []))
    ≡ true
unfolding upload ◌>>=◌ attempt ret read_stable_local_bytes put_with_backup lift put_object
    commit_floor_baseline record_merge_base
upload_run = refl

download_run :
    succeeds (finish (download (calm true) "a.md" (ExpectedLocal.entry local_note) remote_note []))
    ≡ true
unfolding download ◌>>=◌ attempt ret lift local_still_matches get_if_match get_object
    verify_written_content commit record_merge_base
download_run = refl

delete_local_run : succeeds (finish (delete_local (calm true) "a.md" local_note [])) ≡ true
unfolding delete_local ◌>>=◌ attempt ret local_still_matches prune_result
delete_local_run = refl

delete_remote_run : succeeds (finish (delete_remote (calm false) "a.md" (some "e1") [])) ≡ true
unfolding delete_remote ◌>>=◌ attempt ret lift verify_version verify_object_version prune_result
delete_remote_run = refl
