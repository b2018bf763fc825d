-- ===== src/Local/Reading.antt =====
-- src/local/read-local.ts: reads that are valid for one version of a file only.
pub mod Stable
use mineral_obsidian_sync.Base.{
  String, Bool, true, false, ◌&&◌, Option, none, some, ◌==◌, if◌then◌else◌,
}
use mineral_obsidian_sync.Sync.Types.{LocalEntry}
use mineral_obsidian_sync.Remote.Client.{local_file_changed, Bytes}
use mineral_obsidian_sync.Executor.Effects.{
  Env, Stat, M, ret, throw, ◌>>=◌, adapter_stat, get_file_by_path, read_binary_of,
}

-- `matches`, and `same` of src/sync/executor.ts.
unfoldable pub matches : Option Stat → LocalEntry → Bool
matches none expected = false
matches (some s) expected = s.size == expected.size && s.mtime == expected.mtime

module _ (E : Env) where
  -- The second half: the read, and the same version after it.
  read_unchanged : LocalEntry → M Bytes
  unfolding matches
  read_unchanged expected = do
    bytes ← read_binary_of E expected.key
    after ← adapter_stat E expected.key
    if matches after expected then ret bytes else throw local_file_changed

  unfoldable pub read_stable_local_bytes : LocalEntry → M Bytes
  unfolding read_unchanged
  read_stable_local_bytes expected = do
    file ← get_file_by_path E expected.key
    if file
        then (do
          before ← adapter_stat E expected.key
          if matches before expected then read_unchanged expected else throw local_file_changed)
        else throw local_file_changed

  -- `readCurrentStableLocalBytes` from the file and the first `stat` on.
  read_version : String → Bool → Option Stat → M (Bytes × LocalEntry)
  read_version key file none = throw local_file_changed
  read_version key false (some before) = throw local_file_changed
  read_version key true (some before) = do
    let version : LocalEntry = record { key = key; size = before.size; mtime = before.mtime }
    bytes ← read_binary_of E key
    after ← adapter_stat E key
    if matches after version then ret (bytes, version) else throw local_file_changed

  unfoldable pub read_current_stable_local_bytes : String → M (Bytes × LocalEntry)
  unfolding read_version matches
  read_current_stable_local_bytes key = do
    file ← get_file_by_path E key
    before ← adapter_stat E key
    read_version key file before
