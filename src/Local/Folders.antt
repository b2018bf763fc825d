-- ===== src/Local/Folders.antt =====
-- src/local/ensure-folders.ts: the missing parent folders of a file, one level at a time.
use Prim.Native.Char.{code}
pub mod Quiet
use mineral_obsidian_sync.Base.{
  String, ◌<>◌, Bool, true, false, ◌||◌, Option, none, some, ◌==◌, if◌then◌else◌, List, [], ◌∷◌,
  ◌++◌, is_nonempty, keep,
}
use mineral_obsidian_sync.Remote.Client.{Error, Try, ok, raised}
use mineral_obsidian_sync.Executor.Result.{FailureReason, parent_path_is_file, folder_create_failed}
use mineral_obsidian_sync.Executor.Effects.{
  Env, M, ret, attempt, ◌>>=◌, get_file_by_path, get_abstract_file_by_path, exists_of,
  create_folder_of, mkdir_of,
}

pub data FoldersResult : Type 0 where
  created : List String → FoldersResult
  refused : FailureReason → (path error : String) → FoldersResult

prepend : (first : String) → List String → List String
prepend first [] = first ∷ []
prepend first (s ∷ rest) = (first <> s) ∷ rest

-- `text.split("/")`
unfoldable pub split_slash : String → List String
unfolding prepend
split_slash String.[] = "" ∷ []
split_slash (String.◌∷◌ c s) =
    let rest = split_slash s in
    if code c == 47 then "" ∷ rest else prepend (String.◌∷◌ c String.[]) rest

-- `segments.pop()`
drop_last : List String → List String
drop_last [] = []
drop_last (s ∷ []) = []
drop_last (s ∷ t ∷ rest) = s ∷ drop_last (t ∷ rest)

unfoldable pub parent_segments : String → List String
unfolding split_slash drop_last
parent_segments path = drop_last (keep is_nonempty (split_slash path))

abbrev is_file_error : String → String
is_file_error path = "Vault path \"" <> path <> "\" is a file, not a folder"

module _ (E : Env) where
  -- Any Vault entry, folder or file.
  unfoldable pub occupied : String → M Bool
  occupied path = do
    file ← get_file_by_path E path
    if file then ret true else get_abstract_file_by_path E path

  adapter_exists : String → M Bool
  adapter_exists path = do
    there ← attempt (exists_of E path)
    ret (elim there [ ok b ↦ b | raised e ↦ false ])

  present : String → M Bool
  unfolding occupied adapter_exists
  present path = do known ← occupied path; if known then ret true else adapter_exists path

  -- `failure ??= error`
  abbrev failure_of : Try (Unit {0}) → Option Error → Option Error
  failure_of r (some e) = some e
  failure_of (ok _) none = none
  failure_of (raised e) none = some e

  abbrev worked : Try (Unit {0}) → Bool
  worked (ok _) = true
  worked (raised e) = false

  abbrev noted : Bool → String → List String → List String
  noted made path done = if made then done ++ (path ∷ []) else done

  -- What one round of the loop leaves: the folders created so far, or the refusal.
  -- From the fallback on: the adapter creates the same segment.
  make_by_adapter : String → Try (Unit {0}) → List String → M FoldersResult
  unfolding present
  make_by_adapter path first done = do
    second ← attempt (mkdir_of E path)
    file ← get_file_by_path E path
    if file then ret (refused parent_path_is_file path (is_file_error path)) else (do
      there ← present path
      if there
          then ret (created (noted (worked first || worked second) path done))
          else ret (
              refused folder_create_failed path (
                "could not create the Vault folder \""
                <> path
                <> "\": "
                <> E.folder_error (failure_of second (failure_of first none)))))

  make_folder : String → List String → M FoldersResult
  unfolding make_by_adapter
  make_folder path done = do
    first ← attempt (create_folder_of E path)
    file ← get_file_by_path E path
    if file then ret (refused parent_path_is_file path (is_file_error path)) else (do
      there ← present path
      if there
          then ret (created (noted (worked first) path done))
          else make_by_adapter path first done)

  ensure_segment : String → List String → M FoldersResult
  unfolding make_folder
  ensure_segment path done = do
    file ← get_file_by_path E path
    if file
        then ret (refused parent_path_is_file path (is_file_error path))
        else (do known ← occupied path; if known then ret (created done) else make_folder path done)

  abbrev below : String → String → String
  below current segment = if is_nonempty current then current <> "/" <> segment else segment

  -- A refusal ends the loop.
  abbrev onwards : (List String → M FoldersResult) → FoldersResult → M FoldersResult
  onwards next (refused reason path error) = ret (refused reason path error)
  onwards next (created done) = next done

  unfoldable pub ensure_segments : String → List String → List String → M FoldersResult
  unfolding ensure_segment
  ensure_segments current [] done = ret (created done)
  ensure_segments current (segment ∷ rest) done = do
    made ← ensure_segment (below current segment) done
    onwards (ensure_segments (below current segment) rest) made

  unfoldable pub ensure_parent_folders : String → M FoldersResult
  unfolding ensure_segments parent_segments
  ensure_parent_folders path = ensure_segments "" (parent_segments path) []
