-- ===== src/Executor/Effects.antt =====
-- The calls that src/sync/executor.ts makes of the Vault, of R2, of the baseline store and of the
-- recovery library, as a log of calls with their answers. The answers come from an environment that
-- may depend on the whole log: so it may change files and objects between any two calls.
use mineral_obsidian_sync.Base.{ℕ, String, Bool, Option, List, ◌∷◌}
use mineral_obsidian_sync.Sync.Types.{LocalEntry, PreviousEntry, RemoteIdentity}
use mineral_obsidian_sync.Remote.Client.{Error, Try, ok, raised, Bytes, Response, PutOptions}

-- `stat` of a file.
pub record Stat : Type 0 where
  pub size : ℕ
  pub mtime : ℕ

-- The state in which the recovery library leaves a physical deletion.
pub data DeleteState : Type 0 where
  deleted conflicted pending : DeleteState

-- What the recovery library answers for one path of a batch.
pub record DeleteOutcome : Type 0 where
  pub path : String
  pub state : DeleteState
  pub error : Option String

-- One call and its answer.
pub data Event : Type 0 where
  file_at : String → Bool → Event
  entry_at : String → Bool → Event
  stat : String → Try (Option Stat) → Event
  file_stat : String → Option Stat → Event
  read_binary : String → Try Bytes → Event
  modify_binary : String → Bytes → Try (Unit {0}) → Event
  create_binary : String → Bytes → Try (Unit {0}) → Event
  create_folder : String → Try (Unit {0}) → Event
  mkdir : String → Try (Unit {0}) → Event
  exists : String → Try Bool → Event
  trash : String → Try (Unit {0}) → Event
  get_object : String → (if_match : String) → Try Response → Event
  head_object : String → (if_match : String) → Try Response → Event
  put_object : String → Bytes → PutOptions → Try Response → Event
  put_tombstone : String → (etag : String) → Try (Unit {0}) → Event
  backup : String → (etag : String) → Try (Unit {0}) → Event
  confirm_delete : String → Try Bool → Event
  delete_file : String → (etag : String) → Try DeleteState → Event
  delete_files : List (String × String) → Try (List DeleteOutcome) → Event
  recovery_changed : Event
  state_put : PreviousEntry → Try (Unit {0}) → Event
  state_delete : String → Try (Unit {0}) → Event
  record_base : String → LocalEntry → (etag : Option String) → Event
  now : ℕ → Event

-- Newest first.
abbrev pub History : Type 0
History = List Event

-- What the executor is constructed with, and the answers that it is given.
pub record Env : Type 0 where
  pub identity : RemoteIdentity
  pub ignore_policy : String
  pub has_remover : Bool
  pub has_merge_base : Bool
  pub has_recovery_port : Bool
  pub has_tombstones : Bool
  pub direct_deletion : Bool
  pub sha256 : Bytes → String
  pub message : Error → String
  pub folder_error : Option Error → String
  pub show_status : ℕ → String
  pub encode : String → Bytes
  pub file_at : History → String → Bool
  pub entry_at : History → String → Bool
  pub stat : History → String → Try (Option Stat)
  pub file_stat : History → String → Option Stat
  pub read_binary : History → String → Try Bytes
  pub modify_binary : History → String → Bytes → Try (Unit {0})
  pub create_binary : History → String → Bytes → Try (Unit {0})
  pub create_folder : History → String → Try (Unit {0})
  pub mkdir : History → String → Try (Unit {0})
  pub exists : History → String → Try Bool
  pub trash : History → String → Try (Unit {0})
  pub get_object : History → String → String → Try Response
  pub head_object : History → String → String → Try Response
  pub put_object : History → String → Bytes → PutOptions → Try Response
  pub put_tombstone : History → String → String → Try (Unit {0})
  pub backup : History → String → String → Try (Unit {0})
  pub confirm_delete : History → String → Try Bool
  pub delete_file : History → String → String → Try DeleteState
  pub delete_files : History → List (String × String) → Try (List DeleteOutcome)
  pub state_put : History → PreviousEntry → Try (Unit {0})
  pub state_delete : History → String → Try (Unit {0})
  pub now : History → ℕ

-- An `async` function: it returns or throws, and the log grows.
abbrev pub M {ℓ} : Type ℓ → Type ℓ
M A = History → Try A × History

unfoldable pub ret {ℓ} : {A : Type ℓ} → A → M A
ret a h = (ok a, h)

unfoldable pub throw {ℓ} : {A : Type ℓ} → Error → M A
throw e h = (raised e, h)

abbrev pub proceed {ℓ κ} : {A : Type ℓ} {B : Type κ} → Try A × History → (A → M B) → Try B × History
proceed (ok a, h) f = f a h
proceed (raised e, h) f = (raised e, h)

infixl 5 ◌>>=◌ ◌>>◌
unfoldable pub ◌>>=◌ {ℓ κ} : {A : Type ℓ} {B : Type κ} → M A → (A → M B) → M B
◌>>=◌ m f h = proceed (m h) f

abbrev pub ◌>>◌ {ℓ} : {B : Type ℓ} → M (Unit {0}) → M B → M B
m >> k = m >>= λ _. k

-- `try { m } catch`: the outcome as a value.
unfoldable pub attempt {ℓ} : {A : Type ℓ} → M A → M (Try A)
attempt m h = let (r, h') = m h in (ok r, h')

-- A call whose answer may be a throw.
abbrev pub answer {ℓ} : {A : Type ℓ} → Try A → Event → M A
answer r e h = (r, e ∷ h)

module _ (E : Env) where
  abbrev pub get_file_by_path : String → M Bool
  get_file_by_path k h = let a = E.file_at h k in (ok a, Event.file_at k a ∷ h)

  abbrev pub get_abstract_file_by_path : String → M Bool
  get_abstract_file_by_path k h = let a = E.entry_at h k in (ok a, Event.entry_at k a ∷ h)

  abbrev pub adapter_stat : String → M (Option Stat)
  adapter_stat k h = let a = E.stat h k in answer a (Event.stat k a) h

  abbrev pub file_stat_of : String → M (Option Stat)
  file_stat_of k h = let a = E.file_stat h k in (ok a, Event.file_stat k a ∷ h)

  abbrev pub read_binary_of : String → M Bytes
  read_binary_of k h = let a = E.read_binary h k in answer a (Event.read_binary k a) h

  abbrev pub modify_binary_of : String → Bytes → M (Unit {0})
  modify_binary_of k b h = let a = E.modify_binary h k b in answer a (Event.modify_binary k b a) h

  abbrev pub create_binary_of : String → Bytes → M (Unit {0})
  create_binary_of k b h = let a = E.create_binary h k b in answer a (Event.create_binary k b a) h

  abbrev pub create_folder_of : String → M (Unit {0})
  create_folder_of k h = let a = E.create_folder h k in answer a (Event.create_folder k a) h

  abbrev pub mkdir_of : String → M (Unit {0})
  mkdir_of k h = let a = E.mkdir h k in answer a (Event.mkdir k a) h

  abbrev pub exists_of : String → M Bool
  exists_of k h = let a = E.exists h k in answer a (Event.exists k a) h

  abbrev pub trash_of : String → M (Unit {0})
  trash_of k h = let a = E.trash h k in answer a (Event.trash k a) h

  abbrev pub send_get : String → String → M Response
  send_get k etag h = let a = E.get_object h k etag in answer a (Event.get_object k etag a) h

  abbrev pub send_head : String → String → M Response
  send_head k etag h = let a = E.head_object h k etag in answer a (Event.head_object k etag a) h

  abbrev pub send_put : String → Bytes → PutOptions → M Response
  send_put k b o h = let a = E.put_object h k b o in answer a (Event.put_object k b o a) h

  abbrev pub send_tombstone : String → String → M (Unit {0})
  send_tombstone k etag h =
      let a = E.put_tombstone h k etag in answer a (Event.put_tombstone k etag a) h

  abbrev pub backup_of : String → String → M (Unit {0})
  backup_of k etag h = let a = E.backup h k etag in answer a (Event.backup k etag a) h

  abbrev pub confirm_delete_of : String → M Bool
  confirm_delete_of k h = let a = E.confirm_delete h k in answer a (Event.confirm_delete k a) h

  abbrev pub delete_file_of : String → String → M DeleteState
  delete_file_of k etag h =
      let a = E.delete_file h k etag in answer a (Event.delete_file k etag a) h

  -- Paths with the ETags that the plan expects of them.
  abbrev pub delete_files_of : List (String × String) → M (List DeleteOutcome)
  delete_files_of files h =
      let a = E.delete_files h files in answer a (Event.delete_files files a) h

  abbrev pub note_recovery_changed : M (Unit {0})
  note_recovery_changed h = (ok tt, Event.recovery_changed ∷ h)

  abbrev pub state_put_of : PreviousEntry → M (Unit {0})
  state_put_of p h = let a = E.state_put h p in answer a (Event.state_put p a) h

  abbrev pub state_delete_of : String → M (Unit {0})
  state_delete_of k h = let a = E.state_delete h k in answer a (Event.state_delete k a) h

  abbrev pub date_now : M ℕ
  date_now h = let a = E.now h in (ok a, Event.now a ∷ h)
