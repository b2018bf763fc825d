-- ===== src/Executor/Calls.antt =====
-- The rule for each call that src/sync/executor.ts makes: what may be called, and what an answer tells.
use mineral_obsidian_sync.Base.{ℕ, String, Bool, Option, List, ◌∷◌}
use mineral_obsidian_sync.Sync.Types.{PreviousEntry}
use mineral_obsidian_sync.Remote.Client.{Try, ok, Bytes, Response, PutOptions}
use mineral_obsidian_sync.Executor.Effects.{
  Env, Event, History, Stat, DeleteState, DeleteOutcome, date_now, note_recovery_changed,
  get_file_by_path, get_abstract_file_by_path, adapter_stat, file_stat_of, read_binary_of,
  modify_binary_of, create_binary_of, create_folder_of, mkdir_of, exists_of, trash_of, send_get,
  send_head, send_put, send_tombstone, backup_of, confirm_delete_of, delete_file_of,
  delete_files_of, state_put_of, state_delete_of,
}
use mineral_obsidian_sync.Executor.Triples.{Keeps, call-Keeps, plain-Keeps}

module _ (E : Env) {P : Event → History → Type 0} {Pre : History → Type 0} where
  pub file_at-Keeps :
      (k : String) {Q : Bool → History → Type 0}
      → ((a : Bool) (h : History) → Pre h → P (Event.file_at k a) h)
      → ((a : Bool) (h : History) → Pre h → Q a (Event.file_at k a ∷ h))
      → Keeps P Pre (get_file_by_path E k) Q
  file_at-Keeps k = plain-Keeps (λ h. E.file_at h k) (Event.file_at k)

  pub entry_at-Keeps :
      (k : String) {Q : Bool → History → Type 0}
      → ((a : Bool) (h : History) → Pre h → P (Event.entry_at k a) h)
      → ((a : Bool) (h : History) → Pre h → Q a (Event.entry_at k a ∷ h))
      → Keeps P Pre (get_abstract_file_by_path E k) Q
  entry_at-Keeps k = plain-Keeps (λ h. E.entry_at h k) (Event.entry_at k)

  pub stat-Keeps :
      (k : String) {Q : Option Stat → History → Type 0}
      → ((r : Try (Option Stat)) (h : History) → Pre h → P (Event.stat k r) h)
      → ((a : Option Stat) (h : History) → Pre h → Q a (Event.stat k (ok a) ∷ h))
      → Keeps P Pre (adapter_stat E k) Q
  stat-Keeps k = call-Keeps (λ h. E.stat h k) (Event.stat k)

  pub file_stat-Keeps :
      (k : String) {Q : Option Stat → History → Type 0}
      → ((a : Option Stat) (h : History) → Pre h → P (Event.file_stat k a) h)
      → ((a : Option Stat) (h : History) → Pre h → Q a (Event.file_stat k a ∷ h))
      → Keeps P Pre (file_stat_of E k) Q
  file_stat-Keeps k = plain-Keeps (λ h. E.file_stat h k) (Event.file_stat k)

  pub read_binary-Keeps :
      (k : String) {Q : Bytes → History → Type 0}
      → ((r : Try (Bytes)) (h : History) → Pre h → P (Event.read_binary k r) h)
      → ((a : Bytes) (h : History) → Pre h → Q a (Event.read_binary k (ok a) ∷ h))
      → Keeps P Pre (read_binary_of E k) Q
  read_binary-Keeps k = call-Keeps (λ h. E.read_binary h k) (Event.read_binary k)

  pub modify_binary-Keeps :
      (k : String) (b : Bytes) {Q : Unit {0} → History → Type 0}
      → ((r : Try (Unit {0})) (h : History) → Pre h → P (Event.modify_binary k b r) h)
      → ((a : Unit {0}) (h : History) → Pre h → Q a (Event.modify_binary k b (ok a) ∷ h))
      → Keeps P Pre (modify_binary_of E k b) Q
  modify_binary-Keeps k b = call-Keeps (λ h. E.modify_binary h k b) (Event.modify_binary k b)

  pub create_binary-Keeps :
      (k : String) (b : Bytes) {Q : Unit {0} → History → Type 0}
      → ((r : Try (Unit {0})) (h : History) → Pre h → P (Event.create_binary k b r) h)
      → ((a : Unit {0}) (h : History) → Pre h → Q a (Event.create_binary k b (ok a) ∷ h))
      → Keeps P Pre (create_binary_of E k b) Q
  create_binary-Keeps k b = call-Keeps (λ h. E.create_binary h k b) (Event.create_binary k b)

  pub create_folder-Keeps :
      (k : String) {Q : Unit {0} → History → Type 0}
      → ((r : Try (Unit {0})) (h : History) → Pre h → P (Event.create_folder k r) h)
      → ((a : Unit {0}) (h : History) → Pre h → Q a (Event.create_folder k (ok a) ∷ h))
      → Keeps P Pre (create_folder_of E k) Q
  create_folder-Keeps k = call-Keeps (λ h. E.create_folder h k) (Event.create_folder k)

  pub mkdir-Keeps :
      (k : String) {Q : Unit {0} → History → Type 0}
      → ((r : Try (Unit {0})) (h : History) → Pre h → P (Event.mkdir k r) h)
      → ((a : Unit {0}) (h : History) → Pre h → Q a (Event.mkdir k (ok a) ∷ h))
      → Keeps P Pre (mkdir_of E k) Q
  mkdir-Keeps k = call-Keeps (λ h. E.mkdir h k) (Event.mkdir k)

  pub exists-Keeps :
      (k : String) {Q : Bool → History → Type 0}
      → ((r : Try (Bool)) (h : History) → Pre h → P (Event.exists k r) h)
      → ((a : Bool) (h : History) → Pre h → Q a (Event.exists k (ok a) ∷ h))
      → Keeps P Pre (exists_of E k) Q
  exists-Keeps k = call-Keeps (λ h. E.exists h k) (Event.exists k)

  pub trash-Keeps :
      (k : String) {Q : Unit {0} → History → Type 0}
      → ((r : Try (Unit {0})) (h : History) → Pre h → P (Event.trash k r) h)
      → ((a : Unit {0}) (h : History) → Pre h → Q a (Event.trash k (ok a) ∷ h))
      → Keeps P Pre (trash_of E k) Q
  trash-Keeps k = call-Keeps (λ h. E.trash h k) (Event.trash k)

  pub get-Keeps :
      (k etag : String) {Q : Response → History → Type 0}
      → ((r : Try (Response)) (h : History) → Pre h → P (Event.get_object k etag r) h)
      → ((a : Response) (h : History) → Pre h → Q a (Event.get_object k etag (ok a) ∷ h))
      → Keeps P Pre (send_get E k etag) Q
  get-Keeps k etag = call-Keeps (λ h. E.get_object h k etag) (Event.get_object k etag)

  pub head-Keeps :
      (k etag : String) {Q : Response → History → Type 0}
      → ((r : Try (Response)) (h : History) → Pre h → P (Event.head_object k etag r) h)
      → ((a : Response) (h : History) → Pre h → Q a (Event.head_object k etag (ok a) ∷ h))
      → Keeps P Pre (send_head E k etag) Q
  head-Keeps k etag = call-Keeps (λ h. E.head_object h k etag) (Event.head_object k etag)

  pub put-Keeps :
      (k : String) (b : Bytes) (o : PutOptions) {Q : Response → History → Type 0}
      → ((r : Try (Response)) (h : History) → Pre h → P (Event.put_object k b o r) h)
      → ((a : Response) (h : History) → Pre h → Q a (Event.put_object k b o (ok a) ∷ h))
      → Keeps P Pre (send_put E k b o) Q
  put-Keeps k b o = call-Keeps (λ h. E.put_object h k b o) (Event.put_object k b o)

  pub tombstone-Keeps :
      (k etag : String) {Q : Unit {0} → History → Type 0}
      → ((r : Try (Unit {0})) (h : History) → Pre h → P (Event.put_tombstone k etag r) h)
      → ((a : Unit {0}) (h : History) → Pre h → Q a (Event.put_tombstone k etag (ok a) ∷ h))
      → Keeps P Pre (send_tombstone E k etag) Q
  tombstone-Keeps k etag = call-Keeps (λ h. E.put_tombstone h k etag) (Event.put_tombstone k etag)

  pub backup-Keeps :
      (k etag : String) {Q : Unit {0} → History → Type 0}
      → ((r : Try (Unit {0})) (h : History) → Pre h → P (Event.backup k etag r) h)
      → ((a : Unit {0}) (h : History) → Pre h → Q a (Event.backup k etag (ok a) ∷ h))
      → Keeps P Pre (backup_of E k etag) Q
  backup-Keeps k etag = call-Keeps (λ h. E.backup h k etag) (Event.backup k etag)

  pub confirm-Keeps :
      (k : String) {Q : Bool → History → Type 0}
      → ((r : Try (Bool)) (h : History) → Pre h → P (Event.confirm_delete k r) h)
      → ((a : Bool) (h : History) → Pre h → Q a (Event.confirm_delete k (ok a) ∷ h))
      → Keeps P Pre (confirm_delete_of E k) Q
  confirm-Keeps k = call-Keeps (λ h. E.confirm_delete h k) (Event.confirm_delete k)

  pub delete_file-Keeps :
      (k etag : String) {Q : DeleteState → History → Type 0}
      → ((r : Try (DeleteState)) (h : History) → Pre h → P (Event.delete_file k etag r) h)
      → ((a : DeleteState) (h : History) → Pre h → Q a (Event.delete_file k etag (ok a) ∷ h))
      → Keeps P Pre (delete_file_of E k etag) Q
  delete_file-Keeps k etag = call-Keeps (λ h. E.delete_file h k etag) (Event.delete_file k etag)

  pub delete_files-Keeps :
      (fs : List (String × String)) {Q : List DeleteOutcome → History → Type 0}
      → ((r : Try (List DeleteOutcome)) (h : History) → Pre h → P (Event.delete_files fs r) h)
      → ((a : List DeleteOutcome) (h : History) → Pre h → Q a (Event.delete_files fs (ok a) ∷ h))
      → Keeps P Pre (delete_files_of E fs) Q
  delete_files-Keeps fs = call-Keeps (λ h. E.delete_files h fs) (Event.delete_files fs)

  pub state_put-Keeps :
      (p : PreviousEntry) {Q : Unit {0} → History → Type 0}
      → ((r : Try (Unit {0})) (h : History) → Pre h → P (Event.state_put p r) h)
      → ((a : Unit {0}) (h : History) → Pre h → Q a (Event.state_put p (ok a) ∷ h))
      → Keeps P Pre (state_put_of E p) Q
  state_put-Keeps p = call-Keeps (λ h. E.state_put h p) (Event.state_put p)

  pub state_delete-Keeps :
      (k : String) {Q : Unit {0} → History → Type 0}
      → ((r : Try (Unit {0})) (h : History) → Pre h → P (Event.state_delete k r) h)
      → ((a : Unit {0}) (h : History) → Pre h → Q a (Event.state_delete k (ok a) ∷ h))
      → Keeps P Pre (state_delete_of E k) Q
  state_delete-Keeps k = call-Keeps (λ h. E.state_delete h k) (Event.state_delete k)

  pub now-Keeps :
      {Q : ℕ → History → Type 0}
      → ((a : ℕ) (h : History) → Pre h → P (Event.now a) h)
      → ((a : ℕ) (h : History) → Pre h → Q a (Event.now a ∷ h))
      → Keeps P Pre (date_now E) Q
  now-Keeps = plain-Keeps (λ h. E.now h) Event.now

  pub recovery_changed-Keeps :
      {Q : Unit {0} → History → Type 0}
      → ((h : History) → Pre h → P Event.recovery_changed h)
      → ((h : History) → Pre h → Q tt (Event.recovery_changed ∷ h))
      → Keeps P Pre (note_recovery_changed E) Q
  recovery_changed-Keeps allowed post =
      plain-Keeps (λ h. tt) (λ _. Event.recovery_changed) (λ _. allowed) (λ _. post)
