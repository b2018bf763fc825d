-- ===== src/Remote/Retention.antt =====
-- src/remote/tombstone-retention.ts: when deleted bytes and their record leave R2.
pub mod Proof
use mineral_obsidian_sync.Base.{
  ℕ, suc, ◌+◌, ◌-◌, String, Bool, true, false, not, ◌&&◌, ◌||◌, Option, none, some, List, [], ◌∷◌,
  ◌++◌, ◌==◌, ltb, keep, length, str_mem, opt_str_eq, if◌then◌else◌,
}
use mineral_obsidian_sync.Sync.Types.{RemoteEntry}
use mineral_obsidian_sync.Remote.Client.{Error, remote_http, Try, ok, raised}

-- `RemoteDeletion` with the fields of its tombstone; `created_at` is the parsed creation time, if it
-- can be read.
pub record RemoteDeletion : Type 0 where
  pub path : String
  pub deleted_remote_etag : String
  pub created_at : Option ℕ
  pub metadata_last_modified : Option ℕ

abbrev is_old : (now retention : ℕ) → Option ℕ → Bool
is_old now retention none = false
is_old now retention (some created) = ltb (created + retention) now

unfoldable pub expired_tombstones : (now retention : ℕ) → List RemoteDeletion → List RemoteDeletion
expired_tombstones now retention ds = keep (λ d. is_old now retention d.created_at) ds

pub record TombstoneProtections : Type 0 where
  pub conflicted : List String
  pub baselines : List String
  pub ignored : String → Bool
  pub local_file_present : String → Bool

unfoldable pub protected_from_cleanup : TombstoneProtections → String → Bool
protected_from_cleanup p path =
    p.ignored path
    || str_mem path p.conflicted
    || str_mem path p.baselines
    || p.local_file_present path

pub data CleanupOutcome : Type 0 where
  object_and_record record_only skipped : CleanupOutcome

-- What a pass asks R2 to remove.
pub data Removal : Type 0 where
  object : (path : String) → Try (Unit {0}) → Removal
  tombstone : RemoteDeletion → Try (Unit {0}) → Removal

-- The client's capabilities, and what R2 answers about one deletion.
pub record Answers : Type 0 where
  pub has_delete_object : Bool
  pub has_delete_tombstone : Bool
  pub head : Try RemoteEntry
  pub delete_object : Try (Unit {0})
  pub delete_tombstone : Try (Unit {0})

abbrev is_404 : Error → Bool
is_404 (remote_http _ status) = status == 404
is_404 _ = false

abbrev pub is_revived : RemoteEntry → Option ℕ → Bool
is_revived present none = false
is_revived present (some accepted) = ltb accepted present.last_modified

-- The record goes, once the object is accounted for.
abbrev record_outcome : Try (Unit {0}) → CleanupOutcome
record_outcome (ok _) = record_only
record_outcome (raised _) = skipped

remove_record : RemoteDeletion → Answers → CleanupOutcome × List Removal
remove_record d a =
    if a.has_delete_tombstone
    then (record_outcome a.delete_tombstone, tombstone d a.delete_tombstone ∷ [])
    else (skipped, [])

after_object : RemoteDeletion → Answers → Try (Unit {0}) → CleanupOutcome × List Removal
after_object d a (raised e) = (skipped, object d.path (raised e) ∷ [])
after_object d a (ok done) =
    if a.has_delete_tombstone
    then (object_and_record, object d.path (ok done) ∷ tombstone d a.delete_tombstone ∷ [])
    else (skipped, object d.path (ok done) ∷ [])

remove_both : RemoteDeletion → Answers → Option ℕ → CleanupOutcome × List Removal
unfolding after_object
remove_both d a none = (skipped, [])
remove_both d a (some accepted) =
    if a.has_delete_object then after_object d a a.delete_object else (skipped, [])

after_head : RemoteDeletion → Answers → Try RemoteEntry → CleanupOutcome × List Removal
unfolding remove_record remove_both
after_head d a (raised e) = if is_404 e then remove_record d a else (skipped, [])
after_head d a (ok present) =
    if opt_str_eq present.etag (some d.deleted_remote_etag)
      && not (is_revived present d.metadata_last_modified)
    then remove_both d a d.metadata_last_modified
    else remove_record d a

-- `retire`, with the removals that it asks for, in order.
unfoldable pub retire : RemoteDeletion → Answers → CleanupOutcome × List Removal
unfolding after_head
retire d a = after_head d a a.head

pub record CleanupResult : Type 0 where
  pub removed : ℕ
  pub objects : ℕ
  pub removals : List Removal

abbrev tally : CleanupOutcome → List Removal → CleanupResult → CleanupResult
tally skipped ops r = record r { removals = ops ++ r.removals }
tally record_only ops r = record r { removed = suc r.removed; removals = ops ++ r.removals }
tally object_and_record ops r = record {
  removed = suc r.removed;
  objects = suc r.objects;
  removals = ops ++ r.removals;
}

-- The loop of `pruneExpiredTombstones`; `answers` is what R2 says about each deletion.
unfoldable pub prune_each :
    (protect : String → Bool)
    → (answers : RemoteDeletion → Answers) → List RemoteDeletion
    → CleanupResult
unfolding retire
prune_each protect answers [] = record { removed = 0; objects = 0; removals = [] }
prune_each protect answers (d ∷ ds) =
    let rest = prune_each protect answers ds in
    let (outcome, ops) = retire d (answers d) in
    if protect d.path then rest else tally outcome ops rest

unfoldable pub prune_expired_tombstones :
    (now retention : ℕ)
    → (protect : String → Bool) → (answers : RemoteDeletion → Answers) → List RemoteDeletion
    → CleanupResult
unfolding prune_each expired_tombstones
prune_expired_tombstones now retention protect answers ds =
    prune_each protect answers (expired_tombstones now retention ds)
