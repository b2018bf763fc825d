-- ===== src/Sync/Types.antt =====
-- src/sync/types.ts: what is observed of a file, what is remembered of it, and what may be done.
use mineral_obsidian_sync.Base.{ℕ, String, Bool, Option, none, some}

pub record LocalEntry : Type 0 where
  pub key : String
  pub size : ℕ
  pub mtime : ℕ

pub record RemoteDeletionIdentity : Type 0 where
  pub path : String
  pub deleted_remote_etag : String
  pub created_at : Option String
  pub metadata_etag : Option String
  pub object_present : Bool

pub record RemoteEntry : Type 0 where
  pub key : String
  pub size : ℕ
  pub etag : Option String
  pub last_modified : ℕ
  pub deleted : Option RemoteDeletionIdentity

pub record RemoteVersion : Type 0 where
  pub size : ℕ
  pub etag : Option String
  pub last_modified : Option ℕ

-- `PreviousEntry.local`
pub record LocalBaseline : Type 0 where
  pub size : ℕ
  pub mtime : ℕ
  pub hash : Option String

-- `PreviousEntry.remote`
pub record RemoteBaseline : Type 0 where
  pub size : ℕ
  pub etag : Option String
  pub last_modified : Option ℕ
  pub hash : Option String

pub record RemoteIdentity : Type 0 where
  pub endpoint : String
  pub bucket : String
  pub remote_prefix : String

-- The fields `local` and `remote` carry a suffix, since the model names local variables so.
pub record PreviousEntry : Type 0 where
  pub key : String
  pub local_side : Option LocalBaseline
  pub remote_side : Option RemoteBaseline
  pub synced_at : ℕ
  pub remote_identity : Option RemoteIdentity
  pub ignore_policy : Option String

pub data ConflictKind : Type 0 where
  both_modified local_modified_remote_deleted local_deleted_remote_modified : ConflictKind
  both_created_different ambiguous : ConflictKind

pub data LineEnding : Type 0 where
  lf crlf mixed : LineEnding

pub record TextShape : Type 0 where
  pub bom : Bool
  pub eol : LineEnding
  pub trailing_newline : Bool

-- The exact content of a merged resolution.
pub record MergedContent : Type 0 where
  pub content : String
  pub sha256 : String
  pub encoding : TextShape

-- `LocalEntry | { kind: "absent" }`
pub data ExpectedLocal : Type 0 where
  absent : ExpectedLocal
  entry : LocalEntry → ExpectedLocal

-- `{ kind: "absent" } | { kind: "etag"; value?: string }`
pub data ExpectedRemote : Type 0 where
  absent : ExpectedRemote
  etag : Option String → ExpectedRemote

-- The fields follow the source's order: key, reason, conflict id, expectations.
pub data SyncOperation : Type 0 where
  noop : (key reason : String) → SyncOperation
  upload : (key reason : String) → LocalEntry → ExpectedRemote → SyncOperation
  download : (key reason : String) → ExpectedLocal → RemoteEntry → SyncOperation
  delete_local : (key reason : String) → LocalEntry → SyncOperation
  delete_remote : (key reason : String) → (expected_etag : Option String) → SyncOperation
  prune_baseline : (key reason : String) → SyncOperation
  resolve_keep_local :
      (key reason conflict_id : String)
      → LocalEntry
      → (expected_etag : Option String) → (expected_absent : Bool) → SyncOperation
  resolve_keep_remote :
      (key reason conflict_id : String)
      → ExpectedLocal
      → (expected_etag : Option String) → SyncOperation
  resolve_merged :
      (key reason conflict_id : String)
      → LocalEntry
      → (expected_etag : Option String) → MergedContent
      → SyncOperation
  resolve_accept_remote_delete :
      (key reason conflict_id : String) → LocalEntry → RemoteDeletionIdentity → SyncOperation
  resolve_accept_local_delete :
      (key reason conflict_id : String) → (expected_etag : String) → SyncOperation
  conflict : (key : String) → ConflictKind → (reason : String) → SyncOperation

-- `operation.key`
abbrev pub op_key : SyncOperation → String
op_key (noop k _) = k
op_key (upload k _ _ _) = k
op_key (download k _ _ _) = k
op_key (delete_local k _ _) = k
op_key (delete_remote k _ _) = k
op_key (prune_baseline k _) = k
op_key (resolve_keep_local k _ _ _ _ _) = k
op_key (resolve_keep_remote k _ _ _ _) = k
op_key (resolve_merged k _ _ _ _ _) = k
op_key (resolve_accept_remote_delete k _ _ _ _) = k
op_key (resolve_accept_local_delete k _ _ _) = k
op_key (conflict k _ _) = k

unfoldable pub is_remote_deleted : Option RemoteEntry → Option RemoteDeletionIdentity
is_remote_deleted none = none
is_remote_deleted (some r) = r.deleted
