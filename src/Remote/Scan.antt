-- ===== src/Remote/Scan.antt =====
-- src/remote/scan-remote.ts: the remote view, in which tombstones hide the versions that they name.
pub mod View
use mineral_obsidian_sync.Base.{
  ℕ, String, Bool, true, false, not, ◌&&◌, ◌||◌, Option, none, some, List, [], ◌∷◌, keep, ltb,
  opt_str_eq, is_some, if◌then◌else◌,
}
use mineral_obsidian_sync.Base.Maps.{Map, insert, lookup}
use mineral_obsidian_sync.Sync.Types.{RemoteEntry, RemoteDeletionIdentity}
use mineral_obsidian_sync.Remote.Retention.{RemoteDeletion, is_revived}

-- A tombstone with the parts of its record that a view shows.
pub record Tombstone : Type 0 where
  pub deletion : RemoteDeletion
  pub created_text : String
  pub metadata_etag : Option String

-- The time of the record: a parsed record always has one.
abbrev time_of : Option ℕ → ℕ
time_of none = 0
time_of (some at) = at

abbrev pub hidden_entry : Tombstone → Bool → RemoteEntry
hidden_entry t present = record {
  key = t.deletion.path;
  size = 0;
  etag = none;
  last_modified = time_of t.deletion.created_at;
  deleted = some (record {
    path = t.deletion.path;
    deleted_remote_etag = t.deletion.deleted_remote_etag;
    created_at = some t.created_text;
    metadata_etag = t.metadata_etag;
    object_present = present;
  });
}

-- The tombstone says nothing about the object that is there.
unfoldable pub spares : Tombstone → Option RemoteEntry → Bool
spares t none = false
spares t (some object) =
    not (opt_str_eq object.etag (some t.deletion.deleted_remote_etag))
    || is_revived object t.deletion.metadata_last_modified

-- `new Map(objects.map(...))`
unfoldable pub listed :
    (ignores : String → Bool) → List RemoteEntry → Map RemoteEntry → Map RemoteEntry
listed ignores [] output = output
listed ignores (o ∷ os) output =
    listed ignores os (if ignores o.key then output else insert o.key o output)

unfoldable pub overlay :
    (ignores : String → Bool) → List Tombstone → Map RemoteEntry → Map RemoteEntry
unfolding spares
overlay ignores [] output = output
overlay ignores (t ∷ ts) output =
    let path = t.deletion.path in
    let object = lookup path output in
    overlay ignores ts (
      if ignores path || spares t object
      then output
      else insert path (hidden_entry t (is_some object)) output)

unfoldable pub scan_remote :
    (ignores : String → Bool) → List RemoteEntry → List Tombstone → Map RemoteEntry
unfolding listed overlay
scan_remote ignores objects tombstones = overlay ignores tombstones (listed ignores objects [])
