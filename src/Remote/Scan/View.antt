-- ===== src/Remote/Scan/View.antt =====
-- Where the entries of a remote view of src/remote/scan-remote.ts come from.
use mineral_obsidian_sync.Base.{String, Bool, false, ◌≡◌, Option, some, List, Memᴰ, is_some}
use mineral_obsidian_sync.Base.Maps.{Map, lookup}
use mineral_obsidian_sync.Sync.Types.{RemoteEntry}
use mineral_obsidian_sync.Remote.Scan.{Tombstone, hidden_entry, spares}

-- The entry is a listed object, or what a tombstone makes of an object that it does not spare.
pub data Origin (ignores : String → Bool) (objects : List RemoteEntry) (ts : List Tombstone)
    (key : String) : RemoteEntry → Type 0 where
  object :
      {e : RemoteEntry}
      → Memᴰ e objects
      → e.key ≡ key
      → ignores key ≡ false
      → Origin ignores objects ts key e
  hidden :
      (t : Tombstone) (before : Option RemoteEntry)
      → Memᴰ t ts
      → t.deletion.path ≡ key
      → ignores key ≡ false
      → spares t before ≡ false
      → Origin ignores objects ts key (hidden_entry t (is_some before))

module _ (ignores : String → Bool) (objects : List RemoteEntry) (ts : List Tombstone) where
  abbrev Explained : Map RemoteEntry → Type 0
  Explained m =
      (key : String) (e : RemoteEntry) → lookup key m ≡ some e → Origin ignores objects ts key e
