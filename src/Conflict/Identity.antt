-- ===== src/Conflict/Identity.antt =====
-- src/conflict/identity.ts: what a conflict is measured by. The SHA-256 digest is Web Crypto's.
pub mod Injective
use mineral_obsidian_sync.Base.{
  ℕ, String, Bool, true, false, Option, none, some, List, [], ◌∷◌, ◌++◌, ◌==◌, not, ◌&&◌, ◌||◌,
  length, opt_str_eq, if◌then◌else◌,
}
use mineral_obsidian_sync.Sync.Types.{
  LocalEntry, LocalBaseline, RemoteEntry, RemoteBaseline, RemoteDeletionIdentity, PreviousEntry,
}
use mineral_obsidian_sync.Conflict.Units.{Units, units}
use mineral_obsidian_sync.Conflict.Decimal.{decimal}

pub record ConflictInput : Type 0 where
  pub channel : String
  pub path : String
  pub previous : Option PreviousEntry
  pub observed_local : Option LocalEntry
  pub observed_remote : Option RemoteEntry
  pub observed_remote_deletion : Option RemoteDeletionIdentity

-- Size and modification time of a file.
pub record Stamp : Type 0 where
  pub size : ℕ
  pub mtime : ℕ

abbrev pub colon : ℕ
colon = b':'

abbrev pub bar : ℕ
bar = b'|'

abbrev pub segment : Units → Units
segment value = decimal (length value) ++ (colon ∷ value)

abbrev pub stamp_of : Option LocalEntry → Option Stamp
stamp_of none = none
stamp_of (some e) = some (record { size = e.size; mtime = e.mtime })

abbrev pub baseline_stamp : Option LocalBaseline → Option Stamp
baseline_stamp none = none
baseline_stamp (some b) = some (record { size = b.size; mtime = b.mtime })

-- `localIdentity`
unfoldable pub local_identity : Option Stamp → Units
local_identity none = units "absent"
local_identity (some s) = decimal s.size ++ (colon ∷ decimal s.mtime)

abbrev pub or_no_etag : Option String → Units
or_no_etag none = units "no-etag"
or_no_etag (some etag) = units etag

abbrev pub baseline_etag : Option RemoteBaseline → Option String
baseline_etag none = none
baseline_etag (some r) = r.etag

abbrev pub baseline_size : Option RemoteBaseline → Option ℕ
baseline_size none = none
baseline_size (some r) = some r.size

unfoldable pub or_no_size : Option ℕ → Units
or_no_size none = units "no-size"
or_no_size (some n) = decimal n

unfoldable pub baseline_identity : Option PreviousEntry → Units
unfolding local_identity or_no_size
baseline_identity none = units "absent"
baseline_identity (some p) =
    local_identity (baseline_stamp p.local_side)
    ++ (bar
        ∷ (or_no_etag (baseline_etag p.remote_side)
            ++ (bar ∷ or_no_size (baseline_size p.remote_side))))

abbrev object_present : Bool → Units
object_present true = units "true"
object_present false = units "false"

abbrev or_undefined : Option String → Units
or_undefined none = units "undefined"
or_undefined (some s) = units s

abbrev pub entry_etag : Option RemoteEntry → Option String
entry_etag none = none
entry_etag (some r) = r.etag

unfoldable pub remote_segment : Option RemoteDeletionIdentity → Option RemoteEntry → Units
remote_segment none there = or_no_etag (entry_etag there)
remote_segment (some d) there =
    units "deleted:"
    ++ (units d.path
        ++ (colon
            ∷ (units d.deleted_remote_etag
                ++ (colon
                    ∷ (or_undefined d.created_at ++ (colon ∷ object_present d.object_present))))))

unfoldable pub canonical_conflict_input : ConflictInput → Units
unfolding baseline_identity local_identity remote_segment
canonical_conflict_input i =
    units "v1"
    ++ (colon
        ∷ (segment (units i.channel)
            ++ (colon
                ∷ (segment (units i.path)
                    ++ (colon
                        ∷ (segment (baseline_identity i.previous)
                            ++ (colon
                                ∷ (segment (local_identity (stamp_of i.observed_local))
                                    ++ (colon
                                        ∷ segment (
                                            remote_segment i.observed_remote_deletion
                                              i.observed_remote))))))))))

-- Which baseline a snapshot belongs to.
pub record BaselineIdentity : Type 0 where
  pub local_version : LocalEntry
  pub remote_etag : Option String

unfoldable pub baseline_of : PreviousEntry → Option BaselineIdentity
baseline_of p = elim p.local_side [
  | none ↦ none
  | some b ↦ some (record {
    local_version = record { key = p.key; size = b.size; mtime = b.mtime };
    remote_etag = baseline_etag p.remote_side;
  })
]

abbrev same_baseline : BaselineIdentity → Option RemoteBaseline → Option LocalBaseline → Bool
same_baseline identity there none = false
same_baseline identity there (some b) =
    if not (identity.local_version.size == b.size) || not (identity.local_version.mtime == b.mtime)
    then false
    else opt_str_eq identity.remote_etag (baseline_etag there)

unfoldable pub baseline_matches : BaselineIdentity → Option PreviousEntry → Bool
baseline_matches identity none = false
baseline_matches identity (some p) = same_baseline identity p.remote_side p.local_side

module _ (digest : Units → String) where
  unfoldable pub conflict_id_for : ConflictInput → String
  unfolding canonical_conflict_input
  conflict_id_for i = digest (canonical_conflict_input i)
