-- ===== src/Conflict/Coordinator.antt =====
-- The state of the coordinator of src/conflict/coordinator.ts, with the stores behind it. Each call of a
-- store may fail: the environment says which, by the number of calls so far. It also has the clock,
-- what the Vault and R2 answer (bytes by what `decodeText` makes of them), the digests, the diff, the
-- platform's lower case, and the text of code units.
pub mod Inspect
pub mod Handle
pub mod Settled
pub mod Valid
pub mod Stale
use mineral_obsidian_sync.Base.{
  ℕ, suc, String, Bool, true, false, Option, none, some, List, [], ◌∷◌, str_eq, keep, not,
  if◌then◌else◌,
}
use mineral_obsidian_sync.Base.Maps.{Map}
use mineral_obsidian_sync.Sync.Types.{
  LocalEntry, RemoteEntry, PreviousEntry, RemoteDeletionIdentity,
}
use mineral_obsidian_sync.Sync.Merge.{Range}
use mineral_obsidian_sync.Sync.Merge.Region.{DecodedText}
use mineral_obsidian_sync.Remote.Client.{Try}
use mineral_obsidian_sync.Conflict.Units.{Units}
use mineral_obsidian_sync.Conflict.Identity.{conflict_id_for}
use mineral_obsidian_sync.Conflict.Types.{ConflictRecord, ResolutionIntent, MergeBaseRecord}

pub record Env : Type 0 where
  pub fails : (call : ℕ) → Bool
  pub now : (call : ℕ) → ℕ
  -- `readLocal`: nothing, or the decoded bytes, where they can be decoded.
  pub read_local : (call : ℕ) → (key : String) → Option (Option DecodedText)
  pub get_object :
      (call : ℕ) → (key : String) → (if_match : Option String) → Try (Option DecodedText)
  pub lower_case : String → String
  pub digest : Units → String
  pub sha256_hex : Units → String
  pub diff : (base side : List String) → List Range
  pub text_of : Units → String

pub data ReconcileReason : Type 0 where
  auto_merge manual_resolution : ReconcileReason

pub record Coordinator : Type 0 where
  -- The empty text where no channel is set.
  pub channel : String
  pub attempted : List String
  pub active : Map ResolutionIntent
  pub conflicts : List ConflictRecord
  pub intents : List ResolutionIntent
  pub merge_base : List MergeBaseRecord
  pub calls : ℕ
  pub requests : List ReconcileReason

pub record ConflictDetectionInput : Type 0 where
  pub key : String
  pub previous : Option PreviousEntry
  pub observed_local : Option LocalEntry
  pub observed_remote : Option RemoteEntry
  pub observed_remote_deletion : Option RemoteDeletionIdentity

-- After one more call.
abbrev pub tick : Coordinator → Coordinator
tick c = record c { calls = suc c.calls }

abbrev pub request : ReconcileReason → Coordinator → Coordinator
request reason c = record c { requests = reason ∷ c.requests }

-- `identityOf`, which leaves the observed deletion out.
unfoldable pub identity_of : Env → (channel : String) → ConflictDetectionInput → String
unfolding conflict_id_for
identity_of E channel i = conflict_id_for E.digest (record {
  channel = channel;
  path = i.key;
  previous = i.previous;
  observed_local = i.observed_local;
  observed_remote = i.observed_remote;
  observed_remote_deletion = none;
})

unfoldable pub set_channel : String → Coordinator → Coordinator
set_channel channel c =
    if str_eq c.channel channel
    then c
    else record c { channel = channel; attempted = []; active = [] }
