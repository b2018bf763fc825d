-- ===== src/Conflict/Types.antt =====
-- src/conflict/types.ts: snapshots of merge bases, records of conflicts and proposals to resolve them.
-- The sentences of a record's reason are constructors.
use mineral_obsidian_sync.Base.{ℕ, String, Bool, true, false, Option}
use mineral_obsidian_sync.Sync.Types.{LocalEntry, RemoteDeletionIdentity, TextShape, MergedContent}
use mineral_obsidian_sync.Sync.Planner.{IntentType}
use mineral_obsidian_sync.Conflict.Units.{Units}
use mineral_obsidian_sync.Conflict.Handoff.{BranchOrder, Age}
use mineral_obsidian_sync.Conflict.Handoff
use mineral_obsidian_sync.Conflict.Identity.{BaselineIdentity}

pub record MergeBaseRecord : Type 0 where
  pub channel : String
  pub path : String
  pub baseline : BaselineIdentity
  pub sha256 : String
  pub byte_length : ℕ
  pub encoding : TextShape
  pub content : String
  pub updated_at : ℕ

pub data AutoMergeStatus : Type 0 where
  not_attempted clean handoff manual_required base_unavailable unsupported : AutoMergeStatus
  too_large decode_failed : AutoMergeStatus

unfoldable pub is_auto_resolved : AutoMergeStatus → Bool
is_auto_resolved clean = true
is_auto_resolved handoff = true
is_auto_resolved _ = false

pub data ConflictReason : Type 0 where
  remote_deletion local_deletion unsupported_type over_ceiling no_snapshot : ConflictReason
  local_unreadable remote_moved remote_unreadable not_text : ConflictReason
  nothing_to_apply not_recorded : ConflictReason
  remote_status : ℕ → ConflictReason
  decided : Handoff.Reason → ConflictReason

pub record HandoffEvidence : Type 0 where
  pub reason : Handoff.Reason
  pub branch_separation_ms : Option ℕ
  pub branch_age_ms : Option Age
  pub local_delta_bytes : ℕ
  pub remote_delta_bytes : ℕ
  pub hunk_count : ℕ
  pub order : Option BranchOrder

pub record Snapshot : Type 0 where
  pub here : Option String
  pub there : Option String
  pub base : Option String
  pub draft : Option Units
  pub base_available : Bool

pub record ConflictRecord : Type 0 where
  pub conflict_id : String
  pub channel : String
  pub path : String
  pub previous_local : Option LocalEntry
  pub previous_etag : Option String
  pub observed_local : Option LocalEntry
  pub observed_remote_etag : Option String
  pub observed_remote_deletion : Option RemoteDeletionIdentity
  pub detected_at : ℕ
  pub auto_merge_status : AutoMergeStatus
  pub reason : Option ConflictReason
  pub evidence : Option HandoffEvidence
  pub snapshot : Snapshot

pub data Origin : Type 0 where
  auto manual : Origin

pub record ResolutionIntent : Type 0 where
  pub conflict_id : String
  pub channel : String
  pub path : String
  pub type : IntentType
  pub expected_local_version : Option LocalEntry
  pub expected_remote_etag : Option String
  pub expected_remote_deletion : Option RemoteDeletionIdentity
  pub created_at : ℕ
  pub origin : Option Origin
  pub merged : Option MergedContent
