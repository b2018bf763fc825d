-- ===== src/Sync/Planner/Table.antt =====
-- The decision table of src/sync/planner.ts, stated apart from the code's branches.
use mineral_obsidian_sync.Base.{
  String, Bool, true, false, ◌≡◌, Option, none, some, arith, is_some, if◌then◌else◌, ◌⊎◌,
}
use mineral_obsidian_sync.Sync.Types.{
  LocalEntry, RemoteEntry, PreviousEntry, SyncOperation, is_remote_deleted,
}
use mineral_obsidian_sync.Sync.Fingerprint.{local_changed, remote_changed}
use mineral_obsidian_sync.Sync.Planner.{
  ResolutionProposal, plan_key, deleted_remote_resolution, deleted_local_resolution,
  resolution_operation,
}

-- How the local side stands to the baseline.
pub data LocalState : Type 0 where
  gone same changed : LocalState

-- How the remote side stands to the baseline; `erased` is a logical deletion.
pub data RemoteState : Type 0 where
  missing erased same changed : RemoteState

pub data Verdict : Type 0 where
  nothing noop upload download delete_local delete_remote prune conflict resolution : Verdict

-- A side with no baseline counts as changed.
abbrev pub local_state : Option LocalEntry → Option PreviousEntry → LocalState
local_state none before = LocalState.gone
local_state (some here) none = LocalState.changed
local_state (some here) (some before) =
    if local_changed here before then LocalState.changed else LocalState.same

abbrev live_state : Option RemoteEntry → Option PreviousEntry → RemoteState
live_state none before = RemoteState.missing
live_state (some there) none = RemoteState.changed
live_state (some there) (some before) =
    if remote_changed there before then RemoteState.changed else RemoteState.same

abbrev pub remote_state : Option RemoteEntry → Option PreviousEntry → RemoteState
remote_state there before = elim (is_remote_deleted there) [
  | some d ↦ RemoteState.erased
  | none ↦ live_state there before
]

-- The three-way decision, first for a key without a baseline and then for one that has one.
abbrev pub verdict : (tracked : Bool) → LocalState → RemoteState → Verdict
verdict false LocalState.gone RemoteState.changed = download
verdict false LocalState.gone _ = nothing
verdict false _ RemoteState.missing = upload
verdict false _ RemoteState.erased = upload
verdict false _ _ = conflict
verdict true LocalState.gone RemoteState.erased = nothing
verdict true LocalState.gone RemoteState.missing = prune
verdict true LocalState.gone RemoteState.same = delete_remote
verdict true LocalState.gone RemoteState.changed = conflict
verdict true LocalState.same RemoteState.same = noop
verdict true LocalState.same RemoteState.changed = download
verdict true LocalState.same _ = delete_local
verdict true LocalState.changed RemoteState.same = upload
verdict true LocalState.changed _ = conflict

abbrev pub op_verdict : SyncOperation → Verdict
op_verdict (SyncOperation.noop _ _) = noop
op_verdict (SyncOperation.upload _ _ _ _) = upload
op_verdict (SyncOperation.download _ _ _ _) = download
op_verdict (SyncOperation.delete_local _ _ _) = delete_local
op_verdict (SyncOperation.delete_remote _ _ _) = delete_remote
op_verdict (SyncOperation.prune_baseline _ _) = prune
op_verdict (SyncOperation.conflict _ _ _) = conflict
op_verdict _ = resolution

abbrev pub verdict_of : Option SyncOperation → Verdict
verdict_of none = nothing
verdict_of (some op) = op_verdict op

-- Without a pending resolution the planner's operation for a key is the one that the decision
-- table names, whatever was observed.
pub plan_key-verdict :
    (key : String) (here : Option LocalEntry) (there : Option RemoteEntry)
    (before : Option PreviousEntry)
    → verdict_of (plan_key key here there before none)
      ≡ verdict (is_some before) (local_state here before) (remote_state there before)
unfolding plan_key deleted_remote_resolution deleted_local_resolution resolution_operation
plan_key-verdict key none there before = ground arith
plan_key-verdict key (some here) there before = ground arith

-- `conflictId` of the operations that carry one.
abbrev pub op_conflict_id : SyncOperation → Option String
op_conflict_id (SyncOperation.resolve_keep_local _ _ c _ _ _) = some c
op_conflict_id (SyncOperation.resolve_keep_remote _ _ c _ _) = some c
op_conflict_id (SyncOperation.resolve_merged _ _ c _ _ _) = some c
op_conflict_id (SyncOperation.resolve_accept_remote_delete _ _ c _ _) = some c
op_conflict_id (SyncOperation.resolve_accept_local_delete _ _ c _) = some c
op_conflict_id _ = none

abbrev pub IsResolutionFor : String → Option SyncOperation → Type 0
IsResolutionFor id none = ⊥
IsResolutionFor id (some op) = (op_verdict op ≡ resolution) × (op_conflict_id op ≡ some id)

-- A pending resolution changes the operation of a key only where the plan without it is a conflict,
-- and then into a resolution that carries the conflict id of the proposal.
pub plan_key-resolution :
    (key : String) (here : Option LocalEntry) (there : Option RemoteEntry)
    (before : Option PreviousEntry) (p : ResolutionProposal)
    → (plan_key key here there before (some p) ≡ plan_key key here there before none)
      ⊎ (IsResolutionFor p.conflict_id (plan_key key here there before (some p))
          × (verdict_of (plan_key key here there before none) ≡ conflict))
unfolding plan_key deleted_remote_resolution deleted_local_resolution resolution_operation
plan_key-resolution key none there before p = ground arith
plan_key-resolution key (some here) there before p = ground arith
