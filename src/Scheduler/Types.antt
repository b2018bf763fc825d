-- ===== src/Scheduler/Types.antt =====
-- src/scheduler/types.ts, and the change that src/scheduler/scheduler.ts announces.
use mineral_obsidian_sync.Base.{ℕ, String, Bool, Option}
use mineral_obsidian_sync.Executor.Result.{OperationResult}

pub data ReconcileReason : Type 0 where
  startup manual local_event editor_change focus_resume foreground_resume : ReconcileReason
  integrity_check config_change stale retry remote_change : ReconcileReason
  conflict_manual_resolution : ReconcileReason

pub data SchedulerState : Type 0 where
  idle debouncing running rerun_pending blocked_by_auth : SchedulerState

pub data FailureClass : Type 0 where
  retryable stable auth : FailureClass

pub data CycleRemoteMutation : Type 0 where
  confirmed possible : CycleRemoteMutation

-- `OperationResult | { status: "noop" | "conflict" }`
pub data CycleResult : Type 0 where
  result : OperationResult → CycleResult
  noop conflict : CycleResult

pub record ResultCounts : Type 0 where
  pub applied : ℕ
  pub stale : ℕ
  pub failed : ℕ
  pub unresolved : ℕ
  pub blocked : ℕ
  pub partial : ℕ
  pub conflict : ℕ
  pub noop : ℕ

-- The `RemoteChange` that the Gateway is told.
pub data RemoteChange : Type 0 where
  put : (path : String) → (etag : Option String) → (size : Option ℕ) → RemoteChange
  delete : (path : String) → RemoteChange

-- `LandedWrite`
pub data LandedWrite : Type 0 where
  put : (path etag : String) → (size : ℕ) → LandedWrite
  delete : (path etag : String) → LandedWrite
  physically_deleted : (path : String) → LandedWrite

pub data ConfirmationOutcome : Type 0 where
  not_requested start_unavailable observation_incomplete notify_failed : ConfirmationOutcome
  mismatch : (start end : String) → ConfirmationOutcome
  confirmed : (generation : String) → ConfirmationOutcome

pub record RemoteGenerationHandshake : Type 0 where
  pub start : Option String
  pub start_failed : Bool
