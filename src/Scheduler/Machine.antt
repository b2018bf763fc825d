-- ===== src/Scheduler/Machine.antt =====
-- The state machine of src/scheduler/scheduler.ts: its handlers, its timers, and the ends of a cycle.
pub mod Ending
pub mod Steps
pub mod Progress
use mineral_obsidian_sync.Base.{
  ℕ, zero, suc, ◌+◌, ◌*◌, min, String, Bool, true, false, not, ◌&&◌, ◌||◌, Option, none, some, List,
  [], ◌∷◌, ◌++◌, ◌==◌, ltb, leb, if◌then◌else◌, str_eq, any, is_some, filter_map, drop,
}
use mineral_obsidian_sync.Base.Maps.{Map, insert, values}
use mineral_obsidian_sync.Scheduler.Types.{
  ReconcileReason, manual, local_event, editor_change, focus_resume, foreground_resume,
  integrity_check, config_change, retry, remote_change, conflict_manual_resolution, SchedulerState,
  idle, debouncing, running, rerun_pending, blocked_by_auth, FailureClass, retryable, auth,
  RemoteChange, ConfirmationOutcome,
}

-- Milliseconds.
abbrev pub local_debounce : ℕ
local_debounce = 1200

abbrev pub retry_initial : ℕ
retry_initial = 5000

abbrev pub retry_max : ℕ
retry_max = 60000

pub record PendingChange : Type 0 where
  pub generation : String
  pub changes : List RemoteChange

-- The variables that `runCycle` captures when it starts.
pub record Cycle : Type 0 where
  pub reason : ReconcileReason
  pub start_version : ℕ
  pub generation : ℕ
  pub incremental : Option PendingChange
  -- What the handshake concluded, once it did.
  pub outcome : Option ConfirmationOutcome

-- The scheduler, its timers, the answer of `visible()`, and the cycle that is under way. A timer is
-- its delay. `retry_timers` holds the retry callbacks that are still to come, newest first:
-- `has_retry_handle` says whether `retryTimer` names the newest one.
pub record Scheduler : Type 0 where
  pub state : SchedulerState
  pub stopped : Bool
  pub visible : Bool
  pub config_generation : ℕ
  pub sync_dirty_version : ℕ
  pub dirty : Map ℕ
  pub debounce_timer : Option ℕ
  pub retry_timers : List ℕ
  pub has_retry_handle : Bool
  pub retry_delay : ℕ
  pub pending_reason : Option ReconcileReason
  pub rerun_requested : Bool
  pub rerun_reason : Option ReconcileReason
  pub incremental_state_trusted : Bool
  pub pending_remote_changes : List PendingChange
  pub cycle : Option Cycle

abbrev pub initial : Bool → Scheduler
initial visible = record {
  state = idle;
  stopped = false;
  visible = visible;
  config_generation = 0;
  sync_dirty_version = 0;
  dirty = [];
  debounce_timer = none;
  retry_timers = [];
  has_retry_handle = false;
  retry_delay = retry_initial;
  pending_reason = none;
  rerun_requested = false;
  rerun_reason = none;
  incremental_state_trusted = false;
  pending_remote_changes = [];
  cycle = none;
}

abbrev pub is_running : SchedulerState → Bool
is_running running = true
is_running _ = false

abbrev pub is_blocked : SchedulerState → Bool
is_blocked blocked_by_auth = true
is_blocked _ = false

abbrev pub is_debouncing : SchedulerState → Bool
is_debouncing debouncing = true
is_debouncing _ = false

unfoldable pub delay_for : ReconcileReason → ℕ
delay_for manual = 0
delay_for conflict_manual_resolution = 0
delay_for remote_change = 0
delay_for foreground_resume = 0
delay_for integrity_check = 0
delay_for editor_change = 300
delay_for config_change = 400
delay_for focus_resume = 800
delay_for ReconcileReason.stale = 0
delay_for retry = 0
delay_for local_event = local_debounce
delay_for ReconcileReason.startup = local_debounce

abbrev pub schedule_debounce : ℕ → Scheduler → Scheduler
schedule_debounce delay s = record s { state = debouncing; debounce_timer = some delay }

abbrev pub schedule_rerun : Scheduler → Scheduler
schedule_rerun s = record s { state = rerun_pending; debounce_timer = some local_debounce }

-- `clearTimer` of each kind.
abbrev pub clear_debounce : Scheduler → Scheduler
clear_debounce s = record s { debounce_timer = none }

abbrev pub clear_retry : Scheduler → Scheduler
clear_retry s = record s {
  retry_timers = if s.has_retry_handle then drop 1 s.retry_timers else s.retry_timers;
  has_retry_handle = false;
}

abbrev cannot_run : Scheduler → Bool
cannot_run s = s.stopped || not s.visible || is_blocked s.state

unfoldable pub request_reconcile : ReconcileReason → Scheduler → Scheduler
unfolding delay_for
request_reconcile reason s =
    if cannot_run s
    then s
    else if is_running s.state
    then record s { rerun_requested = true; rerun_reason = some reason }
    else schedule_debounce (delay_for reason) (record s { pending_reason = some reason })

abbrev replace_changes : String → List RemoteChange → List PendingChange → Bool → List PendingChange
replace_changes generation changes [] found =
    if found then [] else record { generation = generation; changes = changes } ∷ []
replace_changes generation changes (p ∷ rest) found =
    if not found && str_eq p.generation generation
    then record { generation = generation; changes = changes }
      ∷ replace_changes generation changes rest true
    else p ∷ replace_changes generation changes rest found

unfoldable pub request_remote_change : String → List RemoteChange → Scheduler → Scheduler
unfolding request_reconcile
request_remote_change generation [] s = request_reconcile remote_change s
request_remote_change generation (c ∷ cs) s = request_reconcile remote_change (record s {
  pending_remote_changes = replace_changes generation (c ∷ cs) s.pending_remote_changes false;
})

-- `for (const key of keys) this.dirty.set(key, version)`
abbrev pub mark_all : List String → ℕ → Map ℕ → Map ℕ
mark_all [] version dirty = dirty
mark_all (key ∷ keys) version dirty = mark_all keys version (insert key version dirty)

-- The key of a path that carries a fact: neither malformed nor ignored.
abbrev pub relevant_key :
    (canonical : String → Option String) → (ignores : String → Bool) → String → Option String
relevant_key canonical ignores path = elim (canonical path) [
  | none ↦ none
  | some key ↦ if ignores key then none else some key
]

abbrev mark_keys : List String → ReconcileReason → Scheduler → Scheduler
mark_keys [] reason s = s
mark_keys (key ∷ keys) reason s = request_reconcile reason (record s {
  sync_dirty_version = s.sync_dirty_version + 1;
  dirty = mark_all (key ∷ keys) (s.sync_dirty_version + 1) s.dirty;
})

-- `markLocalPaths`; `canonical` is `canonicalKey` of src/sync/path.ts with its throw as nothing.
unfoldable pub mark_local_paths :
    (canonical : String → Option String)
    → (ignores : String → Bool) → List String
    → ReconcileReason
    → Scheduler
    → Scheduler
mark_local_paths canonical ignores paths reason s =
    mark_keys (filter_map (relevant_key canonical ignores) paths) reason s

abbrev unblocked : SchedulerState → SchedulerState
unblocked blocked_by_auth = idle
unblocked state = state

unfoldable pub config_changed : Scheduler → Scheduler
unfolding request_reconcile
config_changed s =
    let fresh = clear_retry (
      clear_debounce
        (record s { config_generation = s.config_generation + 1; state = unblocked s.state })) in
    let ready = record fresh { retry_delay = retry_initial } in
    if not s.stopped && s.visible then request_reconcile config_change ready else ready

abbrev calmed : SchedulerState → SchedulerState
calmed debouncing = idle
calmed state = state

-- `visibilityChanged`, after `visible()` began to answer so.
unfoldable pub visibility_changed : Bool → Scheduler → Scheduler
unfolding request_reconcile
visibility_changed false s =
    let quiet = clear_retry (clear_debounce (record s { visible = false })) in
    record quiet { incremental_state_trusted = false; state = calmed quiet.state }
visibility_changed true s =
    let seen = record s { visible = true } in
    if not (is_blocked s.state) then request_reconcile foreground_resume seen else seen

unfoldable pub stop : Scheduler → Scheduler
stop s =
    let quiet = clear_retry (clear_debounce (record s { stopped = true })) in
    record quiet { state = if is_running s.state then running else idle }

abbrev or_local_event : Option ReconcileReason → ReconcileReason
or_local_event none = local_event
or_local_event (some reason) = reason

abbrev is_remote_change : ReconcileReason → Bool
is_remote_change remote_change = true
is_remote_change _ = false

-- The queued delta that the cycle takes, and those that stay.
abbrev take_delta : Bool → List PendingChange → Option PendingChange × List PendingChange
take_delta true (p ∷ rest) = (some p, rest)
take_delta _ pending = (none, pending)

-- A taken delta is observed by itself only where the cursor allows it.
abbrev usable : Bool → Option PendingChange → Option PendingChange
usable true taken = taken
usable false taken = none

-- The debounce timer fires: the opening of `runCycle`. `can_apply` is what `canApplyIncrementally`
-- answers of the delta.
unfoldable pub debounce_fires : (can_apply : Bool) → Scheduler → Scheduler
debounce_fires can_apply s =
    let fired = record s { debounce_timer = none } in
    let reason = or_local_event s.pending_reason in
    let (taken, left) =
      take_delta (is_remote_change reason && s.incremental_state_trusted)
        s.pending_remote_changes in
    if cannot_run s then fired else record fired {
      pending_remote_changes = left;
      pending_reason = none;
      rerun_requested = false;
      rerun_reason = none;
      state = running;
      cycle = some (record {
        reason = reason;
        incremental = usable can_apply taken;
        outcome = none;
        start_version = s.sync_dirty_version;
        generation = s.config_generation;
      });
    }

-- The list without its element at `n`.
abbrev pub remove_at {ℓ} : {A : Type ℓ} → ℕ → List A → List A
remove_at n [] = []
remove_at zero (x ∷ xs) = xs
remove_at (suc n) (x ∷ xs) = x ∷ remove_at n xs

-- One of the retry callbacks runs.
unfoldable pub retry_fires : ℕ → Scheduler → Scheduler
unfolding request_reconcile
retry_fires n s =
    request_reconcile retry
      (record s { retry_timers = remove_at n s.retry_timers; has_retry_handle = false })
