-- ===== src/Scheduler/Machine/Steps.antt =====
-- What may happen to the scheduler of src/scheduler/scheduler.ts, in any order, and what always holds.
pub mod Invariant
use mineral_obsidian_sync.Base.{
  ℕ, zero, suc, ◌+◌, ◌≤◌, ◌<◌, String, Bool, true, false, not, ◌&&◌, ◌≡◌, refl, Option, none, some,
  List, [], ◌∷◌, ◌==◌, is_some, length, drop, All, if◌then◌else◌, arith,
}
use mineral_obsidian_sync.Scheduler.Types.{
  ReconcileReason, local_event, SchedulerState, idle, debouncing, running, rerun_pending,
  blocked_by_auth, FailureClass, RemoteChange, ConfirmationOutcome, foreground_resume,
  config_change, remote_change, retry,
}
use mineral_obsidian_sync.Scheduler.Machine.{
  Scheduler, Cycle, initial, request_reconcile, request_remote_change, mark_local_paths,
  config_changed, visibility_changed, stop, debounce_fires, retry_fires, retry_initial, retry_max,
  is_running, remove_at, clear_retry, clear_debounce, unblocked, is_blocked, mark_keys,
  schedule_rerun,
}
use mineral_obsidian_sync.Scheduler.Machine.Ending.{
  CycleEnd, conclude, end_cycle, finish_cycle, settle, rerun_or_settle, is_auth, is_resume,
  is_pending, is_retryable, rerun_at, remote_rerun,
}

pub data Step : Scheduler → Scheduler → Type 0 where
  requested : {s : Scheduler} (reason : ReconcileReason) → Step s (request_reconcile reason s)
  announced :
      {s : Scheduler} (generation : String) (changes : List RemoteChange)
      → Step s (request_remote_change generation changes s)
  marked :
      {s : Scheduler} (canonical : String → Option String) (ignores : String → Bool)
      (paths : List String) (reason : ReconcileReason)
      → Step s (mark_local_paths canonical ignores paths reason s)
  configured : {s : Scheduler} → Step s (config_changed s)
  glimpsed : {s : Scheduler} (visible : Bool) → Step s (record s { visible = visible })
  shown : {s : Scheduler} (visible : Bool) → Step s (visibility_changed visible s)
  stopping : {s : Scheduler} → Step s (stop s)
  debounced :
      {s : Scheduler} (can_apply : Bool)
      → is_some s.debounce_timer ≡ true
      → Step s (debounce_fires can_apply s)
  retried : {s : Scheduler} (n : ℕ) → n < length s.retry_timers → Step s (retry_fires n s)
  concluded :
      {s : Scheduler} (c : Cycle) (outcome : ConfirmationOutcome)
      → s.cycle ≡ some c
      → c.outcome ≡ none
      → Step s (conclude c outcome s)
  ended :
      {s : Scheduler} (c : Cycle) (outcome : ConfirmationOutcome) (end : CycleEnd)
      → s.cycle ≡ some c
      → c.outcome ≡ some outcome
      → Step s (end_cycle c outcome end s)

pub data Reachable : Scheduler → Type 0 where
  start : (visible : Bool) → Reachable (initial visible)
  next : {s t : Scheduler} → Reachable s → Step s t → Reachable t

abbrev pub is_armed : SchedulerState → Bool
is_armed debouncing = true
is_armed rerun_pending = true
is_armed _ = false

abbrev pub InRange : ℕ → Type 0
InRange d = (retry_initial ≤ d) × (d ≤ retry_max)

pub record WellFormed (s : Scheduler) : Type 0 where
  pub awake : is_some s.debounce_timer ≡ true → is_armed s.state ≡ true
  pub quiet : s.stopped ≡ true → s.debounce_timer ≡ none
  pub one_cycle : is_some s.cycle ≡ is_running s.state
  pub delay : InRange s.retry_delay
  pub delays : All InRange s.retry_timers

request-WellFormed :
    (reason : ReconcileReason) (s : Scheduler)
    → WellFormed s
    → WellFormed (request_reconcile reason s)
unfolding request_reconcile
request-WellFormed reason s w = record {
  awake = ground (arith, w.awake);
  quiet = ground (arith, w.quiet);
  one_cycle = ground (arith, w.one_cycle);
  delay = ground (arith, w.delay);
  delays = ground (arith, w.delays);
}

All-remove_at : (n : ℕ) (ds : List ℕ) → All InRange ds → All InRange (remove_at n ds)
All-remove_at n [] w = tt
All-remove_at zero (d ∷ ds) (p, w) = w
All-remove_at (suc n) (d ∷ ds) (p, w) = (p, All-remove_at n ds w)

All-clear_retry :
    (s : Scheduler) → All InRange s.retry_timers → All InRange (clear_retry s).retry_timers
All-clear_retry s w = cleared s.has_retry_handle s.retry_timers w
  where
    cleared : (b : Bool) (ds : List ℕ) → All InRange ds → All InRange (if b then drop 1 ds else ds)
    cleared true [] p = tt
    cleared true (d ∷ ds) p = p.1
    cleared false ds p = p

-- Timers cleared, and a state that a stop or a configuration change leaves.
clear-WellFormed : (s : Scheduler) → WellFormed s → WellFormed (clear_retry (clear_debounce s))
clear-WellFormed s w = record {
  awake = λ e. ground (arith);
  quiet = λ e. refl;
  one_cycle = w.one_cycle;
  delay = w.delay;
  delays = All-clear_retry s w.delays;
}

announce-WellFormed :
    (generation : String) (changes : List RemoteChange) (s : Scheduler)
    → WellFormed s
    → WellFormed (request_remote_change generation changes s)
unfolding request_remote_change
announce-WellFormed generation [] s w = request-WellFormed remote_change s w
announce-WellFormed generation (c ∷ cs) s w = request-WellFormed remote_change _ (record {
  awake = w.awake;
  quiet = w.quiet;
  one_cycle = w.one_cycle;
  delay = w.delay;
  delays = w.delays;
})

config-WellFormed : (s : Scheduler) → WellFormed s → WellFormed (config_changed s)
unfolding config_changed
config-WellFormed s w = chosen (not s.stopped && s.visible)
  where
    ready : Scheduler
    ready =
        record (clear_retry (
          clear_debounce (record s {
            config_generation = s.config_generation + 1;
            state = unblocked s.state;
          }))) { retry_delay = retry_initial }

    fine : WellFormed ready
    fine = record {
      awake = λ e. ground arith;
      quiet = λ e. refl;
      one_cycle = ground (arith, w.one_cycle);
      delay = ground arith;
      delays = All-clear_retry s w.delays;
    }

    chosen : (b : Bool) → WellFormed (if b then request_reconcile config_change ready else ready)
    chosen true = request-WellFormed config_change ready fine
    chosen false = fine

shown-WellFormed : (b : Bool) (s : Scheduler) → WellFormed s → WellFormed (visibility_changed b s)
unfolding visibility_changed
shown-WellFormed false s w = record {
  awake = λ e. ground arith;
  quiet = λ e. refl;
  one_cycle = ground (arith, w.one_cycle);
  delay = w.delay;
  delays = All-clear_retry s w.delays;
}
shown-WellFormed true s w = chosen (not (is_blocked s.state))
  where
    seen : Scheduler
    seen = record s { visible = true }

    fine : WellFormed seen
    fine = record {
      awake = w.awake;
      quiet = w.quiet;
      one_cycle = w.one_cycle;
      delay = w.delay;
      delays = w.delays;
    }

    chosen : (b : Bool) → WellFormed (if b then request_reconcile foreground_resume seen else seen)
    chosen true = request-WellFormed foreground_resume seen fine
    chosen false = fine

stop-WellFormed : (s : Scheduler) → WellFormed s → WellFormed (stop s)
unfolding stop
stop-WellFormed s w = record {
  awake = λ e. ground arith;
  quiet = λ e. refl;
  one_cycle = ground (arith, w.one_cycle);
  delay = w.delay;
  delays = All-clear_retry s w.delays;
}

debounce-WellFormed :
    (can_apply : Bool) (s : Scheduler) → WellFormed s → WellFormed (debounce_fires can_apply s)
unfolding debounce_fires
debounce-WellFormed can_apply s w = record {
  awake = ground (arith, w.awake);
  quiet = ground (arith, w.quiet);
  one_cycle = ground (arith, w.one_cycle);
  delay = ground (arith, w.delay);
  delays = ground (arith, w.delays);
}

retry-WellFormed : (n : ℕ) (s : Scheduler) → WellFormed s → WellFormed (retry_fires n s)
unfolding retry_fires
retry-WellFormed n s w = request-WellFormed retry _ (record {
  awake = w.awake;
  quiet = w.quiet;
  one_cycle = w.one_cycle;
  delay = w.delay;
  delays = All-remove_at n s.retry_timers w.delays;
})

conclude-WellFormed :
    (c : Cycle) (outcome : ConfirmationOutcome) (s : Scheduler)
    → s.cycle ≡ some c
    → WellFormed s
    → WellFormed (conclude c outcome s)
unfolding conclude
conclude-WellFormed c outcome s e w = record {
  awake = ground (arith, w.awake);
  quiet = ground (arith, w.quiet);
  one_cycle = ground (arith, w.one_cycle);
  delay = ground (arith, w.delay);
  delays = ground (arith, w.delays);
}

keys-WellFormed :
    (keys : List String) (reason : ReconcileReason) (s : Scheduler)
    → WellFormed s
    → WellFormed (mark_keys keys reason s)
keys-WellFormed [] reason s w = w
keys-WellFormed (key ∷ keys) reason s w = request-WellFormed reason _ (record {
  awake = w.awake;
  quiet = w.quiet;
  one_cycle = w.one_cycle;
  delay = w.delay;
  delays = w.delays;
})

mark-WellFormed :
    (canonical : String → Option String) (ignores : String → Bool) (paths : List String)
    (reason : ReconcileReason) (s : Scheduler)
    → WellFormed s
    → WellFormed (mark_local_paths canonical ignores paths reason s)
unfolding mark_local_paths
mark-WellFormed canonical ignores paths reason s w = keys-WellFormed _ reason s w
