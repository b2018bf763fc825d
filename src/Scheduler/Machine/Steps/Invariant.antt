-- ===== src/Scheduler/Machine/Steps/Invariant.antt =====
-- The invariant of the scheduler of src/scheduler/scheduler.ts: the ends of a cycle, and every step.
use mineral_obsidian_sync.Base.{
  ℕ, Bool, true, false, not, ◌&&◌, ◌≡◌, refl, Option, none, some, ◌==◌, is_some, All, if◌then◌else◌,
  arith,
}
use mineral_obsidian_sync.Scheduler.Types.{
  ReconcileReason, local_event, SchedulerState, idle, running, blocked_by_auth, FailureClass,
  ConfirmationOutcome, foreground_resume, config_change, remote_change,
}
use mineral_obsidian_sync.Scheduler.Machine.{
  Scheduler, Cycle, retry_initial, is_running, clear_retry, clear_debounce, schedule_rerun,
}
use mineral_obsidian_sync.Scheduler.Machine.Ending.{
  CycleEnd, end_cycle, finish_cycle, settle, rerun_or_settle, is_auth, is_resume, is_pending,
  is_retryable, rerun_at, remote_rerun,
}
use mineral_obsidian_sync.Scheduler.Machine.Steps.{
  Step, Reachable, InRange, WellFormed, request-WellFormed, All-clear_retry, announce-WellFormed,
  config-WellFormed, shown-WellFormed, stop-WellFormed, debounce-WellFormed, retry-WellFormed,
  conclude-WellFormed, mark-WellFormed,
}

-- What the handshake leaves to `finishCycle`: a scheduler whose cycle is over.
record Finishing (s : Scheduler) : Type 0 where
  awake : s.debounce_timer ≡ none
  over : s.cycle ≡ none
  was_running : s.state ≡ running
  delay : InRange s.retry_delay
  delays : All InRange s.retry_timers

settle-WellFormed :
    (failure : Option FailureClass) (was_stale : Bool) (s : Scheduler)
    → s.stopped ≡ false
    → Finishing s
    → WellFormed (settle failure was_stale s)
unfolding settle
settle-WellFormed failure was_stale s e f = record {
  awake = ground (arith, f.awake);
  quiet = ground (arith, e);
  one_cycle = ground (arith, f.over);
  delay = ground (arith, f.delay);
  delays = ground (arith, f.delay, f.delays);
}

rerun-WellFormed :
    (rerun : Option ReconcileReason) (failure : Option FailureClass) (was_stale : Bool)
    (s : Scheduler)
    → s.stopped ≡ false
    → Finishing s
    → WellFormed (rerun_or_settle rerun failure was_stale s)
unfolding rerun_or_settle
rerun-WellFormed none failure was_stale s e f = settle-WellFormed failure was_stale s e f
rerun-WellFormed (some reason) failure was_stale s e f = record {
  awake = ground arith;
  quiet = ground (arith, e);
  one_cycle = ground (arith, f.over);
  delay = f.delay;
  delays = f.delays;
}

if-WellFormed :
    (b : Bool) {s t : Scheduler}
    → (b ≡ true → WellFormed s)
    → (b ≡ false → WellFormed t)
    → WellFormed (if b then s else t)
if-WellFormed true k l = k refl
if-WellFormed false k l = l refl

-- The cycle is over and nothing is scheduled: whatever state `x` does not run is well-formed.
rest-WellFormed :
    (x : SchedulerState) (s : Scheduler)
    → is_running x ≡ false
    → Finishing s
    → WellFormed (record s { state = x })
rest-WellFormed x s n f = record {
  awake = ground (arith, f.awake);
  quiet = λ e. f.awake;
  one_cycle = ground (arith, f.over, n);
  delay = f.delay;
  delays = f.delays;
}

armed-WellFormed :
    (delay : ℕ) (reason : ReconcileReason) (s : Scheduler)
    → s.stopped ≡ false
    → Finishing s
    → WellFormed (rerun_at delay reason s)
armed-WellFormed delay reason s e f = record {
  awake = λ a. refl;
  quiet = ground (arith, e);
  one_cycle = ground (arith, f.over);
  delay = f.delay;
  delays = f.delays;
}

local-WellFormed :
    (s : Scheduler)
    → s.stopped ≡ false
    → Finishing s
    → WellFormed (
        schedule_rerun
          (record s { retry_delay = retry_initial; pending_reason = some local_event }))
local-WellFormed s e f = record {
  awake = λ a. refl;
  quiet = ground (arith, e);
  one_cycle = ground (arith, f.over);
  delay = ground arith;
  delays = f.delays;
}

blocked-WellFormed :
    (s : Scheduler)
    → Finishing s
    → WellFormed (record (clear_retry (clear_debounce s)) { state = blocked_by_auth })
blocked-WellFormed s f = record {
  awake = λ e. ground arith;
  quiet = λ e. refl;
  one_cycle = ground (arith, f.over);
  delay = f.delay;
  delays = All-clear_retry s f.delays;
}

finish-WellFormed :
    (generation : ℕ) (failure : Option FailureClass) (was_stale local_dirty : Bool)
    (rerun : Option ReconcileReason) (s : Scheduler)
    → Finishing s
    → WellFormed (finish_cycle generation failure was_stale local_dirty rerun s)
unfolding finish_cycle
finish-WellFormed generation failure was_stale local_dirty rerun s f =
    if-WellFormed s.stopped (λ _. rest-WellFormed idle s refl f)
      (λ on.
        if-WellFormed (not (s.config_generation == generation))
          (λ _. request-WellFormed config_change _ (rest-WellFormed idle s refl f))
          (λ _.
            if-WellFormed (is_auth failure) (λ _. blocked-WellFormed s f)
              (λ _.
                if-WellFormed (not s.visible) (λ _. rest-WellFormed idle s refl f)
                  (λ _.
                    if-WellFormed (is_resume rerun)
                      (λ _. armed-WellFormed 0 foreground_resume s on f)
                      (λ _.
                        if-WellFormed
                          (is_pending s.pending_remote_changes && not (is_retryable failure))
                          (λ _. armed-WellFormed 0 remote_change s on f)
                          (λ _.
                            if-WellFormed local_dirty (λ _. local-WellFormed s on f)
                              (λ _. rerun-WellFormed rerun failure was_stale s on f)))))))

end-WellFormed :
    (c : Cycle) (outcome : ConfirmationOutcome) (end : CycleEnd) (s : Scheduler)
    → s.cycle ≡ some c
    → WellFormed s
    → WellFormed (end_cycle c outcome end s)
unfolding end_cycle
end-WellFormed c outcome end s e w =
    finish-WellFormed c.generation end.failure end.stale _ (remote_rerun s outcome) _ (record {
      awake = ground (arith, w.awake, w.one_cycle, e);
      over = refl;
      was_running = ground (arith, w.one_cycle, e);
      delay = w.delay;
      delays = w.delays;
    })

step-WellFormed : {s t : Scheduler} → Step s t → WellFormed s → WellFormed t
step-WellFormed {s} (Step.requested reason) w = request-WellFormed reason s w
step-WellFormed {s} (Step.announced generation changes) w =
    announce-WellFormed generation changes s w
step-WellFormed {s} (Step.marked canonical ignores paths reason) w =
    mark-WellFormed canonical ignores paths reason s w
step-WellFormed {s} Step.configured w = config-WellFormed s w
step-WellFormed {s} (Step.glimpsed b) w = record {
  awake = w.awake;
  quiet = w.quiet;
  one_cycle = w.one_cycle;
  delay = w.delay;
  delays = w.delays;
}
step-WellFormed {s} (Step.shown b) w = shown-WellFormed b s w
step-WellFormed {s} Step.stopping w = stop-WellFormed s w
step-WellFormed {s} (Step.debounced can_apply e) w = debounce-WellFormed can_apply s w
step-WellFormed {s} (Step.retried n l) w = retry-WellFormed n s w
step-WellFormed {s} (Step.concluded c outcome e d) w = conclude-WellFormed c outcome s e w
step-WellFormed {s} (Step.ended c outcome end e d) w = end-WellFormed c outcome end s e w

-- In every state that the scheduler reaches, whatever happens in whatever order: the debounce timer is
-- armed only while it debounces or waits to rerun, never after a stop; a cycle is under way exactly in
-- the state `running`; and the retry delay and every armed retry lie between 5 and 60 seconds.
pub reachable-WellFormed : {s : Scheduler} → Reachable s → WellFormed s
reachable-WellFormed (Reachable.start visible) = record {
  awake = ground arith;
  quiet = λ e. refl;
  one_cycle = refl;
  delay = ground arith;
  delays = tt;
}
reachable-WellFormed (Reachable.next r step) = step-WellFormed step (reachable-WellFormed r)

-- Cycles never overlap: when the debounce timer fires, no cycle is under way.
pub debounced-no_cycle :
    {s : Scheduler} → Reachable s → is_some s.debounce_timer ≡ true → s.cycle ≡ none
debounced-no_cycle {s} r e =
    let w = reachable-WellFormed r in ground (arith, w.awake, w.one_cycle, e)
