-- ===== src/Scheduler/Machine/Ending.antt =====
-- The ends of a cycle of src/scheduler/scheduler.ts: what the handshake leaves, and `finishCycle`.
use mineral_obsidian_sync.Base.{
  ℕ, ◌*◌, min, String, Bool, true, false, not, ◌&&◌, ◌||◌, Option, none, some, List, [], ◌∷◌, ◌==◌,
  leb, if◌then◌else◌, str_eq, any,
}
use mineral_obsidian_sync.Base.Maps.{Map}
use mineral_obsidian_sync.Scheduler.Types.{
  ReconcileReason, local_event, editor_change, foreground_resume, config_change, remote_change,
  idle, blocked_by_auth, FailureClass, retryable, auth, ConfirmationOutcome,
}
use mineral_obsidian_sync.Scheduler.Machine.{
  PendingChange, Cycle, Scheduler, clear_debounce, clear_retry, delay_for, request_reconcile,
  retry_initial, retry_max, schedule_debounce, schedule_rerun,
}

-- What a cycle hands to `finishCycle`.
pub record CycleEnd : Type 0 where
  pub failure : Option FailureClass
  pub stale : Bool
  -- The keys whose change the executor itself had written and that still match.
  pub consumed : List String

-- The pruning of the dirty map: own writes, then all that the cycle started with.
abbrev pub prune_dirty : ℕ → List String → Map ℕ → Map ℕ
prune_dirty start consumed [] = []
prune_dirty start consumed ((key, version) ∷ rest) =
    let more = prune_dirty start consumed rest in
    if leb version start || any (λ k. str_eq k key) consumed then more else (key, version) ∷ more

abbrev is_local_reason : Option ReconcileReason → Bool
is_local_reason (some local_event) = true
is_local_reason (some editor_change) = true
is_local_reason _ = false

abbrev is_mismatch : ConfirmationOutcome → Bool
is_mismatch (ConfirmationOutcome.mismatch _ _) = true
is_mismatch _ = false

abbrev pub is_confirmed : ConfirmationOutcome → Bool
is_confirmed (ConfirmationOutcome.confirmed _) = true
is_confirmed _ = false

abbrev or_mismatch : Option ReconcileReason → Bool → Option ReconcileReason
or_mismatch (some reason) mismatch = some reason
or_mismatch none mismatch = if mismatch then some remote_change else none

-- `remoteRerun`
abbrev pub remote_rerun : Scheduler → ConfirmationOutcome → Option ReconcileReason
remote_rerun s outcome =
    or_mismatch
      (if s.rerun_requested && not (is_local_reason s.rerun_reason) then s.rerun_reason else none)
      (is_mismatch outcome)

abbrev pub is_auth : Option FailureClass → Bool
is_auth (some auth) = true
is_auth _ = false

abbrev pub is_retryable : Option FailureClass → Bool
is_retryable (some retryable) = true
is_retryable _ = false

abbrev pub is_resume : Option ReconcileReason → Bool
is_resume (some foreground_resume) = true
is_resume _ = false

abbrev pub is_pending {ℓ} : {A : Type ℓ} → List A → Bool
is_pending [] = false
is_pending (_ ∷ _) = true

abbrev pub rerun_at : ℕ → ReconcileReason → Scheduler → Scheduler
rerun_at delay reason s = schedule_debounce delay (record s { pending_reason = some reason })

-- Where no rerun is queued.
unfoldable pub settle : Option FailureClass → (stale : Bool) → Scheduler → Scheduler
settle failure was_stale s =
    if is_retryable failure
    then record s {
      state = idle;
      retry_delay = min retry_max (s.retry_delay * 2);
      retry_timers = s.retry_delay ∷ s.retry_timers;
      has_retry_handle = true;
    }
    else let calm = record s { retry_delay = retry_initial } in
      if was_stale then rerun_at 0 ReconcileReason.stale calm else record calm { state = idle }

unfoldable pub rerun_or_settle :
    Option ReconcileReason → Option FailureClass → Bool → Scheduler → Scheduler
unfolding settle delay_for
rerun_or_settle (some reason) failure was_stale s = rerun_at (delay_for reason) reason s
rerun_or_settle none failure was_stale s = settle failure was_stale s

-- `finishCycle`
unfoldable pub finish_cycle :
    (generation : ℕ)
    → Option FailureClass
    → (stale local_dirty : Bool) → (rerun_reason : Option ReconcileReason) → Scheduler
    → Scheduler
unfolding rerun_or_settle request_reconcile
finish_cycle generation failure was_stale local_dirty rerun_reason s =
    if s.stopped
    then record s { state = idle }
    else if not (s.config_generation == generation)
    then request_reconcile config_change (record s { state = idle })
    else if is_auth failure
    then record (clear_retry (clear_debounce s)) { state = blocked_by_auth }
    else if not s.visible
    then record s { state = idle }
    else if is_resume rerun_reason
    then rerun_at 0 foreground_resume s
    else if is_pending s.pending_remote_changes && not (is_retryable failure)
    then rerun_at 0 remote_change s
    else if local_dirty
    then schedule_rerun
        (record s { retry_delay = retry_initial; pending_reason = some local_event })
    else rerun_or_settle rerun_reason failure was_stale s

-- What the outcome makes of the trust in the last observation and of the queued deltas.
abbrev after_outcome : Option PendingChange → ConfirmationOutcome → Scheduler → Scheduler
after_outcome none (ConfirmationOutcome.confirmed _) s = record s {
  incremental_state_trusted = true;
  pending_remote_changes = [];
}
after_outcome none outcome s = s
after_outcome (some taken) (ConfirmationOutcome.confirmed _) s = s
after_outcome (some taken) outcome s = record s {
  pending_remote_changes = taken ∷ s.pending_remote_changes;
}

-- The handshake of the cycle is over; its hooks are still to come.
unfoldable pub conclude : Cycle → ConfirmationOutcome → Scheduler → Scheduler
conclude c outcome s = record (after_outcome c.incremental outcome s) {
  cycle = some (record c { outcome = some outcome });
}

-- The end of `runCycle`: the pruning of the dirty map and `finishCycle`.
unfoldable pub end_cycle : Cycle → ConfirmationOutcome → CycleEnd → Scheduler → Scheduler
unfolding finish_cycle
end_cycle c outcome end s =
    let dirty = prune_dirty c.start_version end.consumed s.dirty in
    finish_cycle c.generation end.failure end.stale (is_pending dirty) (remote_rerun s outcome)
      (record s { dirty = dirty; cycle = none })
