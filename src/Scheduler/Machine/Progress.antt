-- ===== src/Scheduler/Machine/Progress.antt =====
-- What the scheduler of src/scheduler/scheduler.ts does not lose and does not do.
use mineral_obsidian_sync.Base.{
  ℕ, ◌+◌, ◌*◌, min, ◌<◌, String, Bool, true, false, not, ◌&&◌, ◌||◌, ◌≡◌, refl, ap, sym, subst, ◌⊎◌,
  inl, inr, Option, none, some, List, [], ◌∷◌, Memᴰ, leb, ◌==◌, str_eq, any, is_some, if◌then◌else◌,
  arith,
}
use mineral_obsidian_sync.Base.Maps.{Map}
use mineral_obsidian_sync.Scheduler.Types.{
  ReconcileReason, blocked_by_auth, FailureClass, ConfirmationOutcome, RemoteChange,
}
use mineral_obsidian_sync.Scheduler.Machine.{
  Scheduler, Cycle, request_reconcile, request_remote_change, mark_local_paths, mark_keys,
  config_changed, visibility_changed, stop, debounce_fires, retry_fires,
}
use mineral_obsidian_sync.Scheduler.Machine.Ending.{
  CycleEnd, conclude, end_cycle, finish_cycle, settle, rerun_or_settle, is_auth, is_retryable,
  is_pending, prune_dirty,
}
use mineral_obsidian_sync.Scheduler.Machine.Steps.{Step, Reachable}
use mineral_obsidian_sync.Scheduler.Machine.Steps.Invariant.{reachable-WellFormed}

-- What is left to do after a cycle.
abbrev pub has_work :
    Option FailureClass → (stale local_dirty : Bool) → Option ReconcileReason → Scheduler → Bool
has_work failure was_stale local_dirty rerun s =
    local_dirty
    || is_some rerun
    || (not (is_retryable failure) && (was_stale || is_pending s.pending_remote_changes))

-- The scheduler is on its way to the next cycle.
abbrev pub IsWoken : Scheduler → Type 0
IsWoken s = (is_some s.debounce_timer ≡ true) × (is_some s.pending_reason ≡ true)

-- After a cycle under an unchanged configuration, in the foreground, without a stop or an
-- authentication failure: where work is left, the next cycle is scheduled at once.
pub finish_cycle-IsWoken :
    (generation : ℕ) (failure : Option FailureClass) (was_stale local_dirty : Bool)
    (rerun : Option ReconcileReason) (s : Scheduler)
    → s.stopped ≡ false
    → s.visible ≡ true
    → s.config_generation == generation ≡ true
    → is_auth failure ≡ false
    → has_work failure was_stale local_dirty rerun s ≡ true
    → IsWoken (finish_cycle generation failure was_stale local_dirty rerun s)
unfolding finish_cycle rerun_or_settle settle
finish_cycle-IsWoken generation failure was_stale local_dirty rerun s on seen same known work =
    ground arith

-- After a cycle under the same conditions that ended in a retryable failure and left no other work,
-- one retry is armed with the current delay, and the delay of the next one is doubled up to a minute.
pub finish_cycle-retry :
    (generation : ℕ) (was_stale : Bool) (s : Scheduler)
    → s.stopped ≡ false
    → s.visible ≡ true
    → s.config_generation == generation ≡ true
    → let t = finish_cycle generation (some FailureClass.retryable) was_stale false none s in
      (t.retry_timers ≡ s.retry_delay ∷ s.retry_timers)
      × (t.has_retry_handle ≡ true)
      × (t.retry_delay ≡ min 60000 (s.retry_delay * 2))
      × (t.debounce_timer ≡ s.debounce_timer)
unfolding finish_cycle rerun_or_settle settle
finish_cycle-retry generation was_stale s on seen same = ground arith

prune-Memᴰ :
    (start : ℕ) (consumed : List String) (dirty : Map ℕ) (key : String) (version : ℕ)
    → Memᴰ (key, version) dirty
    → start < version
    → any (λ k. str_eq k key) consumed ≡ false
    → Memᴰ (key, version) (prune_dirty start consumed dirty)
prune-Memᴰ start consumed [] key version m l c = elim m [ ]
prune-Memᴰ start consumed ((k, v) ∷ rest) key version (Memᴰ.head e) l c =
    here (ap (λ x. x.0) e) (ap (λ x. x.1) e)
  where
    stays :
        (b : Bool)
        → b ≡ false
        → Memᴰ
            (key, version)
            (if b
              then prune_dirty start consumed rest
              else (k, v) ∷ prune_dirty start consumed rest)
    stays true f = ground (arith, f)
    stays false f = Memᴰ.head e

    here : key ≡ k → version ≡ v → Memᴰ (key, version) (prune_dirty start consumed ((k, v) ∷ rest))
    here x y =
        stays (leb v start || any (λ k'. str_eq k' k) consumed)
          (rw (sym x) (rw (sym y) (ground (arith, l, c))))
prune-Memᴰ start consumed ((k, v) ∷ rest) key version (Memᴰ.tail m) l c =
    either (leb v start || any (λ k'. str_eq k' k) consumed)
      (prune-Memᴰ start consumed rest key version m l c)
  where
    either :
        (b : Bool)
        → Memᴰ (key, version) (prune_dirty start consumed rest)
        → Memᴰ
            (key, version)
            (if b
              then prune_dirty start consumed rest
              else (k, v) ∷ prune_dirty start consumed rest)
    either true n = n
    either false n = Memᴰ.tail n

finish_cycle-dirty :
    (generation : ℕ) (failure : Option FailureClass) (was_stale local_dirty : Bool)
    (rerun : Option ReconcileReason) (s : Scheduler)
    → (finish_cycle generation failure was_stale local_dirty rerun s).dirty ≡ s.dirty
unfolding finish_cycle rerun_or_settle settle request_reconcile
finish_cycle-dirty generation failure was_stale local_dirty rerun s = ground arith

pending-Memᴰ : {A : Type 0} (x : A) (xs : List A) → Memᴰ x xs → is_pending xs ≡ true
pending-Memᴰ x [] m = elim m [ ]
pending-Memᴰ x (y ∷ ys) m = refl

-- A change that was marked during a cycle and that the executor did not write itself is never
-- swallowed: after the cycle it is still dirty, and in the foreground, without a stop, a change of the
-- configuration or an authentication failure, the next cycle is scheduled.
pub end_cycle-keeps_event :
    (c : Cycle) (outcome : ConfirmationOutcome) (end : CycleEnd) (s : Scheduler) (key : String)
    (version : ℕ)
    → Memᴰ (key, version) s.dirty
    → c.start_version < version
    → any (λ k. str_eq k key) end.consumed ≡ false
    → s.stopped ≡ false
    → s.visible ≡ true
    → s.config_generation == c.generation ≡ true
    → is_auth end.failure ≡ false
    → Memᴰ (key, version) (end_cycle c outcome end s).dirty × IsWoken (end_cycle c outcome end s)
unfolding end_cycle
end_cycle-keeps_event c outcome end s key version m l u on seen same known =
    let kept = prune-Memᴰ c.start_version end.consumed s.dirty key version m l u in
    (
      subst (Memᴰ (key, version))
          (sym (finish_cycle-dirty c.generation end.failure end.stale _ _ _)) kept,
      finish_cycle-IsWoken c.generation end.failure end.stale _ _ _ on seen same known
          (ground (arith, pending-Memᴰ (key, version) _ kept)),
    )

-- A stopped scheduler, and one that began no cycle since `s`.
abbrev StillStopped : Scheduler → Scheduler → Type 0
StillStopped s t = (t.stopped ≡ true) × (s.cycle ≡ none → t.cycle ≡ none)

announce-stopped :
    (generation : String) (changes : List RemoteChange) (s : Scheduler)
    → s.stopped ≡ true
    → StillStopped s (request_remote_change generation changes s)
unfolding request_remote_change request_reconcile
announce-stopped generation [] s e = ground (arith, e)
announce-stopped generation (c ∷ cs) s e = ground (arith, e)

keys-stopped :
    (keys : List String) (reason : ReconcileReason) (s : Scheduler)
    → s.stopped ≡ true
    → StillStopped s (mark_keys keys reason s)
unfolding request_reconcile
keys-stopped [] reason s e = (e, λ n. n)
keys-stopped (key ∷ keys) reason s e = ground (arith, e)

shown-stopped :
    (b : Bool) (s : Scheduler) → s.stopped ≡ true → StillStopped s (visibility_changed b s)
unfolding visibility_changed request_reconcile
shown-stopped false s e = (e, λ n. n)
shown-stopped true s e = ground (arith, e)

conclude-stopped :
    (c : Cycle) (outcome : ConfirmationOutcome) (s : Scheduler)
    → s.cycle ≡ some c
    → s.stopped ≡ true
    → StillStopped s (conclude c outcome s)
unfolding conclude
conclude-stopped c outcome s d e = ground (arith, d, e)

-- After a stop nothing starts any more: no step begins a cycle, and none undoes the stop.
pub step-stopped :
    {s t : Scheduler}
    → Step s t
    → s.stopped ≡ true
    → (t.stopped ≡ true) × (s.cycle ≡ none → t.cycle ≡ none)
unfolding config_changed debounce_fires retry_fires end_cycle finish_cycle stop mark_local_paths
    request_reconcile
step-stopped {s} (Step.requested reason) e = ground (arith, e)
step-stopped {s} (Step.announced generation changes) e = announce-stopped generation changes s e
step-stopped {s} (Step.marked canonical ignores paths reason) e = keys-stopped _ reason s e
step-stopped {s} Step.configured e = ground (arith, e)
step-stopped {s} (Step.glimpsed b) e = (e, λ n. n)
step-stopped {s} (Step.shown b) e = shown-stopped b s e
step-stopped {s} Step.stopping e = (refl, λ n. n)
step-stopped {s} (Step.debounced can_apply d) e = ground (arith, e)
step-stopped {s} (Step.retried n l) e = ground (arith, e)
step-stopped {s} (Step.concluded c outcome d o) e = conclude-stopped c outcome s d e
step-stopped {s} (Step.ended c outcome end d o) e = ground (arith, e)

-- How an authentication block ends.
abbrev pub BlockEnds : Scheduler → Scheduler → Type 0
BlockEnds s t =
    (t.state ≡ blocked_by_auth)
    ⊎ (t.config_generation ≡ s.config_generation + 1)
    ⊎ (t.stopped ≡ true)

announce-blocked :
    (generation : String) (changes : List RemoteChange) (s : Scheduler)
    → s.state ≡ blocked_by_auth
    → (request_remote_change generation changes s).state ≡ blocked_by_auth
unfolding request_remote_change request_reconcile
announce-blocked generation [] s e = ground (arith, e)
announce-blocked generation (c ∷ cs) s e = ground (arith, e)

keys-blocked :
    (keys : List String) (reason : ReconcileReason) (s : Scheduler)
    → s.state ≡ blocked_by_auth
    → (mark_keys keys reason s).state ≡ blocked_by_auth
unfolding request_reconcile
keys-blocked [] reason s e = e
keys-blocked (key ∷ keys) reason s e = ground (arith, e)

shown-blocked :
    (b : Bool) (s : Scheduler)
    → s.state ≡ blocked_by_auth
    → (visibility_changed b s).state ≡ blocked_by_auth
unfolding visibility_changed request_reconcile
shown-blocked false s e = ground (arith, e)
shown-blocked true s e = ground (arith, e)

-- Once an authentication failure has blocked the scheduler, only a change of the configuration or a
-- stop ends the block: no event, timer or visibility change starts a cycle.
pub step-blocked :
    {s t : Scheduler}
    → Reachable s
    → Step s t
    → s.state ≡ blocked_by_auth
    → (t.state ≡ blocked_by_auth)
      ⊎ (t.config_generation ≡ s.config_generation + 1)
      ⊎ (t.stopped ≡ true)
unfolding config_changed debounce_fires retry_fires stop mark_local_paths request_reconcile conclude
step-blocked {s} r (Step.requested reason) e = inl (ground (arith, e))
step-blocked {s} r (Step.announced generation changes) e =
    inl (announce-blocked generation changes s e)
step-blocked {s} r (Step.marked canonical ignores paths reason) e = inl (keys-blocked _ reason s e)
step-blocked {s} r Step.configured e = inr (inl (ground (arith, e)))
step-blocked {s} r (Step.glimpsed b) e = inl e
step-blocked {s} r (Step.shown b) e = inl (shown-blocked b s e)
step-blocked {s} r Step.stopping e = inr (inr refl)
step-blocked {s} r (Step.debounced can_apply d) e = inl (ground (arith, e))
step-blocked {s} r (Step.retried n l) e = inl (ground (arith, e))
step-blocked {s} r (Step.concluded c outcome d o) e =
    let w = reachable-WellFormed r in ground (arith, w.one_cycle, d, e)
step-blocked {s} r (Step.ended c outcome end d o) e =
    let w = reachable-WellFormed r in ground (arith, w.one_cycle, d, e)
