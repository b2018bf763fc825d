-- ===== src/Scheduler/Cycle.antt =====
-- One reconciliation cycle of src/scheduler/scheduler.ts: its batches, its tally, and the generation
-- that it may confirm.
pub mod Windows
pub mod Batches
use mineral_obsidian_sync.Base.{
  ℕ, ◌+◌, String, Bool, true, false, not, ◌&&◌, ◌||◌, Option, none, some, List, [], ◌∷◌, ◌++◌, ◌==◌,
  ltb, if◌then◌else◌, str_eq, any, length, is_some,
}
use mineral_obsidian_sync.Sync.Types.{SyncOperation, op_key}
use mineral_obsidian_sync.Executor.Result.{OperationResult}
use mineral_obsidian_sync.Scheduler.Types.{
  FailureClass, retryable, stable, auth, CycleRemoteMutation, CycleResult, result, ResultCounts,
  RemoteChange, LandedWrite, ConfirmationOutcome, RemoteGenerationHandshake,
}
use mineral_obsidian_sync.Scheduler.Results.{
  classify, observe_remote_mutation, remote_change_for_operation, landed_write_for_operation,
}

-- `emptyCounts`
abbrev pub empty_counts : ResultCounts
empty_counts = record {
  applied = 0;
  stale = 0;
  failed = 0;
  unresolved = 0;
  blocked = 0;
  partial = 0;
  conflict = 0;
  noop = 0;
}

-- `counts[result.status]++`
abbrev pub count : ResultCounts → CycleResult → ResultCounts
count c (result (OperationResult.applied _ _ _ _ _)) = record c { applied = c.applied + 1 }
count c (result (OperationResult.stale _ _)) = record c { stale = c.stale + 1 }
count c (result (OperationResult.failed _ _ _ _)) = record c { failed = c.failed + 1 }
count c (result (OperationResult.unresolved _ _ _ _ _)) = record c { unresolved = c.unresolved + 1 }
count c (result (OperationResult.blocked _ _)) = record c { blocked = c.blocked + 1 }
count c (result (OperationResult.partial _ _ _ _)) = record c { partial = c.partial + 1 }
count c CycleResult.conflict = record c { conflict = c.conflict + 1 }
count c CycleResult.noop = record c { noop = c.noop + 1 }

-- The variables that the operation loop updates.
pub record Tally : Type 0 where
  pub counts : ResultCounts
  pub failure : Option FailureClass
  pub stale : Bool
  pub halted : Bool
  pub remote_mutation : Option CycleRemoteMutation
  pub remote_changes : List RemoteChange
  pub landed_mutations : List LandedWrite

abbrev pub empty_tally : Tally
empty_tally = record {
  counts = empty_counts;
  failure = none;
  stale = false;
  halted = false;
  remote_mutation = none;
  remote_changes = [];
  landed_mutations = [];
}

-- `result.status === "stale" || result.status === "partial"`
abbrev pub is_shortfall : CycleResult → Bool
is_shortfall (result (OperationResult.stale _ _)) = true
is_shortfall (result (OperationResult.partial _ _ _ _)) = true
is_shortfall _ = false

abbrev is_auth : Option FailureClass → Bool
is_auth (some auth) = true
is_auth _ = false

-- What the classification of one result makes of the cycle's failure.
abbrev pub next_failure : Option FailureClass → Option FailureClass → Option FailureClass
next_failure failure (some auth) = some auth
next_failure (some auth) (some retryable) = some auth
next_failure failure (some retryable) = some retryable
next_failure none (some stable) = some stable
next_failure failure _ = failure

abbrev next_mutation :
    Option CycleRemoteMutation → Option CycleRemoteMutation → Option CycleRemoteMutation
next_mutation known (some CycleRemoteMutation.confirmed) = some CycleRemoteMutation.confirmed
next_mutation (some CycleRemoteMutation.confirmed) (some CycleRemoteMutation.possible) =
    some CycleRemoteMutation.confirmed
next_mutation known (some CycleRemoteMutation.possible) = some CycleRemoteMutation.possible
next_mutation known none = known

abbrev push {ℓ} : {A : Type ℓ} → List A → Option A → List A
push xs none = xs
push xs (some x) = xs ++ (x ∷ [])

abbrev if_mutated {ℓ} : {A : Type ℓ} → Option CycleRemoteMutation → Option A → Option A
if_mutated none x = none
if_mutated (some _) x = x

abbrev if_confirmed {ℓ} : {A : Type ℓ} → Option CycleRemoteMutation → Option A → Option A
if_confirmed (some CycleRemoteMutation.confirmed) x = x
if_confirmed _ x = none

-- The body of the loop over one batch's results.
unfoldable pub account : Tally → SyncOperation × CycleResult → Tally
account t (operation, r) =
    let mutation = observe_remote_mutation operation r in
    record {
      counts = count t.counts r;
      failure = next_failure t.failure (classify r);
      stale = t.stale || is_shortfall r;
      halted = t.halted || is_auth (classify r);
      remote_mutation = next_mutation t.remote_mutation mutation;
      remote_changes =
          push t.remote_changes (if_mutated mutation (remote_change_for_operation operation r));
      landed_mutations =
          push t.landed_mutations (if_confirmed mutation (landed_write_for_operation operation r));
    }

unfoldable pub account_all : Tally → List (SyncOperation × CycleResult) → Tally
account_all t [] = t
account_all t (x ∷ xs) = account_all (account t x) xs

abbrev pub halt : Tally → Tally
halt t = record t { halted = true }

-- One round of the operation loop: what `shouldStop` answered before and after the batch.
pub record Round : Type 0 where
  pub stop_before : Bool
  pub results : List (SyncOperation × CycleResult)
  pub stop_after : Bool

unfoldable pub run_rounds : Tally → List Round → Tally
unfolding account_all
run_rounds t [] = t
run_rounds t (round ∷ rounds) =
    let done = account_all t round.results in
    let rest = run_rounds done rounds in
    if round.stop_before
    then halt t
    else if round.stop_after
    then halt done
    else if done.halted
    then done
    else rest

-- `incompleteWindowReason`
unfoldable pub incomplete_window_reason : ResultCounts → (stale halted : Bool) → String
incomplete_window_reason c stale halted =
    if halted
    then "halted"
    else if stale
    then "stale"
    else if ltb 0 c.unresolved
    then "unresolved"
    else if ltb 0 c.partial
    then "partial-landing-unknown"
    else "complete"

unfoldable pub is_remote_observation_complete : ResultCounts → (stale halted : Bool) → Bool
unfolding incomplete_window_reason
is_remote_observation_complete c stale halted =
    str_eq (incomplete_window_reason c stale halted) "complete"

-- The end of `confirmGeneration`: `end` is what the Gateway answered, if it answered.
abbrev close_window : String → Option String → ConfirmationOutcome
close_window start none = ConfirmationOutcome.notify_failed
close_window start (some end) =
    if not (str_eq end start)
    then ConfirmationOutcome.mismatch start end
    else ConfirmationOutcome.confirmed start

confirm_from : Option String → (start_failed : Bool) → Tally → Option String → ConfirmationOutcome
confirm_from none true t end = ConfirmationOutcome.start_unavailable
confirm_from none false t end = ConfirmationOutcome.not_requested
confirm_from (some start) failed t end =
    if is_remote_observation_complete t.counts t.stale t.halted
    then close_window start end
    else ConfirmationOutcome.observation_incomplete

unfoldable pub confirm_generation :
    (has_remote : Bool)
    → RemoteGenerationHandshake
    → Tally
    → (end : Option String) → ConfirmationOutcome
unfolding confirm_from
confirm_generation has_remote handshake t end =
    if has_remote
    then confirm_from handshake.start handshake.start_failed t end
    else ConfirmationOutcome.not_requested

-- `applyConfirmationFailure`
unfoldable pub apply_confirmation_failure :
    ConfirmationOutcome → Option FailureClass → Option FailureClass
apply_confirmation_failure ConfirmationOutcome.notify_failed none = some retryable
apply_confirmation_failure ConfirmationOutcome.start_unavailable none = some retryable
apply_confirmation_failure outcome failure = failure

-- The operations of the next batch and those that remain: ordinary remote deletions overlap, up to
-- the concurrency limit, as long as their keys differ.
abbrev pub is_delete_remote : SyncOperation → Bool
is_delete_remote (SyncOperation.delete_remote _ _ _) = true
is_delete_remote _ = false

unfoldable pub fill_batch :
    ℕ → List SyncOperation → List SyncOperation → List SyncOperation × List SyncOperation
fill_batch limit batch [] = (batch, [])
fill_batch limit batch (op ∷ rest) =
    let more = fill_batch limit (batch ++ (op ∷ [])) rest in
    if ltb (length batch) limit
      && is_delete_remote op
      && not (any (λ b. str_eq (op_key b) (op_key op)) batch)
    then more
    else (batch, op ∷ rest)

unfoldable pub next_batch :
    ℕ → SyncOperation → List SyncOperation → List SyncOperation × List SyncOperation
unfolding fill_batch
next_batch limit op rest =
    if is_delete_remote op then fill_batch limit (op ∷ []) rest else (op ∷ [], rest)
