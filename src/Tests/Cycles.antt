-- ===== src/Tests/Cycles.antt =====
-- Cycles of src/scheduler/scheduler.ts at concrete results and events.
use mineral_obsidian_sync.Base.{
  String, true, false, ◌≡◌, refl, Option, none, some, [], ◌∷◌, Memᴰ, arith,
}
use mineral_obsidian_sync.Sync.Types.{SyncOperation, ExpectedRemote, LocalEntry, RemoteVersion}
use mineral_obsidian_sync.Executor.Result.{OperationResult}
use mineral_obsidian_sync.Scheduler.Types.{
  manual, running, CycleResult, LandedWrite, ConfirmationOutcome, RemoteGenerationHandshake,
}
use mineral_obsidian_sync.Scheduler.Results.{landed_write_for_operation}
use mineral_obsidian_sync.Scheduler.Results.Facts.{IsFact, landed_write-IsFact}
use mineral_obsidian_sync.Scheduler.Cycle.{Round, next_batch}
use mineral_obsidian_sync.Scheduler.Machine.{Scheduler, Cycle, initial, request_reconcile}
use mineral_obsidian_sync.Scheduler.Machine.Ending.{CycleEnd, end_cycle}
use mineral_obsidian_sync.Scheduler.Machine.Steps.{Step, Reachable, WellFormed}
use mineral_obsidian_sync.Scheduler.Machine.Steps.Invariant.{reachable-WellFormed}
use mineral_obsidian_sync.Scheduler.Machine.Progress.{IsWoken, end_cycle-keeps_event}

abbrev note : LocalEntry
note = record { key = "a.md"; size = 3; mtime = 10 }

abbrev upload_note : SyncOperation
upload_note = SyncOperation.upload "a.md" "new local file" note ExpectedRemote.absent

abbrev version : RemoteVersion
version = record { size = 3; etag = some "e2"; last_modified = none }

abbrev uploaded : CycleResult
uploaded = CycleResult.result (OperationResult.applied "a.md" none (some version) none false)

abbrev delete_a : SyncOperation
delete_a = SyncOperation.delete_remote "a.md" "local deletion" (some "e1")

abbrev delete_b : SyncOperation
delete_b = SyncOperation.delete_remote "b.md" "local deletion" (some "e1")

abbrev round : Round
round = record { stop_before = false; results = (upload_note, uploaded) ∷ []; stop_after = false }

abbrev opened : RemoteGenerationHandshake
opened = record { start = some "7"; start_failed = false }

abbrev seven : Option String
seven = some "7"

next_batch_run :
    next_batch 4 delete_a (delete_b ∷ upload_note ∷ [])
    ≡ (delete_a ∷ delete_b ∷ [], upload_note ∷ [])
unfolding next_batch
next_batch_run = refl

landed_write-IsFact_example : IsFact upload_note uploaded (LandedWrite.put "a.md" "e2" 3)
unfolding landed_write_for_operation
landed_write-IsFact_example =
    landed_write-IsFact upload_note uploaded (LandedWrite.put "a.md" "e2" 3) refl

-- A manual request in the foreground, and the cycle that it starts.
abbrev requested : Scheduler
requested = request_reconcile manual (initial true)

abbrev reached : Reachable requested
reached = Reachable.next (Reachable.start true) (Step.requested manual)

reachable-WellFormed_example : WellFormed requested
reachable-WellFormed_example = reachable-WellFormed reached

abbrev first_cycle : Cycle
first_cycle = record {
  reason = manual;
  start_version = 0;
  generation = 0;
  incremental = none;
  outcome = some ConfirmationOutcome.not_requested;
}

-- A cycle is under way, and a note was edited since it began.
abbrev busy : Scheduler
busy = record (initial true) {
  state = running;
  sync_dirty_version = 1;
  dirty = ("a.md", 1) ∷ [];
  cycle = some first_cycle;
}

abbrev fine : CycleEnd
fine = record { failure = none; stale = false; consumed = [] }

end_cycle-keeps_event_example :
    Memᴰ ("a.md", 1) (end_cycle first_cycle ConfirmationOutcome.not_requested fine busy).dirty
    × IsWoken (end_cycle first_cycle ConfirmationOutcome.not_requested fine busy)
end_cycle-keeps_event_example =
    end_cycle-keeps_event first_cycle ConfirmationOutcome.not_requested fine busy "a.md" 1
      (Memᴰ.head refl) (omega arith) refl refl refl refl refl
