-- ===== src/Lib.antt =====
-- Verification library of the Obsidian sync plugin (src/ of the repository), which keeps a Vault and
-- an R2 bucket in step.
--
-- The program observes both sides, plans one operation for each key from the two observations and the
-- remembered baseline (src/sync/planner.ts), executes the operations one by one with conditional
-- requests and commits the baseline of each (src/sync/executor.ts), and repeats this when events, timers
-- or announcements ask for it (src/scheduler/scheduler.ts). Conflicts in text are merged over a
-- snapshot of the base (src/sync/merge.ts).
--
-- Which file models what:
--   Sync/Types           the data of src/sync/types.ts
--   Sync/Fingerprint     localChanged and remoteChanged of src/sync/fingerprint.ts
--   Sync/Planner         buildSyncPlan of src/sync/planner.ts: plan_key is one round of its loop
--   Sync/Merge           threeWayMerge of src/sync/merge.ts, from the ranges of the diff on; Region
--                        has the conflict region and the draft
--   Sync/Text            the line model and the shape step of the encoders of src/sync/text.ts
--   Sync/RemoteDelta     observeLocalDelta and findLogicallyDeleted of src/sync/remote-delta.ts;
--                        Announced has observeRemoteDelta
--   Bootstrap            src/bootstrap/bootstrap.ts
--   Remote/Scan          src/remote/scan-remote.ts
--   Remote/Retention     src/remote/tombstone-retention.ts
--   Gateway/Ingress      the reporter of src/gateway/mutation-ingress.ts
--   Gateway/Client       src/gateway/client.ts: the handlers of the client, split where they wait;
--                        Replies has its requests, Steps the relation of all that may happen
--   Conflict/Handoff     src/conflict/handoff.ts, on the code units of Conflict/Units
--   Conflict/Identity    src/conflict/identity.ts; Conflict/Decimal has the printing of numbers
--   Conflict/Types       src/conflict/types.ts
--   Conflict/Stores      the stores in memory of src/conflict/stores.ts
--   Conflict/MergeBase   src/conflict/merge-base.ts
--   Conflict/Coordinator src/conflict/coordinator.ts: Inspect is inspect, Handle the rest
--   Remote/Client        what responses mean, from src/remote/r2-client.ts and src/remote/errors.ts
--   Local/Reading        src/local/read-local.ts
--   Local/Folders        src/local/ensure-folders.ts
--   Local/Drift          src/scheduler/mobile-local-drift.ts and src/local/android-editor-save.ts
--   Executor             src/sync/executor.ts: Effects is the log of its calls, Steps its helpers,
--                        Transfers, Downloads, Deletes and Resolutions its operations, Execute the
--                        dispatch; Triples and Calls are the rules for reasoning about the log
--   Scheduler/Results    what src/scheduler/scheduler.ts concludes from one result
--   Scheduler/Cycle      the tally of a cycle, its batches, and the generation that it may confirm
--   Scheduler/Machine    the handlers and the timers; Ending has the two ends of a cycle; Steps is the
--                        relation of all that may happen, in any order
--   History/Retention    src/history/retention.ts: the entries that leave the sync history
--   Base                 shared names, lists over native numbers, association lists, sorting
--   Tests                runs at concrete data, and the theorems at inputs that meet their hypotheses
--
-- How stateful code is modelled. A function of the executor is a function from the log of all calls so
-- far to its outcome, a value or a throw, and the longer log. The answers of the Vault, R2, the baseline
-- store, the recovery library, the clock and the digest are those of an environment (Executor/Effects,
-- Env), an arbitrary function of the log: so files and objects may change between any two calls, and a
-- theorem about all environments holds for all interleavings with other writers. The scheduler is a
-- record with one function for each handler; a cycle that is under way is a field of it, so that
-- handlers may run between its start, the conclusion of its handshake and its end. The I/O of a cycle
-- enters as the results of its operations and the answers of `shouldStop`. The gateway client is such a
-- record too: a handler that waits for a ticket or for the stored cursor is two functions, and what is
-- under way between them is a field. The coordinator's stores fail or not by an arbitrary function of
-- the number of calls so far.
--
-- Bounds. Sizes, times and counters are natural numbers without a bound; every function recurs on its
-- list, except the waves of the mutation journal, which take the number of queued facts as fuel: each
-- wave sends at least one.
--
-- Parameters: the order of localeCompare in the planner, the ranges of node-diff3 in the merge, and
-- canonicalKey with the ignore rules in markLocalPaths; the answers of R2, of the Vault and of the
-- journal in the passes that read them once; the digest, the lower case and the text of code units
-- in the coordinator; the cursor functions of the library @mineral/sync-core in the gateway client.
-- The executor's optional dependencies are Boolean fields of the environment; that R2Client has
-- verifyObjectVersion is taken for granted, as its one implementation has it. Promise.all over
-- deletions is modelled in the order of the list, the two ways in which recovery changes are
-- announced as one call. Debug lines and status callbacks are left out.
--
-- Not modelled: the recovery operations that only forward to the recovery library, listings and XML,
-- the transports, the stores over IndexedDB, ignore rules, and the user interface.
pub mod Base
pub mod Bootstrap
pub mod Conflict
pub mod Executor
pub mod Gateway
pub mod History
pub mod Local
pub mod Remote
pub mod Scheduler
pub mod Sync
pub mod Tests
