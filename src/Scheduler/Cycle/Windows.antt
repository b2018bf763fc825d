-- ===== src/Scheduler/Cycle/Windows.antt =====
-- Which generations a cycle of src/scheduler/scheduler.ts may confirm.
use mineral_obsidian_sync.Base.{
  Bool, true, false, not, ◌&&◌, ◌≡◌, refl, ◌↔◌, All, str_eq, ltb, if◌then◌else◌, arith,
}
use mineral_obsidian_sync.Sync.Types.{SyncOperation}
use mineral_obsidian_sync.Executor.Result.{OperationResult}
use mineral_obsidian_sync.Scheduler.Types.{CycleResult, result, ResultCounts}
use mineral_obsidian_sync.Scheduler.Cycle.{
  Tally, Round, incomplete_window_reason, is_remote_observation_complete,
}

-- The result says what became of the remote object.
abbrev pub IsSettled : SyncOperation × CycleResult → Type 0
IsSettled (op, result (OperationResult.stale _ _)) = ⊥
IsSettled (op, result (OperationResult.partial _ _ _ _)) = ⊥
IsSettled (op, result (OperationResult.unresolved _ _ _ _ _)) = ⊥
IsSettled (op, _) = Unit

-- A round that `shouldStop` did not cut.
abbrev pub IsWhole : Round → Type 0
IsWhole round =
    (round.stop_before ≡ false) × (round.stop_after ≡ false) × All IsSettled round.results

-- What the loop has not found so far.
abbrev Untroubled : Tally → Type 0
Untroubled t = (t.stale ≡ false) × (t.counts.unresolved ≡ 0)

named :
    (h s u p : Bool)
    → str_eq
        (if h
          then "halted"
          else if s
          then "stale"
          else if u
          then "unresolved"
          else if p
          then "partial-landing-unknown"
          else "complete")
        "complete"
      ≡ (not h && not s && not u && not p)
named true s u p = refl
named false true u p = refl
named false false true p = refl
named false false false true = refl
named false false false false = refl

-- `isRemoteObservationComplete` holds exactly of a loop that ran to its end and found no result that
-- is `stale`, `unresolved` or `partial`.
pub complete_iff :
    (c : ResultCounts) (stale halted : Bool)
    → (is_remote_observation_complete c stale halted ≡ true)
      ↔ ((halted ≡ false) × (stale ≡ false) × (c.unresolved ≡ 0) × (c.partial ≡ 0))
unfolding is_remote_observation_complete incomplete_window_reason
complete_iff c stale halted =
    let same = named halted stale (ltb 0 c.unresolved) (ltb 0 c.partial) in
    (ground (arith, same), ground (arith, same))

-- The tally of a loop that was not halted.
abbrev Undisturbed : Tally → Type 0
Undisturbed t = Untroubled t × (t.halted ≡ false)
