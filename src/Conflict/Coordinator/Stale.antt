-- ===== src/Conflict/Coordinator/Stale.antt =====
-- What the plan of the next cycle makes of the proposals of src/conflict/coordinator.ts, which
-- src/main.ts hands to `buildSyncPlan` as they are.
use mineral_obsidian_sync.Base.{map}
use mineral_obsidian_sync.Base.Maps.{Map}
use mineral_obsidian_sync.Sync.Planner.{ResolutionProposal}
use mineral_obsidian_sync.Conflict.Types.{ResolutionIntent}
use mineral_obsidian_sync.Conflict.Coordinator.{Coordinator}
use mineral_obsidian_sync.Conflict.Coordinator.Handle.{proposal_of}

abbrev proposals : Map ResolutionIntent → Map ResolutionProposal
proposals m = map (λ (path, intent). (path, proposal_of intent)) m
