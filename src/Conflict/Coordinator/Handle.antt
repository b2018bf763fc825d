-- ===== src/Conflict/Coordinator/Handle.antt =====
-- `handleConflicts`, `refreshValidIntents` and the calls of the interface of
-- src/conflict/coordinator.ts.
use mineral_obsidian_sync.Base.{
  String, Bool, true, false, not, Option, none, some, List, [], ◌∷◌, ◌++◌, any, map, is_nonempty,
  str_eq, str_mem, keep, if◌then◌else◌, opt_str_eq,
}
use mineral_obsidian_sync.Base.Maps.{Map, lookup, insert, erase}
use mineral_obsidian_sync.Sync.Planner.{ResolutionProposal}
use mineral_obsidian_sync.Remote.Client.{Try, ok, raised, other}
use mineral_obsidian_sync.Conflict.Types.{ConflictRecord, ResolutionIntent, is_auto_resolved}
use mineral_obsidian_sync.Conflict.Stores.{
  by_conflict, by_intent, put, remove_all, list_all, reconcile,
}
use mineral_obsidian_sync.Conflict.Coordinator.{
  Env, Coordinator, ReconcileReason, auto_merge, manual_resolution, ConflictDetectionInput, tick,
  request, identity_of,
}
use mineral_obsidian_sync.Conflict.Coordinator.Inspect.{inspect}

-- `new Map(conflicts.map((conflict) => [conflict.key, conflict]))`
unfoldable pub observations_of : List ConflictDetectionInput → Map ConflictDetectionInput
observations_of conflicts = from conflicts []
  where
    from : List ConflictDetectionInput → Map ConflictDetectionInput → Map ConflictDetectionInput
    from [] m = m
    from (i ∷ rest) m = from rest (insert i.key i m)

abbrev pub proposal_of : ResolutionIntent → ResolutionProposal
proposal_of i = record { conflict_id = i.conflict_id; type = i.type; merged_content = i.merged }

-- `resolutions()`
unfoldable pub resolutions : Coordinator → Map ResolutionProposal
resolutions c = map (λ (path, intent). (path, proposal_of intent)) c.active

module _ (E : Env) where
  -- `safePutConflict`
  unfoldable pub safe_put_conflict : ConflictRecord → Coordinator → Coordinator
  unfolding put
  safe_put_conflict r c =
      if E.fails c.calls
      then tick c
      else record (tick c) { conflicts = put by_conflict r c.conflicts }

  -- What the loop of `handleConflicts` collects.
  abbrev pub Progress : Type 0
  Progress = Map String × Bool × Coordinator

  unfoldable pub note_record : ConflictRecord → Map String → Bool → Coordinator → Progress
  unfolding safe_put_conflict is_auto_resolved
  note_record r active follow_up c =
      let known = insert r.path r.conflict_id active in
      if is_auto_resolved r.auto_merge_status
      then (known, true, safe_put_conflict r c)
      else if str_mem r.conflict_id c.attempted
      then (known, follow_up, safe_put_conflict r c)
      else (known, true, safe_put_conflict r (record c { attempted = r.conflict_id ∷ c.attempted }))

  abbrev pub note_option : Option ConflictRecord → Map String → Bool → Coordinator → Progress
  note_option none active follow_up c = (active, follow_up, c)
  note_option (some r) active follow_up c = note_record r active follow_up c

  unfoldable pub examine : List ConflictDetectionInput → Progress → Progress
  unfolding note_record inspect
  examine [] p = p
  examine (i ∷ rest) (active, follow_up, c) =
      let (found, after) = inspect E i c in examine rest (note_option found active follow_up after)

  -- `intents()`
  unfoldable pub stored_intents : Coordinator → List ResolutionIntent
  unfolding list_all
  stored_intents c = if E.fails c.calls then [] else list_all by_intent c.channel c.intents

  -- One round of the loop of `refreshValidIntents`: the valid intents by path, and the identities of the
  -- stale ones.
  unfoldable pub sift :
      (channel : String)
      → ResolutionIntent
      → Option ConflictDetectionInput
      → Map ResolutionIntent × List String
      → Map ResolutionIntent × List String
  unfolding identity_of
  sift channel intent none sorted = sorted
  sift channel intent (some i) (valid, stale) =
      if str_eq (identity_of E channel i) intent.conflict_id
      then (insert intent.path intent valid, stale)
      else (valid, stale ++ (intent.conflict_id ∷ []))

  unfoldable pub sort_out :
      (channel : String)
      → Map ConflictDetectionInput
      → List ResolutionIntent
      → Map ResolutionIntent × List String
      → Map ResolutionIntent × List String
  unfolding sift
  sort_out channel observed [] sorted = sorted
  sort_out channel observed (intent ∷ rest) sorted =
      sort_out channel observed rest (sift channel intent (lookup intent.path observed) sorted)

  abbrev id_at : String → Map ResolutionIntent → Option String
  id_at path m = elim (lookup path m) [ none ↦ none | some i ↦ some i.conflict_id ]

  unfoldable pub became_valid : (before after : Map ResolutionIntent) → Bool
  became_valid before after =
      any (λ (path, intent). not (opt_str_eq (id_at path before) (some intent.conflict_id))) after

  -- The removal of stale proposals, which may fail.
  unfoldable pub remove_stale : List String → Coordinator → Coordinator
  unfolding remove_all
  remove_stale [] c = c
  remove_stale (id ∷ ids) c =
      if E.fails c.calls
      then tick c
      else record (tick c) { intents = remove_all by_intent c.channel (id ∷ ids) c.intents }

  unfoldable pub refresh_valid_intents :
      Map ConflictDetectionInput → Coordinator → Bool × Coordinator
  unfolding stored_intents sort_out became_valid remove_stale
  refresh_valid_intents observed c =
      if not (is_nonempty c.channel)
      then (false, record c { active = [] })
      else let (valid, stale) = sort_out c.channel observed (stored_intents c) ([], []) in
        (became_valid c.active valid, remove_stale stale (record (tick c) { active = valid }))

  -- `conflicts.reconcile`
  unfoldable pub reconcile_store : Map String → Coordinator → Coordinator
  unfolding reconcile
  reconcile_store active c =
      if E.fails c.calls
      then tick c
      else record (tick c) { conflicts = reconcile c.channel active c.conflicts }

  unfoldable pub handle_conflicts : List ConflictDetectionInput → Coordinator → Coordinator
  unfolding examine reconcile_store refresh_valid_intents observations_of
  handle_conflicts conflicts c =
      if not (is_nonempty c.channel)
      then c
      else let (active, follow_up, examined) = examine conflicts ([], false, c) in
        let (fresh, after) =
          refresh_valid_intents (observations_of conflicts) (reconcile_store active examined) in
        if follow_up
        then request auto_merge after
        else if fresh
        then request manual_resolution after
        else after

  -- A write that fails is the caller's to see.
  unfoldable pub propose :
      ResolutionIntent → ReconcileReason → Coordinator → Try (Unit {0}) × Coordinator
  unfolding put
  propose intent reason c =
      if E.fails c.calls
      then (raised (other "intent write failed"), tick c)
      else (ok tt, request reason (record (tick c) { intents = put by_intent intent c.intents }))

  -- The intent is removed only where the removal of the conflict succeeded.
  unfoldable pub clear : (conflict_id : String) → (path : String) → Coordinator → Coordinator
  unfolding remove_all erase
  clear conflict_id path c =
      let c1 = record c {
        active = if is_nonempty path then erase path c.active else c.active;
        attempted = keep (λ id. not (str_eq id conflict_id)) c.attempted;
      } in
      if E.fails c.calls
      then tick c1
      else let c2 = record (tick c1) {
        conflicts = remove_all by_conflict c.channel (conflict_id ∷ []) c.conflicts;
      } in
        if E.fails c2.calls then tick c2 else record (tick c2) {
          intents = remove_all by_intent c.channel (conflict_id ∷ []) c.intents;
        }
