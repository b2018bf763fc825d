-- ===== src/Tests/Plan.antt =====
-- Runs of the planner of src/sync/planner.ts.
use mineral_obsidian_sync.Base.{
  String, Bool, true, false, ◌≡◌, refl, none, some, List, [], ◌∷◌, ◌⊎◌,
}
use mineral_obsidian_sync.Base.Maps.{Map, lookup, keys}
use mineral_obsidian_sync.Base.Sorting.{distinct, sort}
use mineral_obsidian_sync.Sync.Types.{
  LocalEntry, RemoteEntry, PreviousEntry, SyncOperation, ExpectedRemote,
}
use mineral_obsidian_sync.Sync.Fingerprint.{local_changed, remote_changed}
use mineral_obsidian_sync.Sync.Planner.{
  ResolutionProposal, IntentType, plan_key, build_sync_plan, resolution_operation,
}
use mineral_obsidian_sync.Sync.Planner.Safety.{Justified}
use mineral_obsidian_sync.Sync.Planner.Table.{
  plan_key-verdict, plan_key-resolution, verdict, verdict_of, local_state, remote_state, conflict,
  IsResolutionFor,
}
use mineral_obsidian_sync.Sync.Planner.Plan.{build_sync_plan-Justified}

-- The order in which the maps list their keys.
abbrev as_listed : String → String → Bool
as_listed a b = true

abbrev note : LocalEntry
note = record { key = "a.md"; size = 3; mtime = 10 }

abbrev edited : LocalEntry
edited = record { key = "a.md"; size = 4; mtime = 12 }

abbrev object : RemoteEntry
object = record { key = "a.md"; size = 3; etag = some "e1"; last_modified = 7; deleted = none }

abbrev newer : RemoteEntry
newer = record { key = "a.md"; size = 3; etag = some "e2"; last_modified = 9; deleted = none }

abbrev synced : PreviousEntry
synced = record {
  key = "a.md";
  local_side = some (record { size = 3; mtime = 10; hash = none });
  remote_side = some (record { size = 3; etag = some "e1"; last_modified = none; hash = none });
  synced_at = 11;
  remote_identity = none;
  ignore_policy = none;
}

abbrev keep_mine : ResolutionProposal
keep_mine = record { conflict_id = "c1"; type = IntentType.keep_local; merged_content = none }

plan :
    Map LocalEntry
    → Map RemoteEntry
    → Map PreviousEntry
    → Map ResolutionProposal
    → List SyncOperation
unfolding build_sync_plan plan_key resolution_operation local_changed remote_changed lookup keys
    distinct sort
plan = build_sync_plan as_listed

abbrev upload_edit : SyncOperation
upload_edit =
    SyncOperation.upload "a.md" "local changed since previous successful sync" edited
      (ExpectedRemote.etag (some "e1"))

run_upload :
    plan (("a.md", edited) ∷ []) (("a.md", object) ∷ []) (("a.md", synced) ∷ []) []
    ≡ upload_edit ∷ []
unfolding plan
run_upload = refl

run_delete_local :
    plan (("a.md", note) ∷ []) [] (("a.md", synced) ∷ []) []
    ≡ SyncOperation.delete_local "a.md" "remote deletion since previous successful sync" note ∷ []
unfolding plan
run_delete_local = refl

run_resolution :
    plan
      (("a.md", edited) ∷ [])
      (("a.md", newer) ∷ [])
      (("a.md", synced) ∷ [])
      (("a.md", keep_mine) ∷ [])
    ≡ SyncOperation.resolve_keep_local "a.md"
        "user resolution (keep-local) for the observed conflict" "c1" edited
        (some "e2")
        false
      ∷ []
unfolding plan
run_resolution = refl

build_sync_plan-Justified_example :
    Justified upload_edit
      (lookup "a.md" (("a.md", edited) ∷ []))
      (lookup "a.md" (("a.md", object) ∷ []))
      (lookup "a.md" (("a.md", synced) ∷ []))
build_sync_plan-Justified_example =
    build_sync_plan-Justified as_listed (("a.md", edited) ∷ []) (("a.md", object) ∷ [])
      (("a.md", synced) ∷ []) [] "a.md" upload_edit (unfold plan in refl)

plan_key-verdict_example :
    verdict_of (plan_key "a.md" (some note) (some newer) (some synced) none)
    ≡ verdict true (local_state (some note) (some synced)) (remote_state (some newer) (some synced))
plan_key-verdict_example = plan_key-verdict "a.md" (some note) (some newer) (some synced)

plan_key-resolution_example :
    (plan_key "a.md" (some edited) (some newer) (some synced) (some keep_mine)
      ≡ plan_key "a.md" (some edited) (some newer) (some synced) none)
    ⊎ (IsResolutionFor "c1"
          (plan_key "a.md" (some edited) (some newer) (some synced) (some keep_mine))
        × (verdict_of (plan_key "a.md" (some edited) (some newer) (some synced) none) ≡ conflict))
plan_key-resolution_example =
    plan_key-resolution "a.md" (some edited) (some newer) (some synced) keep_mine
