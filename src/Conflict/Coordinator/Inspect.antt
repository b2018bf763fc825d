-- ===== src/Conflict/Coordinator/Inspect.antt =====
-- `inspect` of src/conflict/coordinator.ts: the record of one conflict, with an automatic merge where a
-- snapshot of exactly this baseline is at hand.
use mineral_obsidian_sync.Base.{
  ℕ, ◌*◌, String, Bool, true, false, not, ◌&&◌, ◌||◌, Option, none, some, List, [], ◌∷◌, ltb, any,
  is_some, if◌then◌else◌,
}
use mineral_obsidian_sync.Sync.Types.{
  LocalEntry, RemoteEntry, PreviousEntry, RemoteDeletionIdentity,
}
use mineral_obsidian_sync.Sync.Planner.{merged}
use mineral_obsidian_sync.Sync.Text.{preferred_shape}
use mineral_obsidian_sync.Sync.Merge.Region.{
  DecodedText, ThreeWayMergeResult, conflict, merge_texts,
}
use mineral_obsidian_sync.Remote.Client.{Error, Try, ok, raised}
use mineral_obsidian_sync.Remote.Client
use mineral_obsidian_sync.Conflict.Units.{Units, units, starts_with}
use mineral_obsidian_sync.Conflict.Handoff.{
  DivergenceInput, DivergenceDecision, DivergenceClass, ChangeStats, Deltas, classify_divergence,
}
use mineral_obsidian_sync.Conflict.Identity.{baseline_matches, baseline_etag, entry_etag}
use mineral_obsidian_sync.Conflict.Types.{
  MergeBaseRecord, ConflictRecord, ConflictReason, AutoMergeStatus, HandoffEvidence, Snapshot,
  ResolutionIntent, Origin,
}
use mineral_obsidian_sync.Conflict.Stores.{by_path, by_intent, get, put}
use mineral_obsidian_sync.Conflict.Coordinator.{
  Env, Coordinator, ConflictDetectionInput, tick, identity_of,
}
use mathlib.Core.List.{reverse}

-- Bytes.
abbrev pub max_mergeable_bytes : ℕ
max_mergeable_bytes = 1024 * 1024

abbrev pub mergeable_extensions : List String
mergeable_extensions = ".md" ∷ ".markdown" ∷ ".mdx" ∷ ".txt" ∷ []

abbrev pub ends_with : (text suffix : Units) → Bool
ends_with text suffix = starts_with (reverse text) (reverse suffix)

unfoldable pub is_mergeable_path : Env → String → Bool
unfolding starts_with units
is_mergeable_path E path =
    any (λ extension. ends_with (units (E.lower_case path)) (units extension)) mergeable_extensions

abbrev no_snapshot : Snapshot
no_snapshot = record {
  here = none;
  there = none;
  base = none;
  draft = none;
  base_available = false;
}

abbrev recorded_local : String → PreviousEntry → Option LocalEntry → Option LocalEntry
recorded_local key p here = elim p.local_side [
  | none ↦ here
  | some b ↦ some (record { key = key; size = b.size; mtime = b.mtime })
]

-- The record before anything is decided.
abbrev pub base_record :
    (conflict_id channel : String)
    → (detected_at : ℕ) → ConflictDetectionInput
    → PreviousEntry
    → ConflictRecord
base_record conflict_id channel detected_at i p = record {
  conflict_id = conflict_id;
  channel = channel;
  path = i.key;
  previous_local = recorded_local i.key p i.observed_local;
  previous_etag = baseline_etag p.remote_side;
  observed_local = i.observed_local;
  observed_remote_etag = entry_etag i.observed_remote;
  observed_remote_deletion = i.observed_remote_deletion;
  detected_at = detected_at;
  auto_merge_status = AutoMergeStatus.not_attempted;
  reason = none;
  evidence = none;
  snapshot = no_snapshot;
}

abbrev closed : AutoMergeStatus → ConflictReason → ConflictRecord → ConflictRecord
closed status reason r = record r { auto_merge_status = status; reason = some reason }

abbrev deltas_here : Option Deltas → ℕ
deltas_here none = 0
deltas_here (some d) = d.here

abbrev deltas_there : Option Deltas → ℕ
deltas_there none = 0
deltas_there (some d) = d.there

abbrev is_clean : DivergenceClass → Bool
is_clean DivergenceClass.clean = true
is_clean _ = false

abbrev evidence_of : DivergenceDecision → Option ChangeStats → Option HandoffEvidence
evidence_of d none = none
evidence_of d (some stats) =
    if is_clean d.class
    then none
    else some (record {
      reason = d.reason;
      branch_separation_ms = d.branch_separation_ms;
      branch_age_ms = d.branch_age_ms;
      local_delta_bytes = deltas_here d.deltas;
      remote_delta_bytes = deltas_there d.deltas;
      hunk_count = stats.hunk_count;
      order = d.order;
    })

abbrev draft_units : ThreeWayMergeResult → Option Units
draft_units (conflict hunks draft shape) = some (units draft)
draft_units _ = none

abbrev pub settled_status : DivergenceClass → AutoMergeStatus
settled_status DivergenceClass.clean = AutoMergeStatus.clean
settled_status DivergenceClass.handoff = AutoMergeStatus.handoff
settled_status DivergenceClass.manual = AutoMergeStatus.manual_required

abbrev read_error : Error → ConflictReason
read_error Client.remote_object_changed = ConflictReason.remote_moved
read_error (Client.remote_http operation status) = ConflictReason.remote_status status
read_error _ = ConflictReason.remote_unreadable

-- The texts that a decision is made on.
pub record Sides : Type 0 where
  pub base : MergeBaseRecord
  pub here : DecodedText
  pub there : DecodedText

-- The proposal that a settled divergence becomes.
abbrev pub intent_of :
    Env → ConflictRecord → LocalEntry → Option String → Sides → ℕ → Units → ResolutionIntent
intent_of E r here etag sides created text = record {
  conflict_id = r.conflict_id;
  channel = r.channel;
  path = r.path;
  type = merged;
  expected_local_version = some here;
  expected_remote_etag = etag;
  expected_remote_deletion = none;
  created_at = created;
  origin = some Origin.auto;
  merged = some (record {
    content = E.text_of text;
    sha256 = E.sha256_hex text;
    encoding =
        preferred_shape (some sides.here.shape) (some sides.there.shape) (some sides.base.encoding);
  });
}

module _ (E : Env) where
  abbrev undecided : ConflictRecord → DivergenceDecision → Sides → ConflictReason → ConflictRecord
  undecided r d sides reason = record r {
    auto_merge_status = AutoMergeStatus.manual_required;
    reason = some reason;
    snapshot = record {
      here = some sides.here.text;
      there = some sides.there.text;
      base = some sides.base.content;
      draft = draft_units (
          merge_texts E.diff (record { text = sides.base.content; shape = sides.base.encoding })
            sides.here sides.there);
      base_available = true;
    };
  }

  -- A settled divergence is proposed, and recorded as settled once the proposal is stored.
  unfoldable pub propose_merge :
      ConflictRecord
      → LocalEntry
      → Option String
      → Sides
      → DivergenceDecision
      → Units
      → Coordinator
      → ConflictRecord × Coordinator
  unfolding put
  propose_merge r here etag sides d text c =
      if E.fails c.calls
      then (closed AutoMergeStatus.manual_required ConflictReason.not_recorded r, tick c)
      else (
        record r {
          auto_merge_status = settled_status d.class;
          reason = some (ConflictReason.decided d.reason);
          evidence = evidence_of d d.stats;
          snapshot = record {
            here = some sides.here.text;
            there = some sides.there.text;
            base = some sides.base.content;
            draft = some text;
            base_available = true;
          };
        },
        record (tick c) {
          intents = put by_intent (intent_of E r here etag sides (E.now c.calls) text) c.intents;
        },
      )

  unfoldable pub decide :
      ConflictRecord
      → LocalEntry
      → Option String
      → Sides
      → DivergenceDecision
      → Option Units
      → DivergenceClass
      → Coordinator
      → ConflictRecord × Coordinator
  unfolding propose_merge
  decide r here etag sides d text DivergenceClass.manual c =
      (undecided r d sides (ConflictReason.decided d.reason), c)
  decide r here etag sides d none _ c = (undecided r d sides ConflictReason.nothing_to_apply, c)
  decide r here etag sides d (some text) _ c = propose_merge r here etag sides d text c

  abbrev pub divergence_of : PreviousEntry → LocalEntry → RemoteEntry → Sides → DivergenceInput
  divergence_of p here there sides = record {
    base = some sides.base.content;
    here = sides.here.text;
    there = sides.there.text;
    here_changed_at = some here.mtime;
    there_changed_at = some there.last_modified;
    base_synced_at = some p.synced_at;
  }

  unfoldable pub judge :
      ConflictRecord
      → PreviousEntry
      → LocalEntry
      → RemoteEntry
      → Sides
      → Coordinator
      → ConflictRecord × Coordinator
  unfolding decide classify_divergence
  judge r p here there sides c =
      let d = classify_divergence E.diff (divergence_of p here there sides) in
      decide r here there.etag sides d d.merged_text d.class c

  abbrev not_decoded : MergeBaseRecord → ConflictRecord → ConflictRecord
  not_decoded base r = record r {
    auto_merge_status = AutoMergeStatus.decode_failed;
    reason = some ConflictReason.not_text;
    snapshot = record no_snapshot { base = some base.content; base_available = true };
  }

  -- The bodies of both sides, of which both must be texts.
  unfoldable pub compare_bodies :
      ConflictRecord
      → PreviousEntry
      → LocalEntry
      → RemoteEntry
      → MergeBaseRecord
      → Option DecodedText
      → Option DecodedText
      → Coordinator
      → ConflictRecord × Coordinator
  unfolding judge
  compare_bodies r p here there base none _ c = (not_decoded base r, c)
  compare_bodies r p here there base (some a) none c = (not_decoded base r, c)
  compare_bodies r p here there base (some a) (some b) c =
      judge r p here there (record { base = base; here = a; there = b }) c

  unfoldable pub with_remote :
      ConflictRecord
      → PreviousEntry
      → LocalEntry
      → RemoteEntry
      → MergeBaseRecord
      → Option DecodedText
      → Try (Option DecodedText)
      → Coordinator
      → ConflictRecord × Coordinator
  unfolding compare_bodies
  with_remote r p here there base a (raised e) c =
      (closed AutoMergeStatus.manual_required (read_error e) r, c)
  with_remote r p here there base a (ok b) c = compare_bodies r p here there base a b c

  unfoldable pub with_local :
      ConflictRecord
      → PreviousEntry
      → LocalEntry
      → RemoteEntry
      → MergeBaseRecord
      → Option (Option DecodedText)
      → Coordinator
      → ConflictRecord × Coordinator
  unfolding with_remote
  with_local r p here there base none c =
      (closed AutoMergeStatus.base_unavailable ConflictReason.local_unreadable r, tick c)
  with_local r p here there base (some a) c =
      with_remote r p here there base a (E.get_object c.calls r.path there.etag) (tick c)

  unfoldable pub read_bodies :
      ConflictRecord
      → PreviousEntry
      → LocalEntry
      → RemoteEntry
      → MergeBaseRecord
      → Coordinator
      → ConflictRecord × Coordinator
  unfolding with_local
  read_bodies r p here there base c = with_local r p here there base (E.read_local c.calls r.path) c

  abbrev pub matching : PreviousEntry → Option MergeBaseRecord → Option MergeBaseRecord
  matching p none = none
  matching p (some base) = if baseline_matches base.baseline (some p) then some base else none

  -- The snapshot of this path, where it can be read and is one of this baseline.
  unfoldable pub snapshot_for : PreviousEntry → String → Coordinator → Option MergeBaseRecord
  unfolding get baseline_matches
  snapshot_for p key c =
      if E.fails c.calls then none else matching p (get by_path c.channel key c.merge_base)

  unfoldable pub with_snapshot :
      ConflictRecord
      → PreviousEntry
      → LocalEntry
      → RemoteEntry
      → Option MergeBaseRecord
      → Coordinator
      → ConflictRecord × Coordinator
  unfolding read_bodies
  with_snapshot r p here there none c =
      (closed AutoMergeStatus.base_unavailable ConflictReason.no_snapshot r, c)
  with_snapshot r p here there (some base) c = read_bodies r p here there base c

  -- Two versions that are both there.
  unfoldable pub inspect_versions :
      ConflictRecord
      → PreviousEntry
      → LocalEntry
      → RemoteEntry
      → Coordinator
      → ConflictRecord × Coordinator
  unfolding is_mergeable_path snapshot_for with_snapshot
  inspect_versions r p here there c =
      if not (is_mergeable_path E r.path)
      then (closed AutoMergeStatus.unsupported ConflictReason.unsupported_type r, c)
      else if ltb max_mergeable_bytes here.size || ltb max_mergeable_bytes there.size
      then (closed AutoMergeStatus.too_large ConflictReason.over_ceiling r, c)
      else with_snapshot r p here there (snapshot_for p r.path c) (tick c)

  unfoldable pub inspect_sides :
      ConflictRecord
      → PreviousEntry
      → Option LocalEntry
      → Option RemoteEntry
      → Option RemoteDeletionIdentity
      → Coordinator
      → ConflictRecord × Coordinator
  unfolding inspect_versions
  inspect_sides r p (some here) (some there) none c = inspect_versions r p here there c
  inspect_sides r p _ _ (some deletion) c =
      (closed AutoMergeStatus.manual_required ConflictReason.remote_deletion r, c)
  inspect_sides r p _ _ none c =
      (closed AutoMergeStatus.manual_required ConflictReason.local_deletion r, c)

  unfoldable pub with_previous :
      ConflictDetectionInput
      → Option PreviousEntry
      → Coordinator
      → Option ConflictRecord × Coordinator
  unfolding inspect_sides identity_of
  with_previous i none c = (none, c)
  with_previous i (some p) c =
      if not (is_some i.observed_local) && not (is_some i.observed_remote)
      then (none, c)
      else let (r, after) =
          inspect_sides (base_record (identity_of E c.channel i) c.channel (E.now c.calls) i p) p
            i.observed_local i.observed_remote i.observed_remote_deletion c in
        (some r, after)

  unfoldable pub inspect :
      ConflictDetectionInput → Coordinator → Option ConflictRecord × Coordinator
  unfolding with_previous
  inspect i c = with_previous i i.previous c
