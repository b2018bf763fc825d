-- ===== src/Conflict/Coordinator/Settled.antt =====
-- When `inspect` of src/conflict/coordinator.ts settles a conflict on its own.
use mineral_obsidian_sync.Base.{
  ℕ, String, true, false, not, ◌&&◌, ◌||◌, ◌≡◌, ◌≢◌, inl, inr, refl, Option, none, some, List,
  arith, Bool-cases, ltb, is_some,
}
use mineral_obsidian_sync.Sync.Types.{
  LocalEntry, RemoteEntry, PreviousEntry, RemoteDeletionIdentity,
}
use mineral_obsidian_sync.Sync.Merge.Region.{DecodedText}
use mineral_obsidian_sync.Remote.Client.{Try, ok, raised}
use mineral_obsidian_sync.Conflict.Units.{Units}
use mineral_obsidian_sync.Conflict.Handoff.{
  DivergenceDecision, DivergenceClass, classify_divergence,
}
use mineral_obsidian_sync.Conflict.Identity.{baseline_matches}
use mineral_obsidian_sync.Conflict.Types.{
  ConflictRecord, MergeBaseRecord, ResolutionIntent, is_auto_resolved,
}
use mineral_obsidian_sync.Conflict.Stores.{by_intent, put, by_path, get}
use mineral_obsidian_sync.Conflict.Coordinator.{
  Env, Coordinator, ConflictDetectionInput, identity_of, tick,
}
use mineral_obsidian_sync.Conflict.Coordinator.Inspect.{
  Sides, intent_of, divergence_of, inspect, with_previous, inspect_sides, inspect_versions,
  with_snapshot, snapshot_for, matching, read_bodies, with_local, with_remote, compare_bodies,
  judge, decide, propose_merge, is_mergeable_path, settled_status, max_mergeable_bytes, base_record,
}

-- What an inspection leaves alone.
pub record Kept (c d : Coordinator) : Type 0 where
  pub channel : d.channel ≡ c.channel
  pub active : d.active ≡ c.active
  pub conflicts : d.conflicts ≡ c.conflicts
  pub attempted : d.attempted ≡ c.attempted
  pub requests : d.requests ≡ c.requests

module _ (E : Env) where
  -- A merge is stored as a proposal for the inspected conflict: the text that the policy settled on, over
  -- the snapshot of the baseline in force, bound to both observed versions.
  pub record Proposes (c : Coordinator) (r : ConflictRecord) (d : Coordinator) : Type 0 where
    pub previous : PreviousEntry
    pub here : LocalEntry
    pub there : RemoteEntry
    pub sides : Sides
    pub text : Units
    pub created : ℕ
    pub of_baseline : baseline_matches sides.base.baseline (some previous) ≡ true
    pub not_manual :
        (classify_divergence E.diff (divergence_of E previous here there sides)).class
        ≢ DivergenceClass.manual
    pub decided :
        (classify_divergence E.diff (divergence_of E previous here there sides)).merged_text
        ≡ some text
    pub stored :
        d.intents ≡ put by_intent (intent_of E r here there.etag sides created text) c.intents

  -- An inspection that began with the record `r`: the conflict is recorded as settled exactly if a
  -- proposal for it was stored.
  pub data Outcome (c : Coordinator) (r : ConflictRecord)
      : ConflictRecord × Coordinator → Type 0 where
    unsettled :
        (s : ConflictRecord) (d : Coordinator)
        → is_auto_resolved s.auto_merge_status ≡ false
        → s.conflict_id ≡ r.conflict_id
        → s.path ≡ r.path
        → d.intents ≡ c.intents
        → Kept c d
        → Outcome c r (s, d)
    settled :
        (s : ConflictRecord) (d : Coordinator)
        → is_auto_resolved s.auto_merge_status ≡ true
        → s.conflict_id ≡ r.conflict_id
        → s.path ≡ r.path
        → Proposes c r d
        → Kept c d
        → Outcome c r (s, d)

  -- Calls and intents are not among what is kept.
  same_rest :
      (c : Coordinator) (n : ℕ) (intents : List ResolutionIntent)
      → Kept c (record c { calls = n; intents = intents })
  same_rest c n intents = record {
    channel = refl;
    active = refl;
    conflicts = refl;
    attempted = refl;
    requests = refl;
  }

  untick :
      (c : Coordinator) (r : ConflictRecord) (out : ConflictRecord × Coordinator)
      → Outcome (tick c) r out
      → Outcome c r out
  untick c r out (unsettled s d u id path i k) = unsettled s d u id path i (record {
    channel = k.channel;
    active = k.active;
    conflicts = k.conflicts;
    attempted = k.attempted;
    requests = k.requests;
  })
  untick c r out (settled s d u id path q k) =
      settled s d u id path
        (record {
          previous = q.previous;
          here = q.here;
          there = q.there;
          sides = q.sides;
          text = q.text;
          created = q.created;
          of_baseline = q.of_baseline;
          not_manual = q.not_manual;
          decided = q.decided;
          stored = q.stored;
        })
        (record {
          channel = k.channel;
          active = k.active;
          conflicts = k.conflicts;
          attempted = k.attempted;
          requests = k.requests;
        })

  settled_status-resolved :
      (class : DivergenceClass)
      → class ≢ DivergenceClass.manual
      → is_auto_resolved (settled_status class) ≡ true
  unfolding is_auto_resolved
  settled_status-resolved DivergenceClass.clean n = refl
  settled_status-resolved DivergenceClass.handoff n = refl
  settled_status-resolved DivergenceClass.manual n = absurd (n refl)

  module _ (r : ConflictRecord) (p : PreviousEntry) (here : LocalEntry) (there : RemoteEntry) where
    propose_merge-Outcome :
        (sides : Sides) (d : DivergenceDecision) (text : Units) (c : Coordinator)
        → baseline_matches sides.base.baseline (some p) ≡ true
        → d ≡ classify_divergence E.diff (divergence_of E p here there sides)
        → d.class ≢ DivergenceClass.manual
        → d.merged_text ≡ some text
        → Outcome c r (propose_merge E r here there.etag sides d text c)
    unfolding propose_merge is_auto_resolved
    propose_merge-Outcome sides d text c m e n t = elim (Bool-cases (E.fails c.calls)) [
      | inl fails ↦ rw fails (unsettled _ _ refl refl refl refl (same_rest _ _ _))
      | inr works ↦ rw works (
          settled _ _ (settled_status-resolved d.class n) refl refl
            (record {
              previous = p;
              here = here;
              there = there;
              sides = sides;
              text = text;
              created = E.now c.calls;
              of_baseline = m;
              not_manual = λ h. n (cc (e, h));
              decided = cc (e, t);
              stored = refl;
            })
            (same_rest _ _ _))
    ]

    decide-Outcome :
        (sides : Sides) (d : DivergenceDecision) (text : Option Units) (class : DivergenceClass)
        (c : Coordinator)
        → baseline_matches sides.base.baseline (some p) ≡ true
        → d ≡ classify_divergence E.diff (divergence_of E p here there sides)
        → d.class ≡ class
        → d.merged_text ≡ text
        → Outcome c r (decide E r here there.etag sides d text class c)
    unfolding decide is_auto_resolved
    decide-Outcome sides d text DivergenceClass.manual c m e k t =
        unsettled _ _ refl refl refl refl (same_rest _ _ _)
    decide-Outcome sides d none DivergenceClass.clean c m e k t =
        unsettled _ _ refl refl refl refl (same_rest _ _ _)
    decide-Outcome sides d none DivergenceClass.handoff c m e k t =
        unsettled _ _ refl refl refl refl (same_rest _ _ _)
    decide-Outcome sides d (some text) DivergenceClass.clean c m e k t =
        propose_merge-Outcome sides d text c m e (λ h. cc) t
    decide-Outcome sides d (some text) DivergenceClass.handoff c m e k t =
        propose_merge-Outcome sides d text c m e (λ h. cc) t

    module _ (base : MergeBaseRecord) (m : baseline_matches base.baseline (some p) ≡ true) where
      compare_bodies-Outcome :
          (a b : Option DecodedText) (c : Coordinator)
          → Outcome c r (compare_bodies E r p here there base a b c)
      unfolding compare_bodies judge is_auto_resolved
      compare_bodies-Outcome none b c = unsettled _ _ refl refl refl refl (same_rest _ _ _)
      compare_bodies-Outcome (some a) none c = unsettled _ _ refl refl refl refl (same_rest _ _ _)
      compare_bodies-Outcome (some a) (some b) c =
          decide-Outcome (record { base = base; here = a; there = b }) _ _ _ c m refl refl refl

      with_remote-Outcome :
          (a : Option DecodedText) (b : Try (Option DecodedText)) (c : Coordinator)
          → Outcome c r (with_remote E r p here there base a b c)
      unfolding with_remote is_auto_resolved
      with_remote-Outcome a (raised e) c = unsettled _ _ refl refl refl refl (same_rest _ _ _)
      with_remote-Outcome a (ok b) c = compare_bodies-Outcome a b c

      with_local-Outcome :
          (a : Option (Option DecodedText)) (c : Coordinator)
          → Outcome (tick c) r (with_local E r p here there base a c)
      unfolding with_local is_auto_resolved
      with_local-Outcome none c = unsettled _ _ refl refl refl refl (same_rest _ _ _)
      with_local-Outcome (some a) c =
          with_remote-Outcome a (E.get_object c.calls r.path there.etag) (tick c)

    matching-matches :
        (o : Option MergeBaseRecord) {base : MergeBaseRecord}
        → matching E p o ≡ some base
        → baseline_matches base.baseline (some p) ≡ true
    matching-matches none e = cc
    matching-matches (some base) e = elim (Bool-cases (baseline_matches base.baseline (some p))) [
      | inl fits ↦ ground arith
      | inr differs ↦ ground arith
    ]

    snapshot_for-matches :
        (key : String) (c : Coordinator) {base : MergeBaseRecord}
        → snapshot_for E p key c ≡ some base
        → baseline_matches base.baseline (some p) ≡ true
    unfolding snapshot_for
    snapshot_for-matches key c {base} e = elim (Bool-cases (E.fails c.calls)) [
      | inl fails ↦ ground arith
      | inr works ↦
          matching-matches (get by_path c.channel key c.merge_base) {base = base} (ground arith)
    ]

    with_snapshot-Outcome :
        (o : Option MergeBaseRecord) (c : Coordinator)
        → ((base : MergeBaseRecord)
            → o ≡ some base
            → baseline_matches base.baseline (some p) ≡ true)
        → Outcome c r (with_snapshot E r p here there o c)
    unfolding with_snapshot read_bodies is_auto_resolved
    with_snapshot-Outcome none c m = unsettled _ _ refl refl refl refl (same_rest _ _ _)
    with_snapshot-Outcome (some base) c m =
        untick c r _ (with_local-Outcome base (m base refl) (E.read_local c.calls r.path) c)

    inspect_versions-Outcome : (c : Coordinator) → Outcome c r (inspect_versions E r p here there c)
    unfolding inspect_versions is_auto_resolved
    inspect_versions-Outcome c = elim (Bool-cases (not (is_mergeable_path E r.path))) [
      | inl other_type ↦ rw other_type (unsettled _ _ refl refl refl refl (same_rest _ _ _))
      | inr text_type ↦
          elim (Bool-cases
            (ltb max_mergeable_bytes here.size || ltb max_mergeable_bytes there.size)) [
              | inl large ↦
                  rw (text_type, large) (unsettled _ _ refl refl refl refl (same_rest _ _ _))
              | inr small ↦
                  rw (text_type, small)
                    (untick c r _ (
                      with_snapshot-Outcome (snapshot_for E p r.path c) (tick c)
                        (λ base e. snapshot_for-matches r.path c e)))
            ]
    ]

  inspect_sides-Outcome :
      (r : ConflictRecord) (p : PreviousEntry) (here : Option LocalEntry)
      (there : Option RemoteEntry) (deletion : Option RemoteDeletionIdentity) (c : Coordinator)
      → Outcome c r (inspect_sides E r p here there deletion c)
  unfolding inspect_sides is_auto_resolved
  inspect_sides-Outcome r p (some here) (some there) none c =
      inspect_versions-Outcome r p here there c
  inspect_sides-Outcome r p (some here) none none c =
      unsettled _ _ refl refl refl refl (same_rest _ _ _)
  inspect_sides-Outcome r p none there none c = unsettled _ _ refl refl refl refl (same_rest _ _ _)
  inspect_sides-Outcome r p none there (some d) c =
      unsettled _ _ refl refl refl refl (same_rest _ _ _)
  inspect_sides-Outcome r p (some here) none (some d) c =
      unsettled _ _ refl refl refl refl (same_rest _ _ _)
  inspect_sides-Outcome r p (some here) (some there) (some d) c =
      unsettled _ _ refl refl refl refl (same_rest _ _ _)

  -- The answer of an inspection.
  pub data Inspected (i : ConflictDetectionInput) (c : Coordinator)
      : Option ConflictRecord × Coordinator → Type 0 where
    not_inspected : Inspected i c (none, c)
    inspected :
        (p : PreviousEntry) (s : ConflictRecord) (d : Coordinator)
        → i.previous ≡ some p
        → Outcome c (base_record (identity_of E c.channel i) c.channel (E.now c.calls) i p) (s, d)
        → Inspected i c (some s, d)

  with_previous-Inspected :
      (i : ConflictDetectionInput) (o : Option PreviousEntry) (c : Coordinator)
      → i.previous ≡ o
      → Inspected i c (with_previous E i o c)
  unfolding with_previous
  with_previous-Inspected i none c e = not_inspected
  with_previous-Inspected i (some p) c e =
      elim (Bool-cases (not (is_some i.observed_local) && not (is_some i.observed_remote))) [
        | inl absent ↦ rw absent not_inspected
        | inr present ↦ rw present (
            inspected p _ _ e (
              inspect_sides-Outcome
                (base_record (identity_of E c.channel i) c.channel (E.now c.calls) i p) p
                i.observed_local i.observed_remote i.observed_remote_deletion c))
      ]

  pub inspect-Inspected :
      (i : ConflictDetectionInput) (c : Coordinator) → Inspected i c (inspect E i c)
  unfolding inspect
  inspect-Inspected i c = with_previous-Inspected i i.previous c refl
