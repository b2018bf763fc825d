-- ===== src/Conflict/Coordinator/Valid.antt =====
-- Which proposals the coordinator of src/conflict/coordinator.ts hands to the planner.
use mineral_obsidian_sync.Base.{
  String, Bool, true, false, ◌≡◌, inl, inr, refl, sym, subst, ◌∙◌, Option, none, some, List, [],
  ◌∷◌, is_nonempty, str_eq, arith, eq_iff, Bool-cases,
}
use mineral_obsidian_sync.Base.Maps.{Map, lookup, insert, lookup-insert}
use mineral_obsidian_sync.Conflict.Types.{ConflictRecord, ResolutionIntent}
use mineral_obsidian_sync.Conflict.Identity.{
  ConflictInput, canonical_conflict_input, conflict_id_for,
}
use mineral_obsidian_sync.Conflict.Identity.Injective.{SameVersions, canonical_conflict_input_inj}
use mineral_obsidian_sync.Conflict.Coordinator.{
  Env, Coordinator, ConflictDetectionInput, identity_of,
}
use mineral_obsidian_sync.Conflict.Coordinator.Inspect.{inspect}
use mineral_obsidian_sync.Conflict.Coordinator.Settled.{
  Inspected, not_inspected, inspected, unsettled, settled, inspect-Inspected,
}
use mineral_obsidian_sync.Conflict.Coordinator.Handle.{
  observations_of, examine, note_record, note_option, safe_put_conflict, reconcile_store,
  refresh_valid_intents, sift, sort_out, remove_stale, stored_intents, handle_conflicts,
}

module _ (E : Env) where
  -- The intent is one for exactly the versions that were observed at its path.
  pub record IsValid (channel : String) (observed : Map ConflictDetectionInput) (path : String)
      (intent : ResolutionIntent) : Type 0 where
    pub input : ConflictDetectionInput
    pub seen : lookup path observed ≡ some input
    pub identity : identity_of E channel input ≡ intent.conflict_id

  abbrev AllValid : String → Map ConflictDetectionInput → Map ResolutionIntent → Type 0
  AllValid channel observed valid =
      (path : String) (intent : ResolutionIntent)
      → lookup path valid ≡ some intent
      → IsValid channel observed path intent

  insert-AllValid :
      (channel : String) (observed : Map ConflictDetectionInput) (valid : Map ResolutionIntent)
      (intent : ResolutionIntent) (i : ConflictDetectionInput)
      → AllValid channel observed valid
      → lookup intent.path observed ≡ some i
      → identity_of E channel i ≡ intent.conflict_id
      → AllValid channel observed (insert intent.path intent valid)
  insert-AllValid channel observed valid intent i v seen e path other h =
      elim (Bool-cases (str_eq intent.path path)) [
        | inl same ↦ record {
          input = i;
          seen = ground (arith, eq_iff intent.path path, seen);
          identity = ground (arith, lookup-insert path intent.path intent valid);
        }
        | inr differs ↦ v path other (ground (arith, lookup-insert path intent.path intent valid))
      ]

  sift-AllValid :
      (channel : String) (observed : Map ConflictDetectionInput) (intent : ResolutionIntent)
      (found : Option ConflictDetectionInput) (valid : Map ResolutionIntent) (stale : List String)
      → lookup intent.path observed ≡ found
      → AllValid channel observed valid
      → AllValid channel observed (sift E channel intent found (valid, stale)).0
  unfolding sift
  sift-AllValid channel observed intent none valid stale e v = v
  sift-AllValid channel observed intent (some i) valid stale e v =
      elim (Bool-cases (str_eq (identity_of E channel i) intent.conflict_id)) [
        | inl same ↦ rw same (
            insert-AllValid channel observed valid intent i v e
              ((eq_iff (identity_of E channel i) intent.conflict_id).0 same))
        | inr differs ↦ rw differs v
      ]

  sort_out-AllValid :
      (channel : String) (observed : Map ConflictDetectionInput) (intents : List ResolutionIntent)
      (valid : Map ResolutionIntent) (stale : List String)
      → AllValid channel observed valid
      → AllValid channel observed (sort_out E channel observed intents (valid, stale)).0
  unfolding sort_out
  sort_out-AllValid channel observed [] valid stale v = v
  sort_out-AllValid channel observed (intent ∷ rest) valid stale v =
      sort_out-AllValid channel observed rest _ _
        (sift-AllValid channel observed intent (lookup intent.path observed) valid stale refl v)

  note_record-channel :
      (r : ConflictRecord) (active : Map String) (follow_up : Bool) (c : Coordinator)
      → (note_record E r active follow_up c).2.channel ≡ c.channel
  unfolding note_record safe_put_conflict
  note_record-channel r active follow_up c = ground arith

  Inspected-channel :
      (i : ConflictDetectionInput) (c : Coordinator) (out : Option ConflictRecord × Coordinator)
      → Inspected E i c out
      → out.1.channel ≡ c.channel
  Inspected-channel i c out not_inspected = refl
  Inspected-channel i c out (inspected p s d e (unsettled _ _ u id path same k)) = k.channel
  Inspected-channel i c out (inspected p s d e (settled _ _ u id path q k)) = k.channel

  note_option-channel :
      (o : Option ConflictRecord) (active : Map String) (follow_up : Bool) (c : Coordinator)
      → (note_option E o active follow_up c).2.channel ≡ c.channel
  note_option-channel none active follow_up c = refl
  note_option-channel (some r) active follow_up c = note_record-channel r active follow_up c

  examine-channel :
      (conflicts : List ConflictDetectionInput) (active : Map String) (follow_up : Bool)
      (c : Coordinator)
      → (examine E conflicts (active, follow_up, c)).2.channel ≡ c.channel
  unfolding examine
  examine-channel [] active follow_up c = refl
  examine-channel (i ∷ rest) active follow_up c =
      let out = inspect E i c in
      let next = note_option E out.0 active follow_up out.1 in
      examine-channel rest next.0 next.1 next.2
      ∙ note_option-channel out.0 active follow_up out.1
      ∙ Inspected-channel i c out (inspect-Inspected E i c)

  reconcile_store-channel :
      (active : Map String) (c : Coordinator) → (reconcile_store E active c).channel ≡ c.channel
  unfolding reconcile_store
  reconcile_store-channel active c = ground arith

  remove_stale-active :
      (ids : List String) (c : Coordinator) → (remove_stale E ids c).active ≡ c.active
  unfolding remove_stale
  remove_stale-active [] c = refl
  remove_stale-active (id ∷ ids) c = ground arith

  refresh-active :
      (observed : Map ConflictDetectionInput) (c : Coordinator)
      → is_nonempty c.channel ≡ true
      → (refresh_valid_intents E observed c).1.active
        ≡ (sort_out E c.channel observed (stored_intents E c) ([], [])).0
  unfolding refresh_valid_intents
  refresh-active observed c h = rw h (remove_stale-active _ _)

  none_valid :
      (channel : String) (observed : Map ConflictDetectionInput) → AllValid channel observed []
  unfolding lookup
  none_valid channel observed path intent e = cc

  refresh-AllValid :
      (observed : Map ConflictDetectionInput) (c : Coordinator)
      → is_nonempty c.channel ≡ true
      → AllValid c.channel observed (refresh_valid_intents E observed c).1.active
  refresh-AllValid observed c h = rw (refresh-active observed c h) (
      sort_out-AllValid c.channel observed (stored_intents E c) [] []
        (none_valid c.channel observed))

  -- After the conflicts of a cycle were handled, each proposal that the next plan may act on is one for
  -- exactly the versions that this cycle observed at its path.
  pub handle_conflicts-IsValid :
      (conflicts : List ConflictDetectionInput) (c : Coordinator) (path : String)
      (intent : ResolutionIntent)
      → is_nonempty c.channel ≡ true
      → lookup path (handle_conflicts E conflicts c).active ≡ some intent
      → IsValid c.channel (observations_of conflicts) path intent
  unfolding handle_conflicts
  handle_conflicts-IsValid conflicts c path intent h e =
      let examined = examine E conflicts ([], false, c) in
      let before = reconcile_store E examined.0 examined.2 in
      let same : before.channel ≡ c.channel =
        reconcile_store-channel examined.0 examined.2 ∙ examine-channel conflicts [] false c in
      subst (λ channel. IsValid channel (observations_of conflicts) path intent) same
        (refresh-AllValid (observations_of conflicts) before (cc (same, h)) path intent
          (ground (arith, h, e)))

  abbrev pub input_of : (channel : String) → ConflictDetectionInput → ConflictInput
  input_of channel i = record {
    channel = channel;
    path = i.key;
    previous = i.previous;
    observed_local = i.observed_local;
    observed_remote = i.observed_remote;
    observed_remote_deletion = none;
  }

  -- A proposal that was authored for some conflict is handed to the planner only while what is observed
  -- at its path is the same: baseline, size and time of the file, and remote version. This is given a
  -- digest that tells the two encodings apart.
  pub handle_conflicts-SameVersions :
      (conflicts : List ConflictDetectionInput) (c : Coordinator) (path : String)
      (intent : ResolutionIntent) (authored : ConflictDetectionInput)
      → is_nonempty c.channel ≡ true
      → lookup path (handle_conflicts E conflicts c).active ≡ some intent
      → identity_of E c.channel authored ≡ intent.conflict_id
      → ((i : ConflictDetectionInput)
          → lookup path (observations_of conflicts) ≡ some i
          → E.digest (canonical_conflict_input (input_of c.channel i))
            ≡ E.digest (canonical_conflict_input (input_of c.channel authored))
          → canonical_conflict_input (input_of c.channel i)
            ≡ canonical_conflict_input (input_of c.channel authored))
      → (i : ConflictDetectionInput) × (lookup path (observations_of conflicts) ≡ some i)
        × SameVersions (input_of c.channel i) (input_of c.channel authored)
  unfolding identity_of conflict_id_for
  handle_conflicts-SameVersions conflicts c path intent authored h e made no_collision =
      let v = handle_conflicts-IsValid conflicts c path intent h e in
      (
        v.input,
        v.seen,
        canonical_conflict_input_inj _ _ (no_collision v.input v.seen (v.identity ∙ sym made)),
      )
