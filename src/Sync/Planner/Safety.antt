-- ===== src/Sync/Planner/Safety.antt =====
-- What src/sync/planner.ts has established of a key when it plans an operation for it.
use mineral_obsidian_sync.Base.{
  String, Bool, true, false, ◌≡◌, Option, none, some, arith, if◌then◌else◌, ◌⊎◌, is_nonempty, ◌≢◌,
}
use mineral_obsidian_sync.Sync.Types.{
  LocalEntry, RemoteEntry, PreviousEntry, RemoteDeletionIdentity, SyncOperation, ExpectedLocal,
  ExpectedRemote, op_key,
}
use mineral_obsidian_sync.Sync.Fingerprint.{local_changed, remote_changed}
use mineral_obsidian_sync.Sync.Planner.{
  ResolutionProposal, plan_key, deleted_remote_resolution, deleted_local_resolution,
  resolution_operation, absent_deletion,
}

-- The local file is the version that the baseline records.
abbrev pub LocalUnchanged : LocalEntry → Option PreviousEntry → Type 0
LocalUnchanged here none = ⊥
LocalUnchanged here (some before) = local_changed here before ≡ false

abbrev pub RemoteUnchanged : RemoteEntry → Option PreviousEntry → Type 0
RemoteUnchanged there none = ⊥
RemoteUnchanged there (some before) = remote_changed there before ≡ false

-- A live remote object, as opposed to a missing or a logically deleted one.
abbrev pub IsLive : RemoteEntry → Option RemoteEntry → Type 0
IsLive r there = (there ≡ some r) × (r.deleted ≡ none)

-- The object that a conditional write expects is the one observed.
abbrev pub ExpectsObserved : ExpectedRemote → Option RemoteEntry → Option PreviousEntry → Type 0
ExpectsObserved ExpectedRemote.absent none before = Unit
ExpectsObserved ExpectedRemote.absent (some r) before = elim r.deleted [
  | none ↦ ⊥
  | some d ↦ d.object_present ≡ false
]
ExpectsObserved (ExpectedRemote.etag e) none before = ⊥
ExpectsObserved (ExpectedRemote.etag e) (some r) before = elim r.deleted [
  | none ↦ (e ≡ r.etag) × RemoteUnchanged r before
  | some d ↦ (e ≡ some d.deleted_remote_etag) × (d.object_present ≡ true)
]

-- What the deletion conflict names: a tombstone that was read, or the absence itself.
abbrev pub NamesDeletion : String → RemoteDeletionIdentity → Option RemoteEntry → Type 0
NamesDeletion key d none = d ≡ absent_deletion key
NamesDeletion key d (some r) = r.deleted ≡ some d

abbrev pub LocalChanged : LocalEntry → Option PreviousEntry → Type 0
LocalChanged here none = ⊥
LocalChanged here (some before) = local_changed here before ≡ true

abbrev pub RemoteChanged : RemoteEntry → Option PreviousEntry → Type 0
RemoteChanged there none = ⊥
RemoteChanged there (some before) = remote_changed there before ≡ true

abbrev pub ExpectsLocal : ExpectedLocal → Option LocalEntry → Option PreviousEntry → Type 0
ExpectsLocal ExpectedLocal.absent here before = (here ≡ none) × (before ≡ none)
ExpectsLocal (ExpectedLocal.entry e) here before = (here ≡ some e) × LocalUnchanged e before

abbrev RemoteGone : Option RemoteEntry → Type 0
RemoteGone none = Unit
RemoteGone (some r) = r.deleted ≢ none

-- The deletion or the absence that a kept local file is written over.
abbrev pub KeepsLocalOver :
    Option String → Bool → Option RemoteEntry → Option PreviousEntry → Type 0
KeepsLocalOver e gone none before = (e ≡ none) × (gone ≡ true)
KeepsLocalOver e gone (some r) before = elim r.deleted [
  | none ↦ (e ≡ r.etag) × (gone ≡ false) × RemoteChanged r before
  | some d ↦
      if d.object_present
      then (e ≡ some d.deleted_remote_etag) × (gone ≡ false)
      else (e ≡ none) × (gone ≡ true)
]

abbrev pub KeepsRemoteOver : ExpectedLocal → Option LocalEntry → Option PreviousEntry → Type 0
KeepsRemoteOver ExpectedLocal.absent here before = here ≡ none
KeepsRemoteOver (ExpectedLocal.entry e) here before = (here ≡ some e) × LocalChanged e before

-- The observed remote object of a resolution, changed since the baseline.
abbrev pub ChangedLive : Option String → Option RemoteEntry → Option PreviousEntry → Type 0
ChangedLive e none before = ⊥
ChangedLive e (some r) before = (r.deleted ≡ none) × (e ≡ r.etag) × RemoteChanged r before

-- What justifies an operation, from the two observations and the baseline.
abbrev pub Justified :
    SyncOperation → Option LocalEntry → Option RemoteEntry → Option PreviousEntry → Type 0
Justified (SyncOperation.noop _ _) none there before = ⊥
Justified (SyncOperation.noop _ _) (some h) none before = ⊥
Justified (SyncOperation.noop _ _) (some h) (some r) before =
    LocalUnchanged h before × RemoteUnchanged r before × (r.deleted ≡ none)
Justified (SyncOperation.upload _ _ h expected) here there before =
    (here ≡ some h) × ExpectsObserved expected there before
Justified (SyncOperation.download _ _ expected r) here there before =
    IsLive r there × ExpectsLocal expected here before
Justified (SyncOperation.delete_local _ _ h) here there before =
    (here ≡ some h) × LocalUnchanged h before × RemoteGone there
Justified (SyncOperation.delete_remote _ _ e) here none before = ⊥
Justified (SyncOperation.delete_remote _ _ e) here (some r) before =
    (here ≡ none) × (r.deleted ≡ none) × (e ≡ r.etag) × RemoteUnchanged r before
Justified (SyncOperation.prune_baseline _ _) here there before =
    (here ≡ none) × (there ≡ none) × (before ≢ none)
Justified (SyncOperation.resolve_keep_local _ _ _ h e gone) here there before =
    (here ≡ some h) × LocalChanged h before × KeepsLocalOver e gone there before
Justified (SyncOperation.resolve_keep_remote _ _ _ expected e) here there before =
    KeepsRemoteOver expected here before × ChangedLive e there before
Justified (SyncOperation.resolve_merged _ _ _ h e _) here there before =
    (here ≡ some h) × LocalChanged h before × ChangedLive e there before
Justified (SyncOperation.resolve_accept_remote_delete k _ _ h d) here there before =
    (here ≡ some h) × LocalChanged h before × NamesDeletion k d there
Justified (SyncOperation.resolve_accept_local_delete _ _ _ e) here there before =
    (here ≡ none) × (is_nonempty e ≡ true) × ChangedLive (some e) there before
Justified (SyncOperation.conflict _ _ _) here there before =
    (here ≢ none) ⊎ ((there ≢ none) × (before ≢ none))

abbrev JustifiedIfAny :
    String
    → Option SyncOperation
    → Option LocalEntry
    → Option RemoteEntry
    → Option PreviousEntry
    → Type 0
JustifiedIfAny key none here there before = Unit
JustifiedIfAny key (some op) here there before = (op_key op ≡ key) × Justified op here there before

pub plan_key-JustifiedIfAny :
    (key : String) (here : Option LocalEntry) (there : Option RemoteEntry)
    (before : Option PreviousEntry) (p : Option ResolutionProposal)
    → JustifiedIfAny key (plan_key key here there before p) here there before
unfolding plan_key deleted_remote_resolution deleted_local_resolution resolution_operation
plan_key-JustifiedIfAny key none none before p = ground arith
plan_key-JustifiedIfAny key none (some r) before p = ground arith
plan_key-JustifiedIfAny key (some h) none before p = ground arith
plan_key-JustifiedIfAny key (some h) (some r) before p = ground arith
