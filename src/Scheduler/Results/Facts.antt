-- ===== src/Scheduler/Results/Facts.antt =====
-- What src/scheduler/scheduler.ts tells other devices about one operation.
use mineral_obsidian_sync.Base.{
  String, Bool, true, false, ◌≡◌, refl, subst, Option, none, some, is_truthy, if◌then◌else◌,
}
use mineral_obsidian_sync.Sync.Types.{SyncOperation, RemoteVersion, op_key}
use mineral_obsidian_sync.Scheduler.Types.{CycleResult, LandedWrite}
use mineral_obsidian_sync.Scheduler.Results.{
  landed_write_for_operation, landed_put, landed_version, landed_delete, landed_retired,
  revision_of, retired_of, physically_deleted_of,
}

-- The report names what the operation did, with the revision that its result names.
abbrev pub IsFact : SyncOperation → CycleResult → LandedWrite → Type 0
IsFact op r (LandedWrite.put path etag size) =
    (path ≡ op_key op)
    × (is_truthy (some etag) ≡ true)
    × ((v : RemoteVersion) × (revision_of r ≡ some v) × (v.etag ≡ some etag) × (v.size ≡ size))
IsFact op r (LandedWrite.delete path etag) =
    (path ≡ op_key op)
    × (is_truthy (some etag) ≡ true)
    × (retired_of r ≡ some etag)
    × (physically_deleted_of r ≡ false)
IsFact op r (LandedWrite.physically_deleted path) =
    (path ≡ op_key op) × (physically_deleted_of r ≡ true)

-- What is reported, if anything.
abbrev FactIfAny : SyncOperation → CycleResult → Option LandedWrite → Type 0
FactIfAny op r none = Unit
FactIfAny op r (some w) = IsFact op r w

put-FactIfAny :
    (op : SyncOperation) (r : CycleResult) (v : Option RemoteVersion)
    → revision_of r ≡ v
    → FactIfAny op r (landed_put (op_key op) v)
unfolding landed_put
put-FactIfAny op r none e = tt
put-FactIfAny op r (some v) e = versioned v.etag refl
  where
    versioned :
        (t : Option String) → v.etag ≡ t → FactIfAny op r (landed_version (op_key op) t v.size)
    versioned none x = tt
    versioned (some etag) x = named (is_truthy (some etag)) refl
      where
        named :
            (b : Bool)
            → is_truthy (some etag) ≡ b
            → FactIfAny op r (if b then some (LandedWrite.put (op_key op) etag v.size) else none)
        named true y = (refl, y, (v, e, x, refl))
        named false y = tt

delete-FactIfAny :
    (op : SyncOperation) (r : CycleResult) → FactIfAny op r (landed_delete (op_key op) r)
unfolding landed_delete
delete-FactIfAny op r = physical (physically_deleted_of r) refl (retired_of r) refl
  where
    named :
        (etag : String)
        → physically_deleted_of r ≡ false
        → retired_of r ≡ some etag
        → (b : Bool) → is_truthy (some etag) ≡ b
        → FactIfAny op r (if b then some (LandedWrite.delete (op_key op) etag) else none)
    named etag x y true z = (refl, z, y, x)
    named etag x y false z = tt

    physical :
        (b : Bool)
        → physically_deleted_of r ≡ b
        → (t : Option String) → retired_of r ≡ t
        → FactIfAny op r (
            if b
            then some (LandedWrite.physically_deleted (op_key op))
            else landed_retired (op_key op) t)
    physical true x t y = (refl, x)
    physical false x none y = tt
    physical false x (some etag) y = named etag x y (is_truthy (some etag)) refl

landed-FactIfAny :
    (op : SyncOperation) (r : CycleResult) → FactIfAny op r (landed_write_for_operation op r)
unfolding landed_write_for_operation
landed-FactIfAny (SyncOperation.upload k m e x) r =
    put-FactIfAny (SyncOperation.upload k m e x) r (revision_of r) refl
landed-FactIfAny (SyncOperation.resolve_keep_local k m c e t b) r =
    put-FactIfAny (SyncOperation.resolve_keep_local k m c e t b) r (revision_of r) refl
landed-FactIfAny (SyncOperation.resolve_merged k m c e t b) r =
    put-FactIfAny (SyncOperation.resolve_merged k m c e t b) r (revision_of r) refl
landed-FactIfAny (SyncOperation.delete_remote k m e) r =
    delete-FactIfAny (SyncOperation.delete_remote k m e) r
landed-FactIfAny (SyncOperation.resolve_accept_local_delete k m c e) r =
    delete-FactIfAny (SyncOperation.resolve_accept_local_delete k m c e) r
landed-FactIfAny (SyncOperation.noop _ _) r = tt
landed-FactIfAny (SyncOperation.download _ _ _ _) r = tt
landed-FactIfAny (SyncOperation.delete_local _ _ _) r = tt
landed-FactIfAny (SyncOperation.prune_baseline _ _) r = tt
landed-FactIfAny (SyncOperation.resolve_keep_remote _ _ _ _ _) r = tt
landed-FactIfAny (SyncOperation.resolve_accept_remote_delete _ _ _ _ _) r = tt
landed-FactIfAny (SyncOperation.conflict _ _ _) r = tt

-- Every write that the mutation journal is told of is named by the operation's result: a put with the
-- non-empty ETag and the size of the revision in the result, a deletion with the revision that the
-- result says was retired, or as a physical deletion where the result says so.
pub landed_write-IsFact :
    (op : SyncOperation) (r : CycleResult) (w : LandedWrite)
    → landed_write_for_operation op r ≡ some w
    → IsFact op r w
landed_write-IsFact op r w e = subst (FactIfAny op r) e (landed-FactIfAny op r)
