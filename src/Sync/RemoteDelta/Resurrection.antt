-- ===== src/Sync/RemoteDelta/Resurrection.antt =====
-- What the observation of a local deletion by src/sync/remote-delta.ts makes the planner do.
use mineral_obsidian_sync.Base.{
  String, Bool, true, false, ◌≡◌, refl, Option, none, some, List, [], ◌∷◌, Memᴰ, eq_iff,
  if◌then◌else◌, arith,
}
use mineral_obsidian_sync.Base.Maps.{lookup}
use mineral_obsidian_sync.Sync.Types.{RemoteEntry, RemoteDeletionIdentity, is_remote_deleted}
use mineral_obsidian_sync.Sync.Planner.{plan_key, ResolutionProposal}
use mineral_obsidian_sync.Remote.Client.{Error, Try, ok, raised}
use mineral_obsidian_sync.Sync.RemoteDelta.{
  Dependencies, Record, describes, is_404, find_among, deleted_observation, is_accepted,
  observe_key, baseline_modified,
}

-- A readable record of the deletion of exactly this version.
pub record Found (read : String → Try Record) (key etag : String) (ks : List String)
    (i : RemoteDeletionIdentity) : Type 0 where
  pub place : String
  pub record_there : Record
  pub listed : Memᴰ place ks
  pub readable : read place ≡ ok record_there
  pub same_path : record_there.path ≡ key
  pub same_version : record_there.deleted_remote_etag ≡ etag
  pub names_path : i.path ≡ key
  pub names_version : i.deleted_remote_etag ≡ etag

-- A version is taken for deleted only where a record that can be read describes this path and this
-- version; a record that describes anything else is an error, and so is every failure but a 404.
pub find_among-Found :
    (read : String → Try Record) (key etag : String) (ks : List String) (i : RemoteDeletionIdentity)
    → find_among read key etag ks ≡ ok (some i)
    → Found read key etag ks i
unfolding find_among
find_among-Found read key etag [] i e = ground (arith, e)
find_among-Found read key etag (k ∷ ks) i e =
    chosen (read k) refl e (find_among-Found read key etag ks i)
  where
    later : Found read key etag ks i → Found read key etag (k ∷ ks) i
    later f = record {
      place = f.place;
      record_there = f.record_there;
      listed = Memᴰ.tail f.listed;
      readable = f.readable;
      same_path = f.same_path;
      same_version = f.same_version;
      names_path = f.names_path;
      names_version = f.names_version;
    }

    skipped :
        (b : Bool) (x : Error)
        → (if b then find_among read key etag ks else raised x) ≡ ok (some i)
        → (find_among read key etag ks ≡ ok (some i) → Found read key etag ks i)
        → Found read key etag (k ∷ ks) i
    skipped true x e f = later (f e)
    skipped false x e f = ground (arith, e)

    identity : Record → RemoteDeletionIdentity
    identity r = record {
      path = key;
      deleted_remote_etag = etag;
      created_at = some r.created_at;
      metadata_etag = none;
      object_present = true;
    }

    described :
        (b : Bool) (r : Record)
        → read k ≡ ok r
        → describes key etag r ≡ b
        → (if b
            then ok (some (identity r))
            else raised (Error.other "Tombstone does not describe the object it was looked up for"))
          ≡ ok (some i)
        → Found read key etag (k ∷ ks) i
    described true r q d e = record {
      place = k;
      record_there = r;
      listed = Memᴰ.head refl;
      readable = q;
      same_path = ground (arith, d, eq_iff r.path key);
      same_version = ground (arith, d, eq_iff r.deleted_remote_etag etag);
      names_path = ground (arith, e);
      names_version = ground (arith, e);
    }
    described false r q d e = ground (arith, e)

    chosen :
        (t : Try Record)
        → read k ≡ t
        → elim t [
          | raised x ↦ if is_404 x then find_among read key etag ks else raised x
          | ok r ↦
              if describes key etag r
              then ok (some (identity r))
              else raised
                  (Error.other "Tombstone does not describe the object it was looked up for")
        ]
          ≡ ok (some i)
        → (find_among read key etag ks ≡ ok (some i) → Found read key etag ks i)
        → Found read key etag (k ∷ ks) i
    chosen (raised x) q e f = skipped (is_404 x) x e f
    chosen (ok r) q e f = described (describes key etag r) r q refl e

-- A deletion that is seen again is not undone: where the local file is gone, no accepted baseline
-- speaks of the path, and a record of the deletion of the present version is found, the path is
-- observed as deleted, and whatever resolution is pending the planner does nothing for it.
pub observe_key-no_resurrection :
    (d : Dependencies) (key etag : String) (present : RemoteEntry) (i : RemoteDeletionIdentity)
    → d.observe_object key ≡ ok present
    → present.etag ≡ some etag
    → d.stat_local key ≡ none
    → is_accepted d key (lookup key d.previous) ≡ false
    → find_among d.read_record key etag (d.read_keys key etag) ≡ ok (some i)
    → (seen : RemoteEntry) × (observe_key d key ≡ ok (some seen))
      × ((p : Option ResolutionProposal) → plan_key key none (some seen) none p ≡ none)
unfolding observe_key plan_key is_remote_deleted
observe_key-no_resurrection d key etag present i o t s a f = (
  deleted_observation key (some etag) (some present.last_modified)
      (baseline_modified (lookup key d.previous)),
  ground (arith, o, t, s, a, f),
  λ p. refl,
)
