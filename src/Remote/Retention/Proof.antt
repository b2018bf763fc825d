-- ===== src/Remote/Retention/Proof.antt =====
-- What src/remote/tombstone-retention.ts knows before it removes bytes or records.
use mineral_obsidian_sync.Base.{
  ℕ, ◌≤◌, String, Bool, true, false, not, ◌&&◌, ◌≡◌, refl, sym, subst, Option, none, some, List, [],
  ◌∷◌, Memᴰ, All, All-append, keep, opt_str_eq, opt_str_eq_iff, if◌then◌else◌, arith,
}
use mineral_obsidian_sync.Sync.Types.{RemoteEntry}
use mineral_obsidian_sync.Remote.Client.{Error, Try, ok, raised}
use mineral_obsidian_sync.Remote.Retention.{
  RemoteDeletion, Answers, Removal, object, tombstone, CleanupOutcome, object_and_record,
  record_only, skipped, CleanupResult, is_404, is_old, record_outcome, is_revived, remove_record,
  after_object, remove_both, after_head, retire, tally, prune_each, expired_tombstones,
  prune_expired_tombstones,
}

-- The object is the version that the record names, and R2 has not written it since it took the record.
pub record IsDeletedVersion (d : RemoteDeletion) (a : Answers) : Type 0 where
  pub present : RemoteEntry
  pub accepted : ℕ
  pub found : a.head ≡ ok present
  pub same : present.etag ≡ some d.deleted_remote_etag
  pub known : d.metadata_last_modified ≡ some accepted
  pub unwritten : present.last_modified ≤ accepted

-- The record describes no object that exists: R2 has none, another version, or a newer one.
pub data IsDead (d : RemoteDeletion) (a : Answers) : Type 0 where
  gone : (e : Error) → a.head ≡ raised e → is_404 e ≡ true → IsDead d a
  superseded :
      (present : RemoteEntry)
      → a.head ≡ ok present
      → (opt_str_eq present.etag (some d.deleted_remote_etag)
          && not (is_revived present d.metadata_last_modified))
        ≡ false
      → IsDead d a
  removed : IsDeletedVersion d a → a.delete_object ≡ ok tt → IsDead d a

abbrev pub IsProven : RemoteDeletion → Answers → Removal → Type 0
IsProven d a (object path r) = (path ≡ d.path) × IsDeletedVersion d a
IsProven d a (tombstone d' r) = (d' ≡ d) × IsDead d a

module _ (d : RemoteDeletion) (a : Answers) where
  abbrev Proven : CleanupOutcome × List Removal → Type 0
  Proven r = All (IsProven d a) r.1

  record-Proven : IsDead d a → Proven (remove_record d a)
  unfolding remove_record
  record-Proven dead = chosen a.has_delete_tombstone
    where
      chosen :
          (b : Bool)
          → Proven (
              if b
              then (record_outcome a.delete_tombstone, tombstone d a.delete_tombstone ∷ [])
              else (skipped, []))
      chosen true = ((refl, dead), tt)
      chosen false = tt

  object-Proven :
      (v : IsDeletedVersion d a) (r : Try (Unit {0}))
      → a.delete_object ≡ r
      → Proven (after_object d a r)
  unfolding after_object
  object-Proven v (raised e) x = ((refl, v), tt)
  object-Proven v (ok _) x = chosen a.has_delete_tombstone
    where
      chosen :
          (b : Bool)
          → Proven (
              if b
              then (object_and_record, object d.path (ok tt) ∷ tombstone d a.delete_tombstone ∷ [])
              else (skipped, object d.path (ok tt) ∷ []))
      chosen true = ((refl, v), ((refl, IsDead.removed v x), tt))
      chosen false = ((refl, v), tt)

  both-Proven :
      (m : Option ℕ) → ((at : ℕ) → m ≡ some at → IsDeletedVersion d a) → Proven (remove_both d a m)
  unfolding remove_both
  both-Proven none k = tt
  both-Proven (some at) k = chosen a.has_delete_object
    where
      chosen : (b : Bool) → Proven (if b then after_object d a a.delete_object else (skipped, []))
      chosen true = object-Proven (k at refl) a.delete_object refl
      chosen false = tt

  head-Proven : (h : Try RemoteEntry) → a.head ≡ h → Proven (after_head d a h)
  unfolding after_head
  head-Proven (raised e) x = chosen (is_404 e) refl
    where
      chosen : (b : Bool) → is_404 e ≡ b → Proven (if b then remove_record d a else (skipped, []))
      chosen true y = record-Proven (IsDead.gone e x y)
      chosen false y = tt
  head-Proven (ok present) x =
      chosen
        (opt_str_eq present.etag (some d.deleted_remote_etag)
          && not (is_revived present d.metadata_last_modified))
        refl
    where
      deleted :
          (opt_str_eq present.etag (some d.deleted_remote_etag)
              && not (is_revived present d.metadata_last_modified))
            ≡ true
          → (at : ℕ) → d.metadata_last_modified ≡ some at
          → IsDeletedVersion d a
      deleted y at z = record {
        present = present;
        accepted = at;
        found = x;
        same = ground (arith, y, opt_str_eq_iff present.etag (some d.deleted_remote_etag));
        known = z;
        unwritten = ground (arith, y, z);
      }

      chosen :
          (b : Bool)
          → (opt_str_eq present.etag (some d.deleted_remote_etag)
              && not (is_revived present d.metadata_last_modified))
            ≡ b
          → Proven (if b then remove_both d a d.metadata_last_modified else remove_record d a)
      chosen true y = both-Proven d.metadata_last_modified (deleted y)
      chosen false y = record-Proven (IsDead.superseded present x y)

  retire-Proven : Proven (retire d a)
  unfolding retire
  retire-Proven = head-Proven a.head refl

-- A removal of the pass: of an expired record whose path is not protected, and proven.
pub record IsAllowed (now retention : ℕ) (protect : String → Bool)
    (answers : RemoteDeletion → Answers) (ds : List RemoteDeletion) (r : Removal) : Type 0 where
  pub deletion : RemoteDeletion
  pub listed : Memᴰ deletion ds
  pub old : is_old now retention deletion.created_at ≡ true
  pub unprotected : protect deletion.path ≡ false
  pub proven : IsProven deletion (answers deletion) r

All-map :
    {P Q : Removal → Type 0} (rs : List Removal) → ((r : Removal) → P r → Q r) → All P rs → All Q rs
All-map [] f p = tt
All-map (r ∷ rs) f (p, ps) = (f r p, All-map rs f ps)

module _ (now retention : ℕ) (protect : String → Bool) (answers : RemoteDeletion → Answers)
    (all : List RemoteDeletion) where
  abbrev Allowed : Removal → Type 0
  Allowed = IsAllowed now retention protect answers all

  tally-Allowed :
      (o : CleanupOutcome) (ops : List Removal) (r : CleanupResult)
      → All Allowed ops
      → All Allowed r.removals
      → All Allowed (tally o ops r).removals
  tally-Allowed skipped ops r p q = All-append Allowed ops _ p q
  tally-Allowed record_only ops r p q = All-append Allowed ops _ p q
  tally-Allowed object_and_record ops r p q = All-append Allowed ops _ p q

  each-Allowed :
      (ds : List RemoteDeletion)
      → ((d : RemoteDeletion) → Memᴰ d ds → Memᴰ d all × (is_old now retention d.created_at ≡ true))
      → All Allowed (prune_each protect answers ds).removals
  unfolding prune_each
  each-Allowed [] k = tt
  each-Allowed (d ∷ ds) k =
      chosen (protect d.path) refl (each-Allowed ds (λ x m. k x (Memᴰ.tail m)))
    where
      chosen :
          (b : Bool)
          → protect d.path ≡ b
          → All Allowed (prune_each protect answers ds).removals
          → All Allowed
              (if b
                then prune_each protect answers ds
                else tally
                    (retire d (answers d)).0
                    (retire d (answers d)).1
                    (prune_each protect answers ds)).removals
      chosen true x rest = rest
      chosen false x rest =
          tally-Allowed _ _ _
            (All-map _
              (λ r p. record {
                deletion = d;
                listed = (k d (Memᴰ.head refl)).0;
                old = (k d (Memᴰ.head refl)).1;
                unprotected = x;
                proven = p;
              })
              (retire-Proven d (answers d)))
            rest

mem-keep :
    (p : RemoteDeletion → Bool) (ds : List RemoteDeletion) (d : RemoteDeletion)
    → Memᴰ d (keep p ds)
    → Memᴰ d ds × (p d ≡ true)
mem-keep p [] d m = elim m [ ]
mem-keep p (x ∷ xs) d m = chosen (p x) refl (λ q. mem-keep p xs d q) m
  where
    chosen :
        (b : Bool)
        → p x ≡ b
        → (Memᴰ d (keep p xs) → Memᴰ d xs × (p d ≡ true))
        → Memᴰ d (if b then x ∷ keep p xs else keep p xs)
        → Memᴰ d (x ∷ xs) × (p d ≡ true)
    chosen true e k (Memᴰ.head q) = (Memᴰ.head q, subst (λ y. p y ≡ true) (sym q) e)
    chosen true e k (Memᴰ.tail q) = let (n, t) = k q in (Memᴰ.tail n, t)
    chosen false e k q = let (n, t) = k q in (Memᴰ.tail n, t)

-- A pass removes only what belongs to a listed record that is older than the retention and whose path
-- is not protected. Bytes go only where the object is the version that the record names and was not
-- written after R2 took the record; a record goes only where R2 has no such object any more: none,
-- another version or a newer one, or one whose deletion has just succeeded.
pub prune_expired_tombstones-IsAllowed :
    (now retention : ℕ) (protect : String → Bool) (answers : RemoteDeletion → Answers)
    (ds : List RemoteDeletion)
    → All
        (IsAllowed now retention protect answers ds)
        (prune_expired_tombstones now retention protect answers ds).removals
unfolding prune_expired_tombstones expired_tombstones
prune_expired_tombstones-IsAllowed now retention protect answers ds =
    each-Allowed now retention protect answers ds _ (λ d m. mem-keep _ ds d m)
