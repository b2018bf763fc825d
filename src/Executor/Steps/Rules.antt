-- ===== src/Executor/Steps/Rules.antt =====
-- What the shared steps of src/sync/executor.ts tell of the log.
use mineral_obsidian_sync.Base.{
  if◌then◌else◌, String, Bool, true, false, ◌&&◌, ◌≡◌, refl, ℕ, ◌⊎◌, inl, inr, Option, none, some,
  ◌∷◌, [], is_truthy,
}
use mineral_obsidian_sync.Sync.Types.{LocalEntry, PreviousEntry, RemoteVersion}
use mineral_obsidian_sync.Remote.Client
use mineral_obsidian_sync.Remote.Client.{
  Error, Try, ok, raised, Bytes, Response, PutOptions, put_object_recorded,
}
use mineral_obsidian_sync.Executor.Effects.{Env, Event, History}
use mineral_obsidian_sync.Executor.Triples.{
  Traced, Ends, Keeps, Anything, bind-Keeps, caught-Keeps, done-Keeps, if-Keeps, ret-Keeps, Occurs,
  Occurs-map,
}
use mineral_obsidian_sync.Executor.Calls.{
  put-Keeps, backup-Keeps, recovery_changed-Keeps, state_put-Keeps, now-Keeps,
}
use mineral_obsidian_sync.Executor.Steps.{
  put_with_backup, backup_first, lift, commit, commit_floor_baseline, record_merge_base,
  remote_side_of, version_of, entry_for,
}

-- The log at some moment satisfies `R`.
abbrev pub Sometime : (History → Type 0) → History → Type 0
Sometime R [] = R []
Sometime R (e ∷ h) = R (e ∷ h) ⊎ Sometime R h

pub Sometime-now : (R : History → Type 0) (h : History) → R h → Sometime R h
Sometime-now R [] r = r
Sometime-now R (e ∷ h) r = inl r

-- A PUT of the bytes `b` to the key landed as the version `v`.
abbrev pub LandedAs : String → Bytes → RemoteVersion → Event → Type 0
LandedAs key b v (Event.put_object k b' _ (ok r)) =
    (k ≡ key) × (b' ≡ b) × (Client.put_object b r ≡ ok v)
LandedAs key b v _ = ⊥

abbrev pub IsConditional : PutOptions → Type 0
IsConditional o = (is_truthy o.if_match ≡ true) ⊎ (o.if_none_match ≡ true)

abbrev Sent : String → Bytes → Response → Event → Type 0
Sent key b r (Event.put_object k b' _ (ok r')) = (k ≡ key) × (b' ≡ b) × (r' ≡ r)
Sent key b r _ = ⊥

Sent-LandedAs :
    (key : String) (b : Bytes) (r : Response) (v : RemoteVersion)
    → Client.put_object b r ≡ ok v
    → (e : Event) → Sent key b r e
    → LandedAs key b v e
Sent-LandedAs key b r v landed (Event.put_object k b' o (ok r')) (x, y, z) = (x, y, lands b' r' y z)
  where
    lands : (b' : Bytes) (r' : Response) → b' ≡ b → r' ≡ r → Client.put_object b r' ≡ ok v
    lands b' r' y z = rw z landed
Sent-LandedAs key b r v landed _ s = elim s [ ]

module _ (P : Event → History → Type 0) where
  lift-Ends {ℓ} :
      {A : Type ℓ} (r : Try A) (h : History) (Q : A → History → Type 0)
      → ((a : A) → r ≡ ok a → Q a h)
      → Traced P h
      → Ends P Q (r, h)
  lift-Ends (ok a) h Q q t = (q a refl, t)
  lift-Ends (raised e) h Q q t = t

  record_base-Ends :
      (has : Bool) (e : Event) (h : History) (Q : Unit {0} → History → Type 0)
      → P e h
      → Q tt (e ∷ h)
      → Q tt h
      → Traced P h
      → Ends P Q (if has then (ok tt, e ∷ h) else (ok tt, h))
  record_base-Ends true e h Q p q q' t = (q, (p, t))
  record_base-Ends false e h Q p q q' t = (q', t)

module _ (E : Env) {P : Event → History → Type 0} (key : String) where
  pub lift-Keeps {ℓ} :
      {A : Type ℓ} (r : Try A) {Pre : History → Type 0} {Q : A → History → Type 0}
      → ((a : A) (h : History) → r ≡ ok a → Pre h → Q a h)
      → Keeps P Pre (lift r) Q
  unfolding lift
  lift-Keeps r {Q} q = record { run = λ h p t. lift-Ends P r h Q (λ a e. q a h e p) t }

  backup-Keeps_first :
      (R : History → Type 0) (etag : Option String)
      → ((k etag : String) (r : Try (Unit {0})) (h : History)
          → k ≡ key
          → P (Event.backup k etag r) h)
      → ((h : History) → P Event.recovery_changed h)
      → Keeps P (Sometime R) (backup_first E key etag) (λ _. Sometime R)
  unfolding backup_first
  backup-Keeps_first R none b c = ret-Keeps _ (λ h p. p)
  backup-Keeps_first R (some etag) b c =
      if-Keeps (is_truthy (some etag) && E.has_recovery_port)
        (λ _.
          bind-Keeps {Q = λ _. Sometime R}
            (backup-Keeps E key etag (λ r h p. b key etag r h refl) (λ a h p. inr p))
            (λ _. recovery_changed-Keeps E (λ h p. c h) (λ h p. inr p)))
        (λ _. ret-Keeps _ (λ h p. p))

  -- A PUT after the bytes were read by `R`: its version names the bytes and has an ETag.
  pub put_with_backup-Keeps :
      (R : History → Type 0) (b : Bytes) (o : PutOptions)
      → ((k etag : String) (r : Try (Unit {0})) (h : History)
          → k ≡ key
          → P (Event.backup k etag r) h)
      → ((h : History) → P Event.recovery_changed h)
      → ((r : Try Response) (h : History) → Sometime R h → P (Event.put_object key b o r) h)
      → Keeps P
          (Sometime R)
          (put_with_backup E key b o)
          (λ v h. Sometime R h × Occurs (LandedAs key b v) h × (is_truthy v.etag ≡ true))
  unfolding put_with_backup
  put_with_backup-Keeps R b o backups changes puts =
      bind-Keeps {Q = λ _. Sometime R} (backup-Keeps_first R o.if_match backups changes) (λ _.
        bind-Keeps {Q = λ r h. Sometime R h × Occurs (Sent key b r) h}
          (put-Keeps E key b o puts (λ a h p. (inr p, inl (refl, refl, refl))))
          (λ r. lift-Keeps (Client.put_object b r) (λ v h e (p, q).
            (p, Occurs-map (Sent-LandedAs key b r v e) h q, (put_object_recorded b r v e).1))))

  pub record_merge_base-Keeps :
      (v : LocalEntry) (etag : Option String) {Pre : History → Type 0}
      {Q : Unit {0} → History → Type 0}
      → ((h : History) → Pre h → P (Event.record_base key v etag) h)
      → ((h : History) → Pre h → Q tt (Event.record_base key v etag ∷ h))
      → ((h : History) → Pre h → Q tt h)
      → Keeps P Pre (record_merge_base E key v etag) Q
  unfolding record_merge_base
  record_merge_base-Keeps v etag {Q} allowed q q' = record {
    run = λ h p t. record_base-Ends P E.has_merge_base _ h Q (allowed h p) (q h p) (q' h p) t;
  }

  -- A commit is one write of the baseline store.
  pub commit-Keeps :
      (p : PreviousEntry) {Pre : History → Type 0}
      → ((r : Try (Unit {0})) (h : History) → Pre h → P (Event.state_put p r) h)
      → Keeps P Pre (commit E p) Anything
  unfolding commit
  commit-Keeps p allowed =
      bind-Keeps {Q = Anything} (caught-Keeps (state_put-Keeps E p allowed (λ a h q. tt)))
        (λ r. done-Keeps _)

  pub commit_floor-Keeps :
      (e : LocalEntry) (v : RemoteVersion) {Pre : History → Type 0}
      → ((at : ℕ) (h : History) → P (Event.now at) h)
      → ((at : ℕ) (r : Try (Unit {0})) (h : History)
          → Pre h
          → P
              (Event.state_put (entry_for E key (version_of E e) (remote_side_of v) at) r)
              (Event.now at ∷ h))
      → Keeps P Pre (commit_floor_baseline E key e v) Anything
  unfolding commit_floor_baseline
  commit_floor-Keeps e v {Pre} clock allowed =
      bind-Keeps {Q = λ at h. (past : History) × (h ≡ Event.now at ∷ past) × Pre past}
        (now-Keeps E (λ a h p. clock a h) (λ a h p. (h, refl, p)))
        (λ at. commit-Keeps _ (λ r h (past, e, p). rw e (allowed at r past p)))
