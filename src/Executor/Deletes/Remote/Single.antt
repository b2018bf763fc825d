-- ===== src/Executor/Deletes/Remote/Single.antt =====
-- The deletions of src/sync/executor.ts one by one: physical, logical, and the choice between them.
use mineral_obsidian_sync.Base.{
  String, Bool, true, false, ◌&&◌, ◌≡◌, refl, sym, subst, Option, none, some, List, [], ◌∷◌, Memᴰ,
  inl, is_truthy,
}
use mineral_obsidian_sync.Remote.Client
use mineral_obsidian_sync.Remote.Client.{Try, ok, raised, Response}
use mineral_obsidian_sync.Executor.Effects.{
  Env, Event, History, DeleteState, deleted, conflicted, pending,
}
use mineral_obsidian_sync.Executor.Triples.{
  Traced, Ends-Traced, Keeps, Always, Anything, IfOk, Occurs, bind-Keeps, attempt-Keeps,
  caught-Keeps, done-Keeps, if-Keeps, weaken-Keeps, tried-Keeps,
}
use mineral_obsidian_sync.Executor.Calls.{confirm-Keeps, delete_file-Keeps, head-Keeps}
use mineral_obsidian_sync.Executor.Steps.{verify_version}
use mineral_obsidian_sync.Executor.Steps.Rules.{lift-Keeps}
use mineral_obsidian_sync.Executor.Deletes.{
  after_physical, delete_physical, after_tombstone, after_proof, delete_logical, delete_version,
  delete_remote, delete_each, execute_remote_deletes,
}
use mineral_obsidian_sync.Executor.Deletes.Remote.{
  Acknowledged, JustVerified, JustAgreed, DeleteRemoteRule, retire-Keeps, notice-Keeps, batch-Keeps,
  Asked,
}

module _ (E : Env) (ops : List (String × Option String)) where
  abbrev Allowed : Event → History → Type 0
  Allowed = DeleteRemoteRule ops

  -- What the recovery library's answer tells.
  abbrev AfterDelete : String → DeleteState → History → Type 0
  AfterDelete key deleted h = Occurs (Acknowledged key) h
  AfterDelete key _ h = Unit

  after_delete :
      (key etag : String) (state : DeleteState) (h : History)
      → AfterDelete key state (Event.delete_file key etag (ok state) ∷ h)
  after_delete key etag deleted h = inl refl
  after_delete key etag conflicted h = tt
  after_delete key etag pending h = tt

  after_physical-Keeps :
      (key : String) (state : DeleteState)
      → Keeps Allowed (AfterDelete key state) (after_physical E key state) Anything
  after_physical-Keeps key deleted = retire-Keeps E ops key none true
  after_physical-Keeps key conflicted = done-Keeps _
  after_physical-Keeps key pending = done-Keeps _

  -- The answer of the user was the last call.
  abbrev JustAnswered : String → Bool → History → Type 0
  JustAnswered key true h = JustAgreed key h
  JustAnswered key false h = Unit

  just_answered :
      (key : String) (a : Bool) (h : History)
      → JustAnswered key a (Event.confirm_delete key (ok a) ∷ h)
  just_answered key true h = refl
  just_answered key false h = tt

  physical-Keeps :
      (key etag : String)
      → Memᴰ (key, some etag) ops
      → Keeps Allowed Always (delete_physical E key etag) Anything
  unfolding delete_physical
  physical-Keeps key etag m =
      bind-Keeps {Q = JustAnswered key}
        (confirm-Keeps E key (λ r h p. tt) (λ a h p. just_answered key a h))
        (λ agreed.
          if-Keeps agreed
            (λ e.
              weaken-Keeps {Pre = JustAgreed key} (λ h p. subst (λ b. JustAnswered key b h) e p)
                (notice-Keeps E ops (
                  bind-Keeps {Q = Anything}
                    (caught-Keeps (
                      bind-Keeps {Q = AfterDelete key}
                        (delete_file-Keeps E key etag (λ r h p. (m, p))
                          (λ a h p. after_delete key etag a h))
                        (λ state. after_physical-Keeps key state)))
                    (λ r. done-Keeps _))))
            (λ _. done-Keeps _))

  -- What the tombstone's answer tells.
  abbrev AfterTombstone : String → Try (Unit {0}) → History → Type 0
  AfterTombstone key (ok _) h = Occurs (Acknowledged key) h
  AfterTombstone key (raised e) h = Unit

  after_tombstone_lem :
      (key etag : String) (r : Try (Unit {0})) (h : History)
      → AfterTombstone key r (Event.put_tombstone key etag r ∷ h)
  after_tombstone_lem key etag (ok _) h = inl refl
  after_tombstone_lem key etag (raised e) h = tt

  after_tombstone-Keeps :
      (key etag : String) (r : Try (Unit {0}))
      → Keeps Allowed (AfterTombstone key r) (after_tombstone E key etag r) Anything
  after_tombstone-Keeps key etag (raised e) = done-Keeps _
  after_tombstone-Keeps key etag (ok _) = retire-Keeps E ops key (some etag) false

  after_proof-Keeps :
      (key etag : String) (r : Try (Unit {0}))
      → Memᴰ (key, some etag) ops
      → Keeps Allowed (IfOk (λ _. JustVerified key etag) r) (after_proof E key etag r) Anything
  after_proof-Keeps key etag (raised e) m = done-Keeps _
  after_proof-Keeps key etag (ok _) m =
      bind-Keeps {Q = AfterTombstone key}
        (tried-Keeps (λ h. E.put_tombstone h key etag) (Event.put_tombstone key etag)
          (λ r h p. (m, p)) (λ r h p. after_tombstone_lem key etag r h))
        (λ r. after_tombstone-Keeps key etag r)

  -- The HEAD whose response `r` is still to be read.
  abbrev JustHead : String → String → Response → History → Type 0
  JustHead key etag r (Event.head_object k e (ok r') ∷ h) = (k ≡ key) × (e ≡ etag) × (r' ≡ r)
  JustHead key etag r _ = ⊥

  head-JustVerified :
      (key etag : String) (r : Response) (h : History)
      → Client.verify_object_version r ≡ ok tt
      → JustHead key etag r h
      → JustVerified key etag h
  head-JustVerified key etag r (Event.head_object k e (ok r') ∷ h) v (x, y, z) = (x, y, rw z v)
  head-JustVerified key etag r _ v p = elim p [ ]

  logical-Keeps :
      (key etag : String)
      → Memᴰ (key, some etag) ops
      → Keeps Allowed Always (delete_logical E key etag) Anything
  unfolding delete_logical verify_version
  logical-Keeps key etag m =
      bind-Keeps
        (attempt-Keeps (
          bind-Keeps {Q = JustHead key etag}
            (head-Keeps E key etag (λ r h p. tt) (λ a h p. (refl, refl, refl)))
            (λ r.
              lift-Keeps E key (Client.verify_object_version r) {Q = λ _. JustVerified key etag}
                (λ a h e p. head-JustVerified key etag r h e p))))
        (λ r. after_proof-Keeps key etag r m)

  version-Keeps :
      (key etag : String)
      → Memᴰ (key, some etag) ops
      → Keeps Allowed Always (delete_version E key etag) Anything
  unfolding delete_version
  version-Keeps key etag m =
      if-Keeps (E.direct_deletion && E.has_recovery_port)
        (λ _.
          bind-Keeps {Q = Anything} (batch-Keeps E ops ((key, some etag) ∷ []) (λ x n. only x n))
            (λ rs. done-Keeps _))
        (λ _.
          if-Keeps E.has_recovery_port (λ _. physical-Keeps key etag m)
            (λ _. if-Keeps E.has_tombstones (λ _. logical-Keeps key etag m) (λ _. done-Keeps _)))
    where
      only : Asked E ops ((key, some etag) ∷ [])
      only x (Memᴰ.head e) = subst (λ y. Memᴰ y ops) (sym e) m
      only x (Memᴰ.tail n) = elim n [ ]

  remote-Keeps :
      (key : String) (etag : Option String)
      → Memᴰ (key, etag) ops
      → Keeps Allowed Always (delete_remote E key etag) Anything
  unfolding delete_remote
  remote-Keeps key none m = done-Keeps _
  remote-Keeps key (some etag) m =
      if-Keeps (is_truthy (some etag)) (λ _. version-Keeps key etag m) (λ _. done-Keeps _)

  each-Keeps :
      (todo : List (String × Option String))
      → Asked E ops todo
      → Keeps Allowed Always (delete_each E todo) Anything
  unfolding delete_each
  each-Keeps [] asked = done-Keeps _
  each-Keeps ((key, etag) ∷ rest) asked =
      bind-Keeps {Q = Anything} (remote-Keeps key etag (asked _ (Memᴰ.head refl))) (λ r.
        bind-Keeps {Q = Anything} (each-Keeps rest (λ x m. asked x (Memᴰ.tail m)))
          (λ rs. done-Keeps _))

  all-Keeps : Keeps Allowed Always (execute_remote_deletes E ops) Anything
  unfolding execute_remote_deletes
  all-Keeps =
      if-Keeps E.has_recovery_port (λ _. batch-Keeps E ops ops (λ x m. m))
        (λ _. each-Keeps ops (λ x m. m))

-- Whatever the user, R2 and the recovery library answer, the deletions of `deleteRemote` delete only
-- the version the plan expects: a tombstone is written directly after a HEAD that found this version,
-- a physical deletion is asked for only after the user agreed; the baseline is retired only after an
-- acknowledged deletion of the key; nothing in the Vault changes.
pub delete_remote-Traced :
    (E : Env) (key : String) (etag : Option String)
    → Traced (DeleteRemoteRule ((key, etag) ∷ [])) (delete_remote E key etag []).1
delete_remote-Traced E key etag =
    Ends-Traced _ (delete_remote E key etag [])
      ((remote-Keeps E ((key, etag) ∷ []) key etag (Memᴰ.head refl)).run [] tt tt)

-- The same for the deletions of a whole plan, in one batch or one by one: every deletion is of a
-- listed key in its listed version, and every retired baseline follows an acknowledged deletion.
pub execute_remote_deletes-Traced :
    (E : Env) (ops : List (String × Option String))
    → Traced (DeleteRemoteRule ops) (execute_remote_deletes E ops []).1
execute_remote_deletes-Traced E ops =
    Ends-Traced _ (execute_remote_deletes E ops []) ((all-Keeps E ops).run [] tt tt)
