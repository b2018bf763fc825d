-- ===== src/Executor/Deletes/Remote.antt =====
-- What `deleteRemote` and `executeRemoteDeletes` of src/sync/executor.ts do to R2 and to the baselines.
pub mod Single
use mineral_obsidian_sync.Base.{
  String, Bool, true, false, ◌&&◌, ◌≡◌, refl, sym, subst, Option, none, some, List, [], ◌∷◌, ◌++◌,
  Memᴰ, All, All-append, inl, inr, is_truthy,
}
use mineral_obsidian_sync.Base.Maps.{Map}
use mineral_obsidian_sync.Remote.Client
use mineral_obsidian_sync.Remote.Client.{Try, ok, raised, Response}
use mineral_obsidian_sync.Executor.Result.{OperationResult}
use mineral_obsidian_sync.Executor.Effects.{
  Env, Event, History, M, DeleteState, deleted, conflicted, pending, DeleteOutcome,
}
use mineral_obsidian_sync.Executor.Triples.{
  Traced, Ends-Traced, Keeps, Always, Anything, IfOk, Occurs, bind-Keeps, attempt-Keeps,
  caught-Keeps, done-Keeps, if-Keeps, ret-Keeps, weaken-Keeps, tried-Keeps, forget-Keeps,
}
use mineral_obsidian_sync.Executor.Calls.{
  confirm-Keeps, delete_file-Keeps, delete_files-Keeps, head-Keeps, recovery_changed-Keeps,
}
use mineral_obsidian_sync.Executor.Steps.{prune_result, verify_version}
use mineral_obsidian_sync.Executor.Steps.Rules.{lift-Keeps}
use mineral_obsidian_sync.Executor.Deletes.{
  outcome_result, record_outcomes, confirm_all, with_notice, delete_batch, after_physical,
  delete_physical, after_tombstone, after_proof, delete_logical, delete_version, delete_remote,
  delete_each, execute_remote_deletes,
}

-- The user agreed to delete the key.
abbrev pub Agreed : String → Event → Type 0
Agreed key (Event.confirm_delete k (ok true)) = k ≡ key
Agreed key _ = ⊥

-- The remote side acknowledged that the key is deleted.
abbrev pub Acknowledged : String → Event → Type 0
Acknowledged key (Event.put_tombstone k _ (ok _)) = k ≡ key
Acknowledged key (Event.delete_file k _ (ok deleted)) = k ≡ key
Acknowledged key (Event.delete_files _ (ok outcomes)) =
    (o : DeleteOutcome) × Memᴰ o outcomes × (o.path ≡ key) × (o.state ≡ deleted)
Acknowledged key _ = ⊥

-- The last call was a HEAD that found the object still in the version `etag`.
abbrev pub JustVerified : String → String → History → Type 0
JustVerified key etag (Event.head_object k e (ok r) ∷ h) =
    (k ≡ key) × (e ≡ etag) × (Client.verify_object_version r ≡ ok tt)
JustVerified key etag _ = ⊥

abbrev pub JustAgreed : String → History → Type 0
JustAgreed key (e ∷ h) = Agreed key e
JustAgreed key [] = ⊥

-- Only versions that were asked for are deleted: logically after a HEAD that found the version,
-- physically after the user agreed; a baseline is retired only after an acknowledged deletion.
abbrev pub DeleteRemoteRule : List (String × Option String) → Event → History → Type 0
DeleteRemoteRule ops (Event.put_tombstone k etag _) h =
    Memᴰ (k, some etag) ops × JustVerified k etag h
DeleteRemoteRule ops (Event.delete_file k etag _) h = Memᴰ (k, some etag) ops × JustAgreed k h
DeleteRemoteRule ops (Event.delete_files files _) h =
    All (λ (k, etag). Memᴰ (k, some etag) ops × Occurs (Agreed k) h) files
DeleteRemoteRule ops (Event.state_delete k _) h = Occurs (Acknowledged k) h
DeleteRemoteRule ops (Event.head_object _ _ _) h = Unit
DeleteRemoteRule ops (Event.confirm_delete _ _) h = Unit
DeleteRemoteRule ops Event.recovery_changed h = Unit
DeleteRemoteRule ops _ h = ⊥

module _ (E : Env) (ops : List (String × Option String)) where
  abbrev Rule : Event → History → Type 0
  Rule = DeleteRemoteRule ops

  -- What the log keeps while outcomes are recorded.
  abbrev Answered : List DeleteOutcome → History → Type 0
  Answered rest h =
      (o : DeleteOutcome) → Memᴰ o rest → o.state ≡ deleted → Occurs (Acknowledged o.path) h

  prune-Keeps :
      (key : String) (retired : Option String) (physical : Bool) {Pre : History → Type 0}
      → ((h : History) → Pre h → Occurs (Acknowledged key) h)
      → ((e : Event) (h : History) → Pre h → Pre (e ∷ h))
      → Keeps Rule Pre (prune_result E key retired physical) (λ _. Pre)
  unfolding prune_result
  prune-Keeps key retired physical {Pre} acknowledged grows =
      bind-Keeps {Q = λ _. Pre}
        (tried-Keeps (λ h. E.state_delete h key) (Event.state_delete key)
          (λ r h p. acknowledged h p) (λ r h p. grows _ h p))
        (λ r. ret-Keeps _ (λ h p. p))

  outcome-Keeps :
      (path : String) (state : DeleteState) (error : Option String) {Pre : History → Type 0}
      → ((h : History) → Pre h → state ≡ deleted → Occurs (Acknowledged path) h)
      → ((e : Event) (h : History) → Pre h → Pre (e ∷ h))
      → Keeps Rule Pre (outcome_result E path state error) (λ _. Pre)
  unfolding outcome_result
  outcome-Keeps path deleted error acknowledged grows =
      prune-Keeps path none true (λ h p. acknowledged h p refl) grows
  outcome-Keeps path conflicted error acknowledged grows = ret-Keeps _ (λ h p. p)
  outcome-Keeps path pending error acknowledged grows = ret-Keeps _ (λ h p. p)

  record-Keeps :
      (outcomes : List DeleteOutcome) (results : Map OperationResult)
      → Keeps Rule (Answered outcomes) (record_outcomes E outcomes results) Anything
  unfolding record_outcomes
  record-Keeps [] results = done-Keeps _
  record-Keeps (o ∷ rest) results =
      bind-Keeps {Q = λ _. Answered (o ∷ rest)}
        (outcome-Keeps o.path o.state o.error (λ h p. p o (Memᴰ.head refl))
          (λ e h p x m d. inr (p x m d)))
        (λ r. weaken-Keeps (λ h p x m d. p x (Memᴰ.tail m) d) (record-Keeps rest _))

  -- The rest of the work under `try … finally`.
  notice-Keeps :
      {A : Type 0} {m : M A} {Pre : History → Type 0}
      → Keeps Rule Pre m Anything
      → Keeps Rule Pre (with_notice E m) Anything
  notice-Keeps k = bind-Keeps {Q = Anything} (caught-Keeps k) (λ r.
      bind-Keeps {Q = Anything} (recovery_changed-Keeps E (λ h p. tt) (λ h p. tt))
        (λ _. lift-Keeps E "" r (λ a h e p. tt)))

  abbrev Eligible : List (String × String) → History → Type 0
  Eligible files h = All (λ (k, etag). Memᴰ (k, some etag) ops × Occurs (Agreed k) h) files

  Eligible-grows :
      (files : List (String × String)) (e : Event) (h : History)
      → Eligible files h
      → Eligible files (e ∷ h)
  Eligible-grows [] e h p = tt
  Eligible-grows (f ∷ files) e h ((m, a), p) = ((m, inr a), Eligible-grows files e h p)

  -- What the answer of the user tells.
  abbrev AfterAnswer : String → List (String × String) → Bool → History → Type 0
  AfterAnswer key files true h = Eligible files h × Occurs (Agreed key) h
  AfterAnswer key files false h = Eligible files h

  after_answer :
      (key : String) (files : List (String × String)) (a : Bool) (h : History)
      → Eligible files h
      → AfterAnswer key files a (Event.confirm_delete key (ok a) ∷ h)
  after_answer key files true h p =
      (Eligible-grows files (Event.confirm_delete key (ok true)) h p, inl refl)
  after_answer key files false h p = Eligible-grows files (Event.confirm_delete key (ok false)) h p

  abbrev Asked : List (String × Option String) → Type 0
  Asked todo = (x : String × Option String) → Memᴰ x todo → Memᴰ x ops

  confirm-Keeps_all :
      (todo : List (String × Option String)) (files : List (String × String))
      (results : Map OperationResult)
      → Asked todo
      → Keeps Rule
          (Eligible files)
          (confirm_all E todo files results)
          (λ (found, _) h. Eligible found h)
  unfolding confirm_all
  confirm-Keeps_all [] files results asked = ret-Keeps _ (λ h p. p)
  confirm-Keeps_all ((key, none) ∷ rest) files results asked =
      confirm-Keeps_all rest files _ (λ x m. asked x (Memᴰ.tail m))
  confirm-Keeps_all ((key, some etag) ∷ rest) files results asked =
      if-Keeps (is_truthy (some etag))
        (λ _.
          bind-Keeps {Q = AfterAnswer key files}
            (confirm-Keeps E key (λ r h p. tt) (λ a h p. after_answer key files a h p))
            (λ agreed.
              if-Keeps agreed
                (λ e.
                  weaken-Keeps {Pre = Eligible (files ++ ((key, etag) ∷ []))}
                    (λ h p.
                      let (fs, a) = subst (λ b. AfterAnswer key files b h) e p in
                      All-append _ files _ fs ((asked _ (Memᴰ.head refl), a), tt))
                    (confirm-Keeps_all rest _ results (λ x m. asked x (Memᴰ.tail m))))
                (λ e.
                  weaken-Keeps {Pre = Eligible files}
                    (λ h p. subst (λ b. AfterAnswer key files b h) e p)
                    (confirm-Keeps_all rest files _ (λ x m. asked x (Memᴰ.tail m))))))
        (λ _. confirm-Keeps_all rest files _ (λ x m. asked x (Memᴰ.tail m)))

  batch-Keeps :
      (todo : List (String × Option String))
      → Asked todo
      → Keeps Rule Always (delete_batch E todo) Anything
  unfolding delete_batch
  batch-Keeps todo asked =
      bind-Keeps (weaken-Keeps (λ h p. tt) (confirm-Keeps_all todo [] [] asked))
        (λ (files, refused).
          bind-Keeps {Q = Anything}
            (notice-Keeps (
              bind-Keeps {Q = Answered}
                (delete_files-Keeps E files (λ r h p. p) (λ a h p o m d. inl (o, m, refl, d)))
                (λ outcomes. record-Keeps outcomes refused)))
            (λ results. done-Keeps _))

  -- A deletion that was just acknowledged retires the baseline.
  retire-Keeps :
      (key : String) (retired : Option String) (physical : Bool)
      → Keeps Rule (Occurs (Acknowledged key)) (prune_result E key retired physical) Anything
  retire-Keeps key retired physical =
      forget-Keeps (prune-Keeps key retired physical (λ h p. p) (λ e h p. inr p))
