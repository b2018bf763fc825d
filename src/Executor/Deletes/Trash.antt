-- ===== src/Executor/Deletes/Trash.antt =====
-- What `deleteLocal` of src/sync/executor.ts does to the Vault and to the baselines.
use mineral_obsidian_sync.Base.{if◌then◌else◌, String, Bool, true, false, ◌≡◌, refl, none, ◌∷◌, []}
use mineral_obsidian_sync.Sync.Types.{LocalEntry, ExpectedLocal}
use mineral_obsidian_sync.Remote.Client.{Try, ok, raised}
use mineral_obsidian_sync.Local.Reading.{matches}
use mineral_obsidian_sync.Executor.Result.{stale, local_changed}
use mineral_obsidian_sync.Executor.Effects.{Env, Event, History, ret}
use mineral_obsidian_sync.Executor.Triples.{
  Traced, Ends-Traced, Keeps, Always, Anything, bind-Keeps, caught-Keeps, done-Keeps, if-Keeps,
  ret-Keeps,
}
use mineral_obsidian_sync.Executor.Calls.{
  file_at-Keeps, stat-Keeps, trash-Keeps, state_delete-Keeps,
}
use mineral_obsidian_sync.Executor.Steps.{local_still_matches, prune_result}
use mineral_obsidian_sync.Executor.Deletes.{after_trash, trash_file, delete_local}

-- The last two calls: the file was there, and its version was the expected one.
abbrev pub JustMatched : String → LocalEntry → History → Type 0
JustMatched key e (Event.file_at k true ∷ Event.stat k' (ok s) ∷ h) =
    (k ≡ key) × (k' ≡ e.key) × (matches s e ≡ true)
JustMatched key e _ = ⊥

-- The last call saw no file at the path.
abbrev pub JustAbsent : String → History → Type 0
JustAbsent key (Event.file_at k false ∷ h) = k ≡ key
JustAbsent key _ = ⊥

-- The trash is asked only for the file at the key, directly after its version was confirmed; the
-- baseline is retired only when the file has just been seen gone; nothing else is changed anywhere.
abbrev pub DeleteLocalRule : String → LocalEntry → Event → History → Type 0
DeleteLocalRule key e (Event.trash k _) h = (k ≡ key) × JustMatched key e h
DeleteLocalRule key e (Event.state_delete k _) h = (k ≡ key) × JustAbsent key h
DeleteLocalRule key e (Event.file_at _ _) h = Unit
DeleteLocalRule key e (Event.stat _ _) h = Unit
DeleteLocalRule key e _ h = ⊥

module _ (E : Env) (key : String) (e : LocalEntry) where
  abbrev Rule : Event → History → Type 0
  Rule = DeleteLocalRule key e

  prune-Keeps : Keeps Rule (JustAbsent key) (prune_result E key none false) Anything
  unfolding prune_result
  prune-Keeps =
      bind-Keeps {Q = Anything}
        (caught-Keeps (state_delete-Keeps E key (λ r h p. (refl, p)) (λ a h p. tt)))
        (λ r. done-Keeps _)

  -- The last call is the look at the version, with `b` for its outcome.
  abbrev JustStat : Bool → History → Type 0
  JustStat b (Event.stat k (ok s) ∷ h) = (k ≡ e.key) × (matches s e ≡ b)
  JustStat b _ = ⊥

  still-Keeps : Keeps Rule Always (local_still_matches E key (ExpectedLocal.entry e)) JustStat
  unfolding local_still_matches
  still-Keeps =
      bind-Keeps {Q = λ s h. JustStat (matches s e) h}
        (stat-Keeps E e.key (λ r h p. tt) (λ a h p. (refl, refl))) (λ s. ret-Keeps _ (λ h p. p))

  -- What the look at the path tells after the look at the version.
  abbrev JustFound : Bool → Bool → History → Type 0
  JustFound true true h = JustMatched key e h
  JustFound still true h = Unit
  JustFound still false h = JustAbsent key h

  after_trash-Keeps :
      (r : Try (Unit {0})) (there : Bool)
      → Keeps Rule (λ h. JustFound false there h) (after_trash E key r there) Anything
  unfolding after_trash
  after_trash-Keeps (raised x) true = done-Keeps _
  after_trash-Keeps (raised x) false = done-Keeps _
  after_trash-Keeps (ok _) true = done-Keeps _
  after_trash-Keeps (ok _) false = prune-Keeps

  seen : (there : Bool) (h : History) → JustFound false there (Event.file_at key there ∷ h)
  seen true h = tt
  seen false h = refl

  trash_file-Keeps : Keeps Rule (JustMatched key e) (trash_file E key) Anything
  unfolding trash_file
  trash_file-Keeps =
      if-Keeps E.has_remover
        (λ _.
          bind-Keeps {Q = Anything}
            (caught-Keeps (trash-Keeps E key (λ r h p. (refl, p)) (λ a h p. tt)))
            (λ r.
              bind-Keeps (file_at-Keeps E key (λ a h p. tt) (λ a h p. seen a h))
                (λ there. after_trash-Keeps r there)))
        (λ _. done-Keeps _)

  found-Keeps :
      (still there : Bool)
      → Keeps Rule
          (λ h. JustFound still there h)
          (if there
            then (if still then trash_file E key else ret (stale key local_changed))
            else prune_result E key none false)
          Anything
  found-Keeps true true = trash_file-Keeps
  found-Keeps false true = done-Keeps _
  found-Keeps still false = prune-Keeps

  delete_local-Keeps : Keeps Rule Always (delete_local E key e) Anything
  unfolding delete_local
  delete_local-Keeps = bind-Keeps still-Keeps (λ still.
      bind-Keeps (file_at-Keeps E key (λ a h p. tt) (λ a h p. look still a h p))
        (λ there. found-Keeps still there))
    where
      look :
          (still there : Bool) (h : History)
          → JustStat still h
          → JustFound still there (Event.file_at key there ∷ h)
      look true true (Event.stat k (ok s) ∷ h) (same, now) = (refl, same, now)
      look true true _ p = elim p [ ]
      look false true h p = tt
      look still false h p = refl

-- Whatever the Vault and the baseline store answer and however they change in between, a local
-- deletion trashes only the file at its key, directly after that file was seen in the expected
-- version, and retires the baseline only when no file has just been seen there; it makes no other
-- change.
pub delete_local-Traced :
    (E : Env) (key : String) (e : LocalEntry)
    → Traced (DeleteLocalRule key e) (delete_local E key e []).1
delete_local-Traced E key e =
    Ends-Traced _ (delete_local E key e []) ((delete_local-Keeps E key e).run [] tt tt)
