-- ===== src/Local/Folders/Quiet.antt =====
-- What the creation of folders of src/local/ensure-folders.ts leaves alone.
use mineral_obsidian_sync.Base.{String, Bool, List, [], ◌∷◌}
use mineral_obsidian_sync.Remote.Client.{Try, ok}
use mineral_obsidian_sync.Executor.Effects.{Env, Event, History, M}
use mineral_obsidian_sync.Executor.Triples.{Keeps, bind-Keeps, if-Keeps, ret-Keeps, tried-Keeps}
use mineral_obsidian_sync.Executor.Calls.{file_at-Keeps, entry_at-Keeps}
use mineral_obsidian_sync.Local.Folders.{
  FoldersResult, refused, created, occupied, adapter_exists, present, make_by_adapter, make_folder,
  ensure_segment, ensure_segments, ensure_parent_folders, onwards,
}

-- The rule lets paths be looked at and folders be created.
pub record FoldersAllowed (P : Event → History → Type 0) : Type 0 where
  pub file_at : (k : String) (a : Bool) (h : History) → P (Event.file_at k a) h
  pub entry_at : (k : String) (a : Bool) (h : History) → P (Event.entry_at k a) h
  pub exists : (k : String) (a : Try Bool) (h : History) → P (Event.exists k a) h
  pub create_folder :
      (k : String) (a : Try (Unit {0})) (h : History) → P (Event.create_folder k a) h
  pub mkdir : (k : String) (a : Try (Unit {0})) (h : History) → P (Event.mkdir k a) h

-- `Pre` survives every call.
module _ (E : Env) {P : Event → History → Type 0} (allowed : FoldersAllowed P)
    {Pre : History → Type 0} (grows : (e : Event) (h : History) → Pre h → Pre (e ∷ h)) where
  abbrev Quiet {ℓ} : {A : Type ℓ} → M A → Type 0
  Quiet m = Keeps P Pre m (λ _. Pre)

  file-Quiet :
      (k : String)
      → Keeps P Pre (λ h. (ok (E.file_at h k), Event.file_at k (E.file_at h k) ∷ h)) (λ _. Pre)
  file-Quiet k = file_at-Keeps E k (λ a h p. allowed.file_at _ _ _) (λ a h p. grows _ h p)

  occupied-Quiet : (path : String) → Quiet (occupied E path)
  unfolding occupied
  occupied-Quiet path = bind-Keeps (file-Quiet path) (λ file.
      if-Keeps file (λ _. ret-Keeps _ (λ h p. p))
        (λ _. entry_at-Keeps E path (λ a h p. allowed.entry_at _ _ _) (λ a h p. grows _ h p)))

  present-Quiet : (path : String) → Quiet (present E path)
  unfolding present adapter_exists
  present-Quiet path = bind-Keeps (occupied-Quiet path) (λ known.
      if-Keeps known (λ _. ret-Keeps _ (λ h p. p))
        (λ _.
          bind-Keeps {Q = λ _. Pre}
            (tried-Keeps (λ h. E.exists h path) (Event.exists path) (λ r h p. allowed.exists _ _ _)
              (λ r h p. grows _ h p))
            (λ r. ret-Keeps _ (λ h p. p))))

  adapter-Quiet :
      (path : String) (first : Try (Unit {0})) (done : List String)
      → Quiet (make_by_adapter E path first done)
  unfolding make_by_adapter
  adapter-Quiet path first done =
      bind-Keeps {Q = λ _. Pre}
        (tried-Keeps (λ h. E.mkdir h path) (Event.mkdir path) (λ r h p. allowed.mkdir _ _ _)
          (λ r h p. grows _ h p))
        (λ second. bind-Keeps (file-Quiet path) (λ file.
          if-Keeps file (λ _. ret-Keeps _ (λ h p. p))
            (λ _. bind-Keeps (present-Quiet path) (λ there.
              if-Keeps there (λ _. ret-Keeps _ (λ h p. p)) (λ _. ret-Keeps _ (λ h p. p))))))

  folder-Quiet : (path : String) (done : List String) → Quiet (make_folder E path done)
  unfolding make_folder
  folder-Quiet path done =
      bind-Keeps {Q = λ _. Pre}
        (tried-Keeps (λ h. E.create_folder h path) (Event.create_folder path)
          (λ r h p. allowed.create_folder _ _ _) (λ r h p. grows _ h p))
        (λ first. bind-Keeps (file-Quiet path) (λ file.
          if-Keeps file (λ _. ret-Keeps _ (λ h p. p))
            (λ _. bind-Keeps (present-Quiet path) (λ there.
              if-Keeps there (λ _. ret-Keeps _ (λ h p. p)) (λ _. adapter-Quiet path first done)))))

  segment-Quiet : (path : String) (done : List String) → Quiet (ensure_segment E path done)
  unfolding ensure_segment
  segment-Quiet path done = bind-Keeps (file-Quiet path) (λ file.
      if-Keeps file (λ _. ret-Keeps _ (λ h p. p))
        (λ _.
          bind-Keeps (occupied-Quiet path)
            (λ known. if-Keeps known (λ _. ret-Keeps _ (λ h p. p)) (λ _. folder-Quiet path done))))

  onwards-Quiet :
      (next : List String → M FoldersResult)
      → ((done : List String) → Quiet (next done))
      → (r : FoldersResult) → Quiet (onwards E next r)
  onwards-Quiet next k (refused reason path error) = ret-Keeps _ (λ h p. p)
  onwards-Quiet next k (created done) = k done

  segments-Quiet :
      (segments : List String) (current : String) (done : List String)
      → Quiet (ensure_segments E current segments done)
  unfolding ensure_segments
  segments-Quiet [] current done = ret-Keeps _ (λ h p. p)
  segments-Quiet (segment ∷ rest) current done =
      bind-Keeps (segment-Quiet _ done)
        (λ made. onwards-Quiet _ (λ d. segments-Quiet rest _ d) made)

  pub ensure_parent_folders-Keeps :
      (path : String) → Keeps P Pre (ensure_parent_folders E path) (λ _. Pre)
  unfolding ensure_parent_folders
  ensure_parent_folders-Keeps path = segments-Quiet _ "" []
