-- ===== src/Executor/Downloads/Contents.antt =====
-- What `download` of src/sync/executor.ts writes into the Vault, and which baselines it commits.
pub mod Accounts
use mineral_obsidian_sync.Base.{
  ℕ, String, Bool, true, false, not, ◌&&◌, ◌≡◌, refl, sym, subst, ap, Option, none, some, [], ◌∷◌,
  ◌⊎◌, inl, inr, if◌then◌else◌, is_truthy, str_eq, eq_iff, arith,
}
use mineral_obsidian_sync.Sync.Types.{
  LocalEntry, ExpectedLocal, RemoteEntry, PreviousEntry, LocalBaseline,
}
use mineral_obsidian_sync.Remote.Client
use mineral_obsidian_sync.Remote.Client.{Try, ok, raised, Bytes, Response}
use mineral_obsidian_sync.Local.Reading.{matches}
use mineral_obsidian_sync.Local.Folders.{FoldersResult, refused, created}
use mineral_obsidian_sync.Local.Folders.Quiet.{FoldersAllowed, ensure_parent_folders-Keeps}
use mineral_obsidian_sync.Executor.Result.{OperationResult}
use mineral_obsidian_sync.Executor.Effects.{Env, Event, History, M, Stat, ret}
use mineral_obsidian_sync.Executor.Triples.{
  Traced, Ends-Traced, Keeps, Always, Anything, IfOk, Occurs, Occurs-map, bind-Keeps, attempt-Keeps,
  caught-Keeps, done-Keeps, if-Keeps, ret-Keeps, weaken-Keeps, tried-Keeps,
}
use mineral_obsidian_sync.Executor.Calls.{
  file_at-Keeps, entry_at-Keeps, file_stat-Keeps, stat-Keeps, get-Keeps, now-Keeps,
}
use mineral_obsidian_sync.Executor.Steps.{local_still_matches, get_if_match, commit, entry_for}
use mineral_obsidian_sync.Executor.Steps.Rules.{lift-Keeps, commit-Keeps, record_merge_base-Keeps}
use mineral_obsidian_sync.Executor.Downloads.{
  Verified, matched, unavailable, mismatch, observed_side, version, judge, after_read_back, hashed,
  after_version, verify_written_content, after_folders, create_target, write_target, after_commit,
  after_verification, account_for_download, after_write, place, after_fetch, fetch_and_place,
  download_version, download,
}

-- A conditional GET of the version `etag` returned the bytes.
abbrev pub FetchedAs : String → String → Bytes → Event → Type 0
FetchedAs key etag b (Event.get_object k e (ok r)) =
    (k ≡ key) × (e ≡ etag) × (Client.get_object r ≡ ok b)
FetchedAs key etag b _ = ⊥

-- The file was read back with these bytes.
abbrev pub ReadBack : String → Bytes → Event → Type 0
ReadBack key b (Event.read_binary k (ok b')) = (k ≡ key) × (b' ≡ b)
ReadBack key b _ = ⊥

-- The last call compared the file with the version that the plan expects, with the outcome `still`.
abbrev pub JustCompared : String → ExpectedLocal → Bool → History → Type 0
JustCompared key ExpectedLocal.absent still (Event.file_at k there ∷ h) =
    (k ≡ key) × (not there ≡ still)
JustCompared key (ExpectedLocal.entry e) still (Event.stat k (ok s) ∷ h) =
    (k ≡ e.key) × (matches s e ≡ still)
JustCompared key expected still _ = ⊥

-- Only the look-up of the file lies between the comparison and now.
abbrev pub ComparedBeforeLookup : String → ExpectedLocal → History → Type 0
ComparedBeforeLookup key expected (Event.file_at k true ∷ h) =
    (k ≡ key) × JustCompared key expected true h
ComparedBeforeLookup key expected _ = ⊥

module _ (E : Env) where
  -- The committed pair: the observed remote version, and a local side whose hash is that of bytes
  -- which the file gave back after the write and that of bytes which R2 sent.
  pub record Confirmed (key etag : String) (there : RemoteEntry) (p : PreviousEntry) (h : History)
      : Type 0 where
    pub sent : Bytes
    pub found : Bytes
    pub side : LocalBaseline
    pub same_key : p.key ≡ key
    pub remote_half : p.remote_side ≡ some (observed_side there)
    pub local_half : p.local_side ≡ some side
    pub recorded : side.hash ≡ some (E.sha256 sent)
    pub same_hash : E.sha256 found ≡ E.sha256 sent
    pub fetched : Occurs (FetchedAs key etag sent) h
    pub read_back : Occurs (ReadBack key found) h

  -- What a download may call, and after which past.
  abbrev pub DownloadRule : String → String → ExpectedLocal → RemoteEntry → Event → History → Type 0
  DownloadRule key etag expected there (Event.get_object k e _) h = (k ≡ key) × (e ≡ etag)
  DownloadRule key etag expected there (Event.modify_binary k b _) h =
      (k ≡ key) × ComparedBeforeLookup key expected h × Occurs (FetchedAs key etag b) h
  DownloadRule key etag expected there (Event.create_binary k b _) h =
      (k ≡ key) × JustCompared key expected true h × Occurs (FetchedAs key etag b) h
  DownloadRule key etag expected there (Event.state_put p _) h = Confirmed key etag there p h
  DownloadRule key etag expected there (Event.file_at _ _) h = Unit
  DownloadRule key etag expected there (Event.entry_at _ _) h = Unit
  DownloadRule key etag expected there (Event.stat _ _) h = Unit
  DownloadRule key etag expected there (Event.file_stat _ _) h = Unit
  DownloadRule key etag expected there (Event.read_binary _ _) h = Unit
  DownloadRule key etag expected there (Event.create_folder _ _) h = Unit
  DownloadRule key etag expected there (Event.mkdir _ _) h = Unit
  DownloadRule key etag expected there (Event.exists _ _) h = Unit
  DownloadRule key etag expected there (Event.now _) h = Unit
  DownloadRule key etag expected there (Event.record_base k _ _) h = k ≡ key
  DownloadRule key etag expected there _ h = ⊥

module _ (E : Env) (key etag : String) (expected : ExpectedLocal) (there : RemoteEntry) where
  abbrev Rule : Event → History → Type 0
  Rule = DownloadRule E key etag expected there

  folders : FoldersAllowed Rule
  folders = record {
    file_at = λ k a h. tt;
    entry_at = λ k a h. tt;
    exists = λ k a h. tt;
    create_folder = λ k a h. tt;
    mkdir = λ k a h. tt;
  }

  abbrev Fetched : Bytes → History → Type 0
  Fetched b = Occurs (FetchedAs key etag b)

  -- The comparison with the expectation, whatever was known before.
  still-Keeps :
      (x : ExpectedLocal) {Pre : History → Type 0}
      → ((e : Event) (h : History) → Pre h → Pre (e ∷ h))
      → Keeps Rule Pre (local_still_matches E key x) (λ still h. JustCompared key x still h × Pre h)
  unfolding local_still_matches
  still-Keeps ExpectedLocal.absent {Pre} grows =
      bind-Keeps {Q = λ there h. JustCompared key ExpectedLocal.absent (not there) h × Pre h}
        (file_at-Keeps E key (λ a h p. tt) (λ a h p. ((refl, refl), grows _ h p)))
        (λ file. ret-Keeps _ (λ h p. p))
  still-Keeps (ExpectedLocal.entry e) {Pre} grows =
      bind-Keeps {Q = λ s h. JustCompared key (ExpectedLocal.entry e) (matches s e) h × Pre h}
        (stat-Keeps E e.key (λ r h p. tt) (λ a h p. ((refl, refl), grows _ h p)))
        (λ s. ret-Keeps _ (λ h p. p))

  create-Keeps :
      (b : Bytes) (made : FoldersResult)
      → Keeps Rule (Fetched b) (after_folders E key expected b made) (λ _. Fetched b)
  unfolding after_folders
  create-Keeps b (refused reason path error) = ret-Keeps _ (λ h p. p)
  create-Keeps b (created done) = bind-Keeps (still-Keeps expected (λ e h p. inr p)) (λ still.
      if-Keeps still
        (λ e.
          bind-Keeps {Q = λ _. Fetched b}
            (tried-Keeps (λ h. E.create_binary h key b) (Event.create_binary key b)
              (λ r h (c, f). (refl, subst (λ s. JustCompared key expected s h) e c, f))
              (λ r h (c, f). inr f))
            (λ r. ret-Keeps _ (λ h p. p)))
        (λ _. ret-Keeps _ (λ h (c, f). f)))

  -- What the look-up of the file tells.
  abbrev AfterLookup : Bytes → Bool → History → Type 0
  AfterLookup b true h = ComparedBeforeLookup key expected h × Fetched b h
  AfterLookup b false h = Fetched b h

  after_lookup :
      (b : Bytes) (file : Bool) (h : History)
      → JustCompared key expected true h × Fetched b h
      → AfterLookup b file (Event.file_at key file ∷ h)
  after_lookup b true h (c, f) = ((refl, c), inr f)
  after_lookup b false h (c, f) = inr f

  write-Keeps :
      (b : Bytes)
      → Keeps Rule
          (λ h. JustCompared key expected true h × Fetched b h)
          (write_target E key expected b)
          (λ _. Fetched b)
  unfolding write_target create_target
  write-Keeps b =
      bind-Keeps {Q = AfterLookup b}
        (file_at-Keeps E key (λ a h p. tt) (λ a h p. after_lookup b a h p))
        (λ file.
          if-Keeps file
            (λ e.
              bind-Keeps {Q = λ _. Fetched b}
                (tried-Keeps (λ h. E.modify_binary h key b) (Event.modify_binary key b)
                  (λ r h p. let (c, f) = subst (λ x. AfterLookup b x h) e p in (refl, c, f))
                  (λ r h p. let (c, f) = subst (λ x. AfterLookup b x h) e p in inr f))
                (λ r. ret-Keeps _ (λ h p. p)))
            (λ e.
              weaken-Keeps {Pre = Fetched b} (λ h p. subst (λ x. AfterLookup b x h) e p)
                (bind-Keeps {Q = λ _. Fetched b}
                  (entry_at-Keeps E key (λ a h p. tt) (λ a h p. inr p))
                  (λ taken.
                    if-Keeps taken (λ _. ret-Keeps _ (λ h p. p))
                      (λ _.
                        bind-Keeps (ensure_parent_folders-Keeps E folders (λ e h p. inr p) key)
                          (λ made. create-Keeps b made))))))
