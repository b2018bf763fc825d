-- ===== src/Executor/Downloads/Contents/Accounts.antt =====
-- What `download` of src/sync/executor.ts accounts for after its write.
use mineral_obsidian_sync.Base.{
  String, Bool, true, false, ◌&&◌, ◌≡◌, refl, sym, subst, ap, ◌∙◌, Option, none, some, [], ◌∷◌, inl,
  inr, if◌then◌else◌, is_truthy, str_eq, eq_iff,
}
use mineral_obsidian_sync.Sync.Types.{ExpectedLocal, RemoteEntry}
use mineral_obsidian_sync.Remote.Client
use mineral_obsidian_sync.Remote.Client.{Try, ok, raised, Bytes, Response}
use mineral_obsidian_sync.Local.Reading.{matches}
use mineral_obsidian_sync.Executor.Result.{OperationResult}
use mineral_obsidian_sync.Executor.Effects.{Env, Event, History, Stat}
use mineral_obsidian_sync.Executor.Triples.{
  Traced, Ends-Traced, Keeps, Always, Anything, IfOk, Occurs, Occurs-map, bind-Keeps, attempt-Keeps,
  caught-Keeps, done-Keeps, if-Keeps, ret-Keeps, weaken-Keeps, tried-Keeps, forget-Keeps,
}
use mineral_obsidian_sync.Executor.Calls.{file_stat-Keeps, get-Keeps, now-Keeps}
use mineral_obsidian_sync.Executor.Steps.{get_if_match}
use mineral_obsidian_sync.Executor.Steps.Rules.{lift-Keeps, commit-Keeps, record_merge_base-Keeps}
use mineral_obsidian_sync.Executor.Downloads.{
  Verified, matched, unavailable, mismatch, version, judge, after_read_back, hashed, after_version,
  verify_written_content, after_commit, after_verification, account_for_download, after_write,
  place, after_fetch, fetch_and_place, download_version, download,
}
use mineral_obsidian_sync.Executor.Downloads.Contents.{
  FetchedAs, ReadBack, JustCompared, DownloadRule, still-Keeps, write-Keeps,
}

module _ (E : Env) (key etag : String) (expected : ExpectedLocal) (there : RemoteEntry) where
  abbrev Allowed : Event → History → Type 0
  Allowed = DownloadRule E key etag expected there

  version-Keeps :
      {Pre : History → Type 0}
      → ((e : Event) (h : History) → Pre h → Pre (e ∷ h))
      → Keeps Allowed Pre (version E key) (λ _. Pre)
  unfolding version
  version-Keeps {Pre} grows =
      bind-Keeps {Q = λ _. Pre} (file_stat-Keeps E key (λ a h p. tt) (λ a h p. grows _ h p))
        (λ direct.
          bind-Keeps {Q = λ _. Pre}
            (tried-Keeps (λ h. E.stat h key) (Event.stat key) (λ r h p. tt) (λ r h p. grows _ h p))
            (λ s. ret-Keeps _ (λ h p. p)))

  -- What the verification of the bytes `b` tells.
  abbrev VerifiedBy : Bytes → Verified → History → Type 0
  VerifiedBy b (matched s hash) h =
      Occurs (FetchedAs key etag b) h
      × ((found : Bytes) × Occurs (ReadBack key found) h
          × (hash ≡ E.sha256 found)
          × (E.sha256 found ≡ E.sha256 b))
  VerifiedBy b _ h = Unit

  -- The bytes were fetched, and `found` was read back.
  abbrev Both : Bytes → Bytes → History → Type 0
  Both b found h = Occurs (FetchedAs key etag b) h × Occurs (ReadBack key found) h

  judged :
      (b found : Bytes) (before : Stat) (after : Option Stat) (h : History)
      → Both b found h
      → VerifiedBy b (judge E before after b found) h
  judged b found before none h p = tt
  judged b found before (some after) h p =
      chosen (matches (some after) _) (str_eq (E.sha256 b) (E.sha256 found)) refl
    where
      chosen :
          (m t : Bool)
          → str_eq (E.sha256 b) (E.sha256 found) ≡ t
          → VerifiedBy b (if m && t then matched after (E.sha256 found) else mismatch) h
      chosen true true e =
          (p.0, (found, p.1, refl, sym ((eq_iff (E.sha256 b) (E.sha256 found)).0 e)))
      chosen true false e = tt
      chosen false t e = tt

  -- What the read-back tells.
  abbrev AfterReadBack : Bytes → Try Bytes → History → Type 0
  AfterReadBack b (ok found) h = Both b found h
  AfterReadBack b (raised e) h = Unit

  after_read_back_lem :
      (b : Bytes) (r : Try Bytes) (h : History)
      → Occurs (FetchedAs key etag b) h
      → AfterReadBack b r (Event.read_binary key r ∷ h)
  after_read_back_lem b (ok found) h f = (inr f, inl (refl, refl))
  after_read_back_lem b (raised e) h f = tt

  read_back-Keeps :
      (b : Bytes) (before : Stat) (r : Try Bytes)
      → Keeps Allowed (AfterReadBack b r) (after_read_back E key b before r) (VerifiedBy b)
  unfolding after_read_back
  read_back-Keeps b before (raised e) = ret-Keeps _ (λ h p. tt)
  read_back-Keeps b before (ok found) =
      bind-Keeps (version-Keeps (λ e h (f, r). (inr f, inr r)))
        (λ after. ret-Keeps _ (λ h p. judged b found before after h p))

  verify-Keeps :
      (b : Bytes)
      → Keeps Allowed
          (Occurs (FetchedAs key etag b))
          (verify_written_content E key b)
          (VerifiedBy b)
  unfolding verify_written_content
  verify-Keeps b = bind-Keeps (version-Keeps (λ e h p. inr p)) (λ before. seen before)
    where
      seen :
          (before : Option Stat)
          → Keeps Allowed
              (Occurs (FetchedAs key etag b))
              (after_version E key b before)
              (VerifiedBy b)
      seen none = ret-Keeps _ (λ h p. tt)
      seen (some before) =
          bind-Keeps {Q = AfterReadBack b}
            (tried-Keeps (λ h. E.read_binary h key) (Event.read_binary key) (λ r h p. tt)
              (λ r h p. after_read_back_lem b r h p))
            (λ r. read_back-Keeps b before r)

  commit-Keeps_after :
      (s : Stat) (r : Option OperationResult)
      → Keeps Allowed Always (after_commit E key there s r) Anything
  unfolding after_commit
  commit-Keeps_after s (some r) = done-Keeps _
  commit-Keeps_after s none =
      bind-Keeps {Q = Anything}
        (record_merge_base-Keeps E key _ _ (λ h p. refl) (λ h p. tt) (λ h p. tt))
        (λ _. done-Keeps _)

  verified-Keeps :
      (b : Bytes) (v : Verified)
      → Keeps Allowed (VerifiedBy b v) (after_verification E key there v) Anything
  unfolding after_verification
  verified-Keeps b unavailable = done-Keeps _
  verified-Keeps b mismatch = done-Keeps _
  verified-Keeps b (matched s hash) =
      bind-Keeps {Q = λ _. VerifiedBy b (matched s hash)}
        (now-Keeps E (λ a h p. tt) (λ a h (f, (found, r, x, y)). (inr f, (found, inr r, x, y))))
        (λ at.
          bind-Keeps {Q = Anything}
            (commit-Keeps E key _ (λ r h (f, (found, rb, x, y)). record {
              sent = b;
              found = found;
              side = hashed E s hash;
              same_key = refl;
              remote_half = refl;
              local_half = refl;
              recorded = ap some (x ∙ y);
              same_hash = y;
              fetched = f;
              read_back = rb;
            }))
            (λ refusal. commit-Keeps_after s refusal))

  after_write-Keeps :
      (b : Bytes) (wrote : Try (Option OperationResult))
      → Keeps Allowed
          (IfOk (λ _. Occurs (FetchedAs key etag b)) wrote)
          (after_write E key there b wrote)
          Anything
  unfolding after_write account_for_download
  after_write-Keeps b (raised e) = done-Keeps _
  after_write-Keeps b (ok (some r)) = done-Keeps _
  after_write-Keeps b (ok none) =
      bind-Keeps {Q = Anything}
        (caught-Keeps (bind-Keeps (verify-Keeps b) (λ v. verified-Keeps b v))) (λ r. done-Keeps _)

  fetch-Keeps_after :
      (got : Try Bytes)
      → Keeps Allowed
          (IfOk (λ b. Occurs (FetchedAs key etag b)) got)
          (after_fetch E key expected there got)
          Anything
  unfolding after_fetch place
  fetch-Keeps_after (raised e) = done-Keeps _
  fetch-Keeps_after (ok b) =
      bind-Keeps (still-Keeps E key etag expected there expected (λ e h p. inr p)) (λ again.
        if-Keeps again
          (λ e.
            weaken-Keeps
              {Pre = λ h. JustCompared key expected true h × Occurs (FetchedAs key etag b) h}
              (λ h (c, f). (subst (λ s. JustCompared key expected s h) e c, f))
              (bind-Keeps (attempt-Keeps (write-Keeps E key etag expected there b))
                (λ wrote. after_write-Keeps b wrote)))
          (λ _. done-Keeps _))

  -- The GET whose response `r` is still to be read.
  abbrev Got : Response → Event → Type 0
  Got r (Event.get_object k e (ok r')) = (k ≡ key) × (e ≡ etag) × (r' ≡ r)
  Got r _ = ⊥

  Got-FetchedAs :
      (r : Response) (b : Bytes)
      → Client.get_object r ≡ ok b
      → (e : Event) → Got r e
      → FetchedAs key etag b e
  Got-FetchedAs r b v (Event.get_object k e (ok r')) (x, y, z) = (x, y, rw z v)
  Got-FetchedAs r b v _ s = elim s [ ]

  fetch-Keeps : Keeps Allowed Always (fetch_and_place E key expected there etag) Anything
  unfolding fetch_and_place get_if_match
  fetch-Keeps =
      bind-Keeps
        (attempt-Keeps (
          bind-Keeps {Q = λ r. Occurs (Got r)}
            (get-Keeps E key etag (λ r h p. (refl, refl)) (λ a h p. inl (refl, refl, refl)))
            (λ r.
              lift-Keeps E key (Client.get_object r) {Q = λ b. Occurs (FetchedAs key etag b)}
                (λ b h e p. Occurs-map (Got-FetchedAs r b e) h p))))
        (λ got. fetch-Keeps_after got)

  versioned-Keeps :
      Keeps Allowed Always (download_version E key expected there (some etag)) Anything
  unfolding download_version
  versioned-Keeps =
      if-Keeps (is_truthy (some etag))
        (λ _.
          bind-Keeps {Q = Anything}
            (weaken-Keeps {Pre = Always} (λ h p. tt)
              (forget-Keeps
                (still-Keeps E key etag expected there expected {Pre = Always} (λ e h p. tt))))
            (λ still. if-Keeps still (λ _. fetch-Keeps) (λ _. done-Keeps _)))
        (λ _. done-Keeps _)

-- A download of an entry that has an ETag fetches only this version of its key. It writes into the
-- Vault only bytes that such a conditional GET returned, directly after the file was found as the plan
-- expects it, and commits a baseline only of the observed remote version with the hash of fetched
-- bytes that equals the hash of bytes read back from the file. It writes nothing to R2.
pub download-Traced :
    (E : Env) (key etag : String) (expected : ExpectedLocal) (there : RemoteEntry)
    → there.etag ≡ some etag
    → Traced (DownloadRule E key etag expected there) (download E key expected there []).1
unfolding download
download-Traced E key etag expected there e =
    subst
      (λ t.
        Traced (DownloadRule E key etag expected there)
          (download_version E key expected there t []).1)
      (sym e)
      (Ends-Traced _ (download_version E key expected there (some etag) [])
        ((versioned-Keeps E key etag expected there).run [] tt tt))
