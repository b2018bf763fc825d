-- ===== src/Executor/Transfers/Baselines.antt =====
-- Which baselines the uploads of src/sync/executor.ts commit, and what they write to R2.
use mineral_obsidian_sync.Base.{
  String, true, false, ◌≡◌, refl, Option, none, some, [], inl, inr, is_truthy, arith,
}
use mineral_obsidian_sync.Sync.Types.{LocalEntry, ExpectedRemote, PreviousEntry, RemoteVersion}
use mineral_obsidian_sync.Remote.Client.{Try, ok, raised, Bytes, PutOptions}
use mineral_obsidian_sync.Local.Reading.{matches}
use mineral_obsidian_sync.Local.Reading.Stable.{
  ReadStably, ReadsAllowed, read_stable-Keeps, read_current-Keeps,
}
use mineral_obsidian_sync.Executor.Result.{OperationResult}
use mineral_obsidian_sync.Executor.Effects.{Env, Event, History, M}
use mineral_obsidian_sync.Executor.Triples.{
  Traced, Ends-Traced, Keeps, Always, Anything, IfOk, bind-Keeps, attempt-Keeps, caught-Keeps,
  done-Keeps, if-Keeps, weaken-Keeps, Occurs, given-Keeps,
}
use mineral_obsidian_sync.Executor.Calls.{stat-Keeps}
use mineral_obsidian_sync.Executor.Steps.{remote_side_of, put_with_backup}
use mineral_obsidian_sync.Executor.Steps.Rules.{
  Sometime, Sometime-now, LandedAs, IsConditional, put_with_backup-Keeps, commit_floor-Keeps,
  record_merge_base-Keeps,
}
use mineral_obsidian_sync.Executor.Transfers.{
  upload, after_read, account_for, after_floor, catch_up_latest_local_upload, after_latest,
  catch_up_put, put_options, lacks_etag,
}

-- The baseline pairs a local version whose bytes were read stably with the remote version that a PUT
-- of these very bytes produced.
pub record Proven (key : String) (p : PreviousEntry) (h : History) : Type 0 where
  pub bytes : Bytes
  pub version : LocalEntry
  pub remote : RemoteVersion
  pub same_key : p.key ≡ key
  pub local_half :
      p.local_side ≡ some (record { size = version.size; mtime = version.mtime; hash = none })
  pub remote_half : p.remote_side ≡ some (remote_side_of remote)
  pub read : Sometime (ReadStably version bytes) h
  pub sent : Occurs (LandedAs key bytes remote) h

-- A write to R2 is conditional and sends bytes that were read stably; a baseline is proven; the
-- Vault is only read.
abbrev pub UploadRule : String → Event → History → Type 0
UploadRule key (Event.put_object k b o _) h =
    (k ≡ key) × IsConditional o × ((v : LocalEntry) × Sometime (ReadStably v b) h)
UploadRule key (Event.state_put p _) h = Proven key p h
UploadRule key (Event.backup k _ _) h = k ≡ key
UploadRule key (Event.file_at _ _) h = Unit
UploadRule key (Event.stat _ _) h = Unit
UploadRule key (Event.read_binary _ _) h = Unit
UploadRule key Event.recovery_changed h = Unit
UploadRule key (Event.record_base k _ _) h = k ≡ key
UploadRule key (Event.now _) h = Unit
UploadRule key _ h = ⊥

-- After a PUT of stably read bytes that landed.
abbrev pub Landed : String → LocalEntry → Bytes → RemoteVersion → History → Type 0
Landed key e b v h =
    Sometime (ReadStably e b) h × Occurs (LandedAs key b v) h × (is_truthy v.etag ≡ true)

module _ (E : Env) (key : String) where
  abbrev Rule : Event → History → Type 0
  Rule = UploadRule key

  pub reads : ReadsAllowed Rule
  reads = record { file_at = λ k a h. tt; stat = λ k a h. tt; read_binary = λ k a h. tt }

  pub put-Keeps_upload :
      (e : LocalEntry) (b : Bytes) (o : PutOptions)
      → IsConditional o
      → Keeps Rule (Sometime (ReadStably e b)) (put_with_backup E key b o) (λ v. Landed key e b v)
  put-Keeps_upload e b o c =
      put_with_backup-Keeps E key (ReadStably e b) b o (λ k etag r h same. same) (λ h. tt)
        (λ r h p. (refl, c, (e, p)))

  floor-Keeps :
      (e : LocalEntry) (b : Bytes) (v : RemoteVersion) (moved_on : M OperationResult)
      (floor : Option OperationResult)
      → Keeps Rule Always moved_on Anything
      → Keeps Rule Always (after_floor E key e v moved_on floor) Anything
  unfolding after_floor
  floor-Keeps e b v moved_on (some r) k = done-Keeps _
  floor-Keeps e b v moved_on none k =
      bind-Keeps {Q = Anything}
        (record_merge_base-Keeps E key e v.etag (λ h p. refl) (λ h p. tt) (λ h p. tt))
        (λ _.
          bind-Keeps {Q = Anything} (stat-Keeps E key (λ r h p. tt) (λ a h p. tt))
            (λ s. if-Keeps (matches s e) (λ _. done-Keeps _) (λ _. k)))

  pub account-Keeps :
      (e : LocalEntry) (b : Bytes) (v : RemoteVersion) (moved_on : M OperationResult)
      → Keeps Rule Always moved_on Anything
      → Keeps Rule (Landed key e b v) (account_for E key e v moved_on) Anything
  unfolding account_for
  account-Keeps e b v moved_on k =
      bind-Keeps {Q = Anything}
        (commit_floor-Keeps E key e v (λ at h. tt)
          (λ at r h (stable, sent, _). record {
            bytes = b;
            version = e;
            remote = v;
            same_key = refl;
            local_half = refl;
            remote_half = refl;
            read = inr stable;
            sent = inr sent;
          }))
        (λ floor. floor-Keeps e b v moved_on floor k)

  catch_up_put-Keeps :
      (first : RemoteVersion) (found : Bytes × LocalEntry)
      → is_truthy first.etag ≡ true
      → Keeps Rule (Sometime (ReadStably found.1 found.0)) (catch_up_put E key first found) Anything
  unfolding catch_up_put
  catch_up_put-Keeps first (b, e) t =
      bind-Keeps {Q = Anything}
        (caught-Keeps
          (bind-Keeps (put-Keeps_upload e b _ (inl t)) (λ v. account-Keeps e b v _ (done-Keeps _))))
        (λ r. done-Keeps _)

  latest-Keeps :
      (first : RemoteVersion) (latest : Try (Bytes × LocalEntry))
      → is_truthy first.etag ≡ true
      → Keeps Rule
          (IfOk (λ (b, v) h. ReadStably v b h) latest)
          (after_latest E key first latest)
          Anything
  unfolding after_latest
  latest-Keeps first (raised e) t = done-Keeps _
  latest-Keeps first (ok found) t =
      weaken-Keeps (λ h p. Sometime-now (ReadStably found.1 found.0) h p)
        (catch_up_put-Keeps first found t)

  catch_up-Keeps :
      (first : RemoteVersion)
      → is_truthy first.etag ≡ true
      → Keeps Rule Always (catch_up_latest_local_upload E key first) Anything
  unfolding catch_up_latest_local_upload
  catch_up-Keeps first t =
      bind-Keeps (attempt-Keeps (read_current-Keeps E reads key))
        (λ latest. latest-Keeps first latest t)

  put_options-IsConditional :
      (expected : ExpectedRemote)
      → lacks_etag expected ≡ false
      → IsConditional (put_options expected)
  put_options-IsConditional ExpectedRemote.absent l = inr refl
  put_options-IsConditional (ExpectedRemote.etag e) l = inl (ground arith)

  after_read-Keeps :
      (here : LocalEntry) (expected : ExpectedRemote) (read : Try Bytes)
      → lacks_etag expected ≡ false
      → Keeps Rule (IfOk (ReadStably here) read) (after_read E key here expected read) Anything
  unfolding after_read
  after_read-Keeps here expected (raised e) l = done-Keeps _
  after_read-Keeps here expected (ok b) l =
      weaken-Keeps (λ h p. Sometime-now (ReadStably here b) h p)
        (bind-Keeps {Q = Anything}
          (caught-Keeps (
            bind-Keeps (put-Keeps_upload here b _ (put_options-IsConditional expected l)) (λ v.
              given-Keeps (λ h (_, _, t). t) (λ t. account-Keeps here b v _ (catch_up-Keeps v t)))))
          (λ r. done-Keeps _))

  upload-Keeps :
      (here : LocalEntry) (expected : ExpectedRemote)
      → Keeps Rule Always (upload E key here expected) Anything
  unfolding upload
  upload-Keeps here expected =
      if-Keeps (lacks_etag expected) (λ _. done-Keeps _)
        (λ l.
          bind-Keeps (attempt-Keeps (read_stable-Keeps E reads here))
            (λ read. after_read-Keeps here expected read l))

-- Whatever the environment answers, an upload makes only the calls that `UploadRule` allows: every PUT
-- to R2 is conditional and sends bytes read between two equal looks at a local version, every baseline
-- that is written pairs such a version with the remote version a landed PUT of its bytes produced, and
-- nothing in the Vault is changed.
pub upload-Traced :
    (E : Env) (key : String) (here : LocalEntry) (expected : ExpectedRemote)
    → Traced (UploadRule key) (upload E key here expected []).1
upload-Traced E key here expected =
    Ends-Traced (UploadRule key) (upload E key here expected [])
      ((upload-Keeps E key here expected).run [] tt tt)
