-- ===== src/Sync/Fingerprint.antt =====
-- src/sync/fingerprint.ts: whether a side differs from the last synchronized baseline.
use mineral_obsidian_sync.Base.{
  ℕ, Bool, true, false, not, ◌||◌, ◌≡◌, refl, ◌⊎◌, ◌≢◌, Option, none, some, arith, ◌==◌, opt_str_eq,
  is_some, if◌then◌else◌, opt_str_eq_iff,
}
use mineral_obsidian_sync.Sync.Types.{
  LocalEntry, RemoteEntry, PreviousEntry, LocalBaseline, RemoteBaseline,
}

unfoldable pub local_changed : LocalEntry → PreviousEntry → Bool
local_changed here before = elim before.local_side [
  | none ↦ true
  | some prior ↦ not (here.size == prior.size) || not (here.mtime == prior.mtime)
]

-- The part of `remoteChanged` that is reached when neither side has an ETag.
timestamp_changed : ℕ → Option ℕ → Bool
timestamp_changed modified none = true
timestamp_changed modified (some prior) = not (modified == prior)

unfoldable pub remote_changed : RemoteEntry → PreviousEntry → Bool
unfolding timestamp_changed
remote_changed there before = elim before.remote_side [
  | none ↦ true
  | some prior ↦
      if not (there.size == prior.size)
      then true
      else if is_some there.etag || is_some prior.etag
      then not (opt_str_eq there.etag prior.etag)
      else timestamp_changed there.last_modified prior.last_modified
]

-- The version that a baseline describes on the local side.
pub record SameLocal (here : LocalEntry) (prior : LocalBaseline) : Type 0 where
  pub size : here.size ≡ prior.size
  pub mtime : here.mtime ≡ prior.mtime

-- The version that a baseline describes on the remote side: by ETag where one is known, by the
-- server's timestamp otherwise.
pub record SameRemote (there : RemoteEntry) (prior : RemoteBaseline) : Type 0 where
  pub size : there.size ≡ prior.size
  pub etag : there.etag ≡ prior.etag
  pub stamped :
      (there.etag ≢ none) ⊎ ((there.etag ≡ none) × (prior.last_modified ≡ some there.last_modified))

pub local_changed-eq-false :
    (here : LocalEntry) (before : PreviousEntry)
    → local_changed here before ≡ false
    → (prior : LocalBaseline) × (before.local_side ≡ some prior) × SameLocal here prior
unfolding local_changed
local_changed-eq-false here before h = go before.local_side refl
  where
    go :
        (o : Option LocalBaseline)
        → before.local_side ≡ o
        → (prior : LocalBaseline) × (before.local_side ≡ some prior) × SameLocal here prior
    go none e = ground arith
    go (some prior) e = (prior, e, ground arith)

pub remote_changed-eq-false :
    (there : RemoteEntry) (before : PreviousEntry)
    → remote_changed there before ≡ false
    → (prior : RemoteBaseline) × (before.remote_side ≡ some prior) × SameRemote there prior
unfolding remote_changed
remote_changed-eq-false there before h = go before.remote_side refl
  where
    go :
        (o : Option RemoteBaseline)
        → before.remote_side ≡ o
        → (prior : RemoteBaseline) × (before.remote_side ≡ some prior) × SameRemote there prior
    go none e = ground arith
    go (some prior) e = (prior, e, ground (arith, opt_str_eq_iff there.etag prior.etag))
