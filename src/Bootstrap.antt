-- ===== src/Bootstrap.antt =====
-- src/bootstrap/bootstrap.ts: first baselines for pairs whose bytes are proven equal.
pub mod Verified
use mineral_obsidian_sync.Base.{
  ℕ, suc, ◌+◌, String, Bool, true, false, not, ◌&&◌, ◌||◌, Option, none, some, List, [], ◌∷◌, ◌++◌,
  ◌==◌, keep, length, str_eq, is_some, if◌then◌else◌,
}
use mineral_obsidian_sync.Base.Maps.{Map, insert, lookup, keys}
use mineral_obsidian_sync.Base.Sorting.{sort, distinct}
use mineral_obsidian_sync.Sync.Types.{
  LocalEntry, RemoteEntry, PreviousEntry, RemoteIdentity, SyncOperation,
}
use mineral_obsidian_sync.Sync.Planner.{build_sync_plan}
use mineral_obsidian_sync.Remote.Client.{Try, ok, raised, Bytes}

abbrev pub is_complete : Option PreviousEntry → Bool
is_complete none = false
is_complete (some p) = is_some p.local_side && is_some p.remote_side

unfoldable pub candidate : Option LocalEntry → Option RemoteEntry → Option PreviousEntry → Bool
candidate (some here) (some there) before = (here.size == there.size) && not (is_complete before)
candidate _ _ before = false

abbrev differs_in_size : Option LocalEntry → Option RemoteEntry → Option PreviousEntry → Bool
differs_in_size (some here) (some there) before =
    not (here.size == there.size) && not (is_complete before)
differs_in_size _ _ before = false

pub record BootstrapDiagnostics : Type 0 where
  pub verified_identical : ℕ
  pub hashed_files : ℕ
  pub hashed_bytes : ℕ
  pub different_content : ℕ
  pub unresolved : ℕ

pub record Progress : Type 0 where
  pub candidates : Map PreviousEntry
  pub diagnostics : BootstrapDiagnostics

-- The reader, the digest, the clock and the namespace in force.
pub record Reader : Type 0 where
  pub read_local : String → LocalEntry → Try Bytes
  pub read_remote : String → RemoteEntry → Try Bytes
  pub sha256 : Bytes → String
  pub now : ℕ
  pub identity : Option RemoteIdentity
  pub ignore_policy : Option String

module _ (R : Reader) where
  abbrev pub baseline_of : String → LocalEntry → RemoteEntry → Bytes → Bytes → PreviousEntry
  baseline_of key here there l r = record {
    key = key;
    local_side = some (record { size = here.size; mtime = here.mtime; hash = some (R.sha256 l) });
    remote_side = some (record {
      size = there.size;
      etag = there.etag;
      last_modified = some there.last_modified;
      hash = some (R.sha256 r);
    });
    synced_at = R.now;
    remote_identity = R.identity;
    ignore_policy = R.ignore_policy;
  }

  abbrev hashed : BootstrapDiagnostics → Bytes → Bytes → BootstrapDiagnostics
  hashed d l r = record d {
    hashed_files = d.hashed_files + 1;
    hashed_bytes = d.hashed_bytes + (length l + length r);
  }

  -- The `catch` of a worker that was not aborted.
  abbrev give_up : Progress → Progress
  give_up p = record p {
    diagnostics = record (p.diagnostics) { unresolved = p.diagnostics.unresolved + 1 };
  }

  abbrev compare_bytes : String → LocalEntry → RemoteEntry → Bytes → Bytes → Progress → Progress
  compare_bytes key here there l r p =
      let d = hashed p.diagnostics l r in
      if not (str_eq (R.sha256 l) (R.sha256 r))
      then record p { diagnostics = record d { different_content = d.different_content + 1 } }
      else record {
        candidates = insert key (baseline_of key here there l r) p.candidates;
        diagnostics = record d { verified_identical = d.verified_identical + 1 };
      }

  abbrev compare_read :
      String → LocalEntry → RemoteEntry → Try Bytes → Try Bytes → Progress → Progress
  compare_read key here there (ok l) (ok r) p = compare_bytes key here there l r p
  compare_read key here there _ _ p = give_up p

  -- The turn of a worker for one key; both entries are there, since the key is a candidate.
  unfoldable pub compare_key : String → Option LocalEntry → Option RemoteEntry → Progress → Progress
  compare_key key (some here) (some there) p =
      compare_read key here there (R.read_local key here) (R.read_remote key there) p
  compare_key key _ _ p = p

  unfoldable pub compare_keys : Map LocalEntry → Map RemoteEntry → List String → Progress → Progress
  unfolding compare_key
  compare_keys l r [] p = p
  compare_keys l r (key ∷ ks) p =
      compare_keys l r ks (compare_key key (lookup key l) (lookup key r) p)

  -- `for (const [key, entry] of baselineCandidates) plannerPrevious.set(key, entry)`
  unfoldable pub overlay_baselines : Map PreviousEntry → Map PreviousEntry → Map PreviousEntry
  overlay_baselines [] previous = previous
  overlay_baselines ((key, p) ∷ rest) previous = overlay_baselines rest (insert key p previous)

  -- `buildBootstrapResult` without an abort, its workers one after the other.
  module _ (before : String → String → Bool) where
    abbrev pub all_keys : Map LocalEntry → Map RemoteEntry → List String
    all_keys l r = sort before (distinct (keys l ++ keys r))

    abbrev pub candidate_keys : Map LocalEntry → Map RemoteEntry → Map PreviousEntry → List String
    candidate_keys l r previous =
        keep (λ key. candidate (lookup key l) (lookup key r) (lookup key previous)) (all_keys l r)

    abbrev pub metadata_different : Map LocalEntry → Map RemoteEntry → Map PreviousEntry → ℕ
    metadata_different l r previous = length (
        keep (λ key. differs_in_size (lookup key l) (lookup key r) (lookup key previous))
          (all_keys l r))

    unfoldable pub bootstrap : Map LocalEntry → Map RemoteEntry → Map PreviousEntry → Progress
    unfolding compare_keys candidate
    bootstrap l r previous = compare_keys l r (candidate_keys l r previous) (record {
      candidates = [];
      diagnostics = record {
        verified_identical = 0;
        hashed_files = 0;
        hashed_bytes = 0;
        different_content = metadata_different l r previous;
        unresolved = 0;
      };
    })

    unfoldable pub build_bootstrap_result :
        Map LocalEntry → Map RemoteEntry → Map PreviousEntry → List SyncOperation × Progress
    unfolding bootstrap overlay_baselines build_sync_plan
    build_bootstrap_result l r previous =
        let p = bootstrap l r previous in
        (build_sync_plan before l r (overlay_baselines p.candidates previous) [], p)
