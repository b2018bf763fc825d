-- ===== src/Tests/Views.antt =====
-- The remote view, the observation of a local deletion and the bootstrap at concrete data.
use mineral_obsidian_sync.Base.{String, Bool, true, false, ◌≡◌, refl, Option, none, some, [], ◌∷◌}
use mineral_obsidian_sync.Base.Maps.{lookup, insert, keys}
use mineral_obsidian_sync.Base.Sorting.{sort, distinct}
use mineral_obsidian_sync.Sync.Types.{LocalEntry, RemoteEntry, RemoteDeletionIdentity}
use mineral_obsidian_sync.Sync.Planner.{ResolutionProposal, plan_key}
use mineral_obsidian_sync.Remote.Client.{ok, Bytes}
use mineral_obsidian_sync.Remote.Scan.{Tombstone}
use mineral_obsidian_sync.Sync.RemoteDelta.{Dependencies, Record, find_among, observe_key}
use mineral_obsidian_sync.Sync.RemoteDelta.Resurrection.{observe_key-no_resurrection}
use mineral_obsidian_sync.Bootstrap.{Reader, baseline_of, bootstrap}
use mineral_obsidian_sync.Bootstrap.Verified.{IsVerified, bootstrap-IsVerified}

abbrev object : RemoteEntry
object = record { key = "a.md"; size = 3; etag = some "e1"; last_modified = 4; deleted = none }

abbrev tombstone : Tombstone
tombstone = record {
  deletion = record {
    path = "a.md";
    deleted_remote_etag = "e1";
    created_at = some 5;
    metadata_last_modified = some 6;
  };
  created_text = "2026-01-01T00:00:00Z";
  metadata_etag = none;
}

abbrev ignore_nothing : String → Bool
ignore_nothing key = false

abbrev stored : Record
stored = record { path = "a.md"; deleted_remote_etag = "e1"; created_at = "2026-01-01T00:00:00Z" }

abbrev its_identity : RemoteDeletionIdentity
its_identity = record {
  path = "a.md";
  deleted_remote_etag = "e1";
  created_at = some "2026-01-01T00:00:00Z";
  metadata_etag = none;
  object_present = true;
}

-- The note was deleted here, its tombstone stands, and no baseline is left.
abbrev deleted_here : Dependencies
deleted_here = record {
  ignores = ignore_nothing;
  accepts_baseline = λ key p. true;
  previous = [];
  stat_local = λ key. none;
  observe_object = λ key. ok object;
  read_keys = λ path etag. "k" ∷ [];
  read_record = λ k. ok stored;
}

observe_key-no_resurrection_example :
    (seen : RemoteEntry) × (observe_key deleted_here "a.md" ≡ ok (some seen))
    × ((p : Option ResolutionProposal) → plan_key "a.md" none (some seen) none p ≡ none)
unfolding find_among lookup
observe_key-no_resurrection_example =
    observe_key-no_resurrection deleted_here "a.md" "e1" object its_identity refl refl refl refl
      refl

abbrev as_listed : String → String → Bool
as_listed a b = true

abbrev here : LocalEntry
here = record { key = "a.md"; size = 3; mtime = 10 }

abbrev reader : Reader
reader = record {
  read_local = λ key e. ok (1 ∷ 2 ∷ 3 ∷ []);
  read_remote = λ key e. ok (1 ∷ 2 ∷ 3 ∷ []);
  sha256 = λ b. "digest";
  now = 11;
  identity = none;
  ignore_policy = none;
}

abbrev bytes : Bytes
bytes = 1 ∷ 2 ∷ 3 ∷ []

bootstrap-IsVerified_example :
    IsVerified reader
      (("a.md", here) ∷ [])
      (("a.md", object) ∷ [])
      []
      "a.md"
      (baseline_of reader "a.md" here object bytes bytes)
unfolding bootstrap lookup insert keys sort distinct
bootstrap-IsVerified_example =
    bootstrap-IsVerified reader as_listed (("a.md", here) ∷ []) (("a.md", object) ∷ []) [] "a.md"
      (baseline_of reader "a.md" here object bytes bytes) refl
