-- ===== src/Tests/Observations.antt =====
-- Announced changes, recorded snapshots and local drift at concrete data.
use mineral_obsidian_sync.Base.{true, false, ◌≡◌, refl, none, some, List, [], ◌∷◌, str_mem, arith}
use mineral_obsidian_sync.Base.Maps.{lookup, insert, erase, keys}
use mineral_obsidian_sync.Base.Sorting.{distinct}
use mineral_obsidian_sync.Sync.Types.{LocalEntry, RemoteEntry, PreviousEntry, TextShape, lf}
use mineral_obsidian_sync.Remote.Client.{remote_http, ok, raised}
use mineral_obsidian_sync.Sync.RemoteDelta.{deleted_observation}
use mineral_obsidian_sync.Sync.RemoteDelta.Announced.{
  Change, put, delete, rename, Sources, observe_remote_delta,
}
use mineral_obsidian_sync.Sync.RemoteDelta.Announced.Sourced.{
  AllSourced, observe_remote_delta-AllSourced,
}
use mineral_obsidian_sync.Local.Drift.{changed_local_keys, changed_local_keys-exact}
use mineral_obsidian_sync.Conflict.Units.{units, starts_with}
use mineral_obsidian_sync.Conflict.Types.{MergeBaseRecord}
use mineral_obsidian_sync.Conflict.Coordinator.{Env, Coordinator}
use mineral_obsidian_sync.Conflict.Coordinator.Inspect.{snapshot_for}
use mineral_obsidian_sync.Conflict.Stores.{by_path}
use mineral_obsidian_sync.Conflict.Stores
use mineral_obsidian_sync.Conflict.Identity.{baseline_of}
use mineral_obsidian_sync.Conflict.MergeBase.{
  Contents, Reading, MergeBaseInput, record_of, prepare_record, record_snapshot,
}
use mineral_obsidian_sync.Conflict.MergeBase.Usable.{Prepared, record_snapshot-snapshot_for}

abbrev object : RemoteEntry
object = record { key = "b.md"; size = 5; etag = some "e2"; last_modified = 8; deleted = none }

-- R2 has `b.md` only.
abbrev bucket : Sources
bucket = record {
  paths = record {
    ignores = λ key. false;
    accepts_baseline = λ key p. true;
    previous = [];
    stat_local = λ key. none;
    observe_object = λ key. raised (remote_http "HeadObject" 404);
    read_keys = λ path etag. [];
    read_record = λ k. raised (remote_http "GetObject" 404);
  };
  canonical = some;
  parse_date = λ text. some 7;
  observe_version = λ key if_match. ok object;
}

abbrev changes : List Change
changes =
    put "a.md" (some "e1") (some 3) (some "now") ∷ rename "a.md" "b.md" none ∷ delete "c.md" ∷ []

abbrev gone : RemoteEntry
gone = record {
  key = "c.md";
  size = 0;
  etag = none;
  last_modified = 0;
  deleted = some (record {
    path = "c.md";
    deleted_remote_etag = "";
    created_at = none;
    metadata_etag = none;
    object_present = false;
  });
}

delta_run :
    observe_remote_delta bucket changes ≡ ok ([], ("b.md", object) ∷ ("c.md", gone) ∷ [], [])
unfolding observe_remote_delta distinct insert erase deleted_observation lookup
delta_run = refl

observe_remote_delta-AllSourced_example :
    AllSourced bucket changes (("b.md", object) ∷ ("c.md", gone) ∷ [])
observe_remote_delta-AllSourced_example =
    observe_remote_delta-AllSourced bucket changes [] (("b.md", object) ∷ ("c.md", gone) ∷ []) []
      delta_run

abbrev note : LocalEntry
note = record { key = "a.md"; size = 3; mtime = 10 }

abbrev longer : LocalEntry
longer = record { key = "a.md"; size = 4; mtime = 12 }

changed_local_keys-exact_example :
    str_mem "a.md" (changed_local_keys (("a.md", note) ∷ []) (("a.md", longer) ∷ [])) ≡ true
unfolding lookup keys
changed_local_keys-exact_example =
    changed_local_keys-exact (("a.md", note) ∷ []) (("a.md", longer) ∷ []) "a.md" (refl, tt)
      (refl, tt)

abbrev plain : TextShape
plain = record { bom = false; eol = lf; trailing_newline = true }

abbrev world : Env
world = record {
  fails = λ call. false;
  now = λ call. call;
  read_local = λ call key. none;
  get_object = λ call key etag. ok none;
  lower_case = λ s. s;
  digest = λ us. "";
  sha256_hex = λ us. "";
  diff = λ base side. [];
  text_of = λ us. "";
}

abbrev coordinator : Coordinator
coordinator = record {
  channel = "ch";
  attempted = [];
  active = [];
  conflicts = [];
  intents = [];
  merge_base = [];
  calls = 0;
  requests = [];
}

abbrev synced : PreviousEntry
synced = record {
  key = "a.md";
  local_side = some (record { size = 3; mtime = 10; hash = none });
  remote_side = some (record { size = 3; etag = some "e1"; last_modified = none; hash = none });
  synced_at = 11;
  remote_identity = none;
  ignore_policy = none;
}

abbrev converged : MergeBaseInput
converged = record {
  path = "a.md";
  baseline = record { local_version = note; remote_etag = some "e1" };
}

abbrev contents : Contents
contents = record {
  byte_length = 3;
  sha256 = "s";
  decoded = some (record { text = "ab\n"; shape = plain });
}

abbrev unmoved : Reading
unmoved = record {
  exists = true;
  before = ok (some (record { size = 3; mtime = 10 }));
  bytes = ok contents;
  after = ok (some (record { size = 3; mtime = 10 }));
}

abbrev snapshot : MergeBaseRecord
snapshot = record_of "ch" 12 converged contents (record { text = "ab\n"; shape = plain })

prepare_run : prepare_record world "ch" 12 converged unmoved ≡ ok (some snapshot)
unfolding prepare_record units starts_with
prepare_run = refl

record_run : record_snapshot world "ch" 12 converged unmoved [] ≡ ok (snapshot ∷ [])
unfolding record_snapshot units starts_with
record_run = refl

record_snapshot-snapshot_for_example :
    (snapshot_for world synced "a.md" (record coordinator { merge_base = snapshot ∷ [] })
      ≡ some snapshot)
    × Prepared "ch" 12 converged unmoved snapshot
unfolding baseline_of Stores.put Stores.list_all
record_snapshot-snapshot_for_example =
    record_snapshot-snapshot_for world coordinator 12 converged unmoved synced snapshot
      (snapshot ∷ []) prepare_run record_run (omega arith) refl refl
