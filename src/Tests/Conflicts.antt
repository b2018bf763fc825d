-- ===== src/Tests/Conflicts.antt =====
-- The conflict coordinator and its stores at a concrete disagreement.
use mineral_obsidian_sync.Base.{
  ℕ, zero, suc, ◌+◌, ◌%◌, String, ◌<>◌, Bool, true, false, ◌≡◌, refl, Option, none, some, List, [],
  ◌∷◌,
}
use mineral_obsidian_sync.Base.Maps.{lookup, insert}
use mineral_obsidian_sync.Conflict.Decimal.{decimal}
use mineral_obsidian_sync.Sync.Types.{LocalEntry, RemoteEntry, PreviousEntry, TextShape, lf}
use mineral_obsidian_sync.Sync.Merge.{Range}
use mineral_obsidian_sync.Sync.Merge.Region.{merge_texts}
use mineral_obsidian_sync.Sync.Planner.{keep_local}
use mineral_obsidian_sync.Sync.Text.{to_lines}
use mineral_obsidian_sync.Remote.Client.{ok}
use mineral_obsidian_sync.Conflict.Units.{Units, units, starts_with, significant_text, byte_length}
use mineral_obsidian_sync.Conflict.Handoff.{classify_divergence}
use mineral_obsidian_sync.Conflict.Identity.{canonical_conflict_input, conflict_id_for}
use mineral_obsidian_sync.Conflict.Identity.Injective.{SameVersions}
use mineral_obsidian_sync.Conflict.Types.{
  ConflictRecord, ResolutionIntent, MergeBaseRecord, AutoMergeStatus, Origin,
}
use mineral_obsidian_sync.Conflict.Stores.Refines.{Call, puts, removes}
use mineral_obsidian_sync.Conflict.Coordinator.{
  Env, Coordinator, ConflictDetectionInput, identity_of,
}
use mineral_obsidian_sync.Conflict.Coordinator.Inspect.{inspect}
use mineral_obsidian_sync.Conflict.Coordinator.Handle.{handle_conflicts, observations_of}
use mineral_obsidian_sync.Conflict.Coordinator.Valid.{input_of, handle_conflicts-SameVersions}

abbrev edited : LocalEntry
edited = record { key = "a.md"; size = 6; mtime = 1000 }

abbrev object : RemoteEntry
object = record { key = "a.md"; size = 6; etag = some "e2"; last_modified = 2000; deleted = none }

abbrev synced : PreviousEntry
synced = record {
  key = "a.md";
  local_side = some (record { size = 2; mtime = 10; hash = none });
  remote_side = some (record { size = 2; etag = some "e1"; last_modified = none; hash = none });
  synced_at = 11;
  remote_identity = none;
  ignore_policy = none;
}

abbrev plain : TextShape
plain = record { bom = false; eol = lf; trailing_newline = true }

-- A text of `n` strokes.
abbrev strokes : ℕ → String
strokes zero = ""
strokes (suc n) = "i" <> strokes n

abbrev sum : Units → ℕ
sum [] = 0
sum (u ∷ us) = u + sum us

-- A stand-in for the digest, and for writing a text of the platform.
abbrev checksum : Units → String
checksum us = strokes (sum us % 50)

abbrev added : List String → List Range
added (x ∷ line ∷ rest) = record { start = 1; length = 0; replacement = line ∷ [] } ∷ []
added lines = []

abbrev world : Env
world = record {
  fails = λ call. false;
  now = λ call. call;
  read_local = λ call key. some (some (record { text = "x\none\n"; shape = plain }));
  get_object = λ call key etag. ok (some (record { text = "x\ntwo\n"; shape = plain }));
  lower_case = λ s. s;
  digest = checksum;
  sha256_hex = checksum;
  diff = λ base side. added side;
  text_of = checksum;
}

abbrev disagreement : ConflictDetectionInput
disagreement = record {
  key = "a.md";
  previous = some synced;
  observed_local = some edited;
  observed_remote = some object;
  observed_remote_deletion = none;
}

abbrev snapshot : MergeBaseRecord
snapshot = record {
  channel = "ch";
  path = "a.md";
  baseline = record {
    local_version = record { key = "a.md"; size = 2; mtime = 10 };
    remote_etag = some "e1";
  };
  sha256 = "";
  byte_length = 2;
  encoding = plain;
  content = "x\n";
  updated_at = 11;
}

abbrev keep_mine : ResolutionIntent
keep_mine = record {
  conflict_id = checksum (canonical_conflict_input (input_of world "ch" disagreement));
  channel = "ch";
  path = "a.md";
  type = keep_local;
  expected_local_version = some edited;
  expected_remote_etag = some "e2";
  expected_remote_deletion = none;
  created_at = 12;
  origin = some Origin.manual;
  merged = none;
}

abbrev coordinator : Coordinator
coordinator = record {
  channel = "ch";
  attempted = [];
  active = [];
  conflicts = [];
  intents = keep_mine ∷ [];
  merge_base = snapshot ∷ [];
  calls = 0;
  requests = [];
}

abbrev status_of : Option ConflictRecord × Coordinator → Option AutoMergeStatus
status_of (none, c) = none
status_of (some r, c) = some r.auto_merge_status

inspect_run : status_of (inspect world disagreement coordinator) ≡ some AutoMergeStatus.handoff
unfolding inspect classify_divergence significant_text units merge_texts to_lines byte_length
    starts_with identity_of conflict_id_for canonical_conflict_input
inspect_run = refl

-- Without a snapshot there is no automatic merge.
abbrev without_base : Coordinator
without_base = record coordinator { merge_base = [] }

-- The proposal that the person made is handed on, since it is for the versions that are observed.
handle_run :
    lookup "a.md" (handle_conflicts world (disagreement ∷ []) without_base).active ≡ some keep_mine
unfolding handle_conflicts lookup classify_divergence significant_text units merge_texts to_lines
    byte_length starts_with identity_of conflict_id_for canonical_conflict_input decimal insert
handle_run = refl

abbrev origin_of : Option ResolutionIntent → Option Origin
origin_of none = none
origin_of (some i) = i.origin

-- With the snapshot, an automatic merge takes the place of the proposal that the person made.
replaced_run :
    origin_of (lookup "a.md" (handle_conflicts world (disagreement ∷ []) coordinator).active)
    ≡ some Origin.auto
unfolding handle_conflicts lookup classify_divergence significant_text units merge_texts to_lines
    byte_length starts_with identity_of conflict_id_for canonical_conflict_input decimal insert
replaced_run = refl

identity_run : identity_of world "ch" disagreement ≡ keep_mine.conflict_id
unfolding identity_of conflict_id_for
identity_run = refl

observed_run : lookup "a.md" (observations_of (disagreement ∷ [])) ≡ some disagreement
unfolding lookup observations_of insert
observed_run = refl

handle_conflicts-SameVersions_example :
    (i : ConflictDetectionInput) × (lookup "a.md" (observations_of (disagreement ∷ [])) ≡ some i)
    × SameVersions (input_of world "ch" i) (input_of world "ch" disagreement)
handle_conflicts-SameVersions_example =
    handle_conflicts-SameVersions world (disagreement ∷ []) without_base "a.md" keep_mine
      disagreement refl handle_run identity_run (λ i seen same. cc (seen, observed_run))

abbrev calls : List (Call ResolutionIntent)
calls = puts (record keep_mine { created_at = 13 }) ∷ removes "ch" ("other" ∷ []) ∷ []

-- The same proposal, and a remote version that nobody saw when it was made.
abbrev moved : RemoteEntry
moved = record object { etag = some "e3" }

abbrev listed_order : String → String → Bool
listed_order a b = true
