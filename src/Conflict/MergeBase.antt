-- ===== src/Conflict/MergeBase.antt =====
-- src/conflict/merge-base.ts: which file contents are kept as the base of a later merge. The workers run
-- one after the other; what the Vault answers for a path is a parameter.
pub mod Usable
use mineral_obsidian_sync.Base.{
  ℕ, ◌≤◌, String, Bool, true, false, not, ◌&&◌, ◌||◌, Option, none, some, List, [], ◌∷◌, ◌==◌, ltb,
  is_nonempty, if◌then◌else◌,
}
use mineral_obsidian_sync.Sync.Types.{LocalEntry}
use mineral_obsidian_sync.Sync.Merge.Region.{DecodedText}
use mineral_obsidian_sync.Executor.Effects.{Stat}
use mineral_obsidian_sync.Remote.Client.{Error, Try, ok, raised}
use mineral_obsidian_sync.Conflict.Identity.{BaselineIdentity}
use mineral_obsidian_sync.Conflict.Types.{MergeBaseRecord}
use mineral_obsidian_sync.Conflict.Stores.{by_path, put, put_many, prune}
use mineral_obsidian_sync.Conflict.Coordinator.{Env}
use mineral_obsidian_sync.Conflict.Coordinator.Inspect.{is_mergeable_path, max_mergeable_bytes}

-- What the bytes of a file are: their digest, and the text where they can be decoded.
pub record Contents : Type 0 where
  pub byte_length : ℕ
  pub sha256 : String
  pub decoded : Option DecodedText

pub record Reading : Type 0 where
  pub exists : Bool
  pub before : Try (Option Stat)
  pub bytes : Try Contents
  pub after : Try (Option Stat)

pub record MergeBaseInput : Type 0 where
  pub path : String
  pub baseline : BaselineIdentity

abbrev pub record_of :
    (channel : String) → (now : ℕ) → MergeBaseInput → Contents → DecodedText → MergeBaseRecord
record_of channel now input contents decoded = record {
  channel = channel;
  path = input.path;
  baseline = input.baseline;
  sha256 = contents.sha256;
  byte_length = contents.byte_length;
  encoding = decoded.shape;
  content = decoded.text;
  updated_at = now;
}

-- Whether the file is in the version of the baseline.
abbrev pub in_version : LocalEntry → Option Stat → Bool
in_version version none = false
in_version version (some s) = (s.size == version.size) && (s.mtime == version.mtime)

abbrev pub kept :
    (channel : String)
    → (now : ℕ) → MergeBaseInput
    → Contents
    → Option DecodedText
    → Option MergeBaseRecord
kept channel now input contents none = none
kept channel now input contents (some decoded) =
    if ltb max_mergeable_bytes contents.byte_length
    then none
    else some (record_of channel now input contents decoded)

abbrev pub after_bytes :
    (channel : String)
    → (now : ℕ) → MergeBaseInput
    → Contents
    → Try (Option Stat)
    → Try (Option MergeBaseRecord)
after_bytes channel now input contents (raised e) = raised e
after_bytes channel now input contents (ok after) =
    if in_version input.baseline.local_version after
    then ok (kept channel now input contents contents.decoded)
    else ok none

abbrev pub with_bytes :
    (channel : String)
    → (now : ℕ) → MergeBaseInput
    → Try (Option Stat)
    → Try Contents
    → Try (Option MergeBaseRecord)
with_bytes channel now input after (raised e) = raised e
with_bytes channel now input after (ok contents) = after_bytes channel now input contents after

abbrev pub after_stat :
    (channel : String)
    → (now : ℕ) → MergeBaseInput
    → Reading
    → Try (Option Stat)
    → Try (Option MergeBaseRecord)
after_stat channel now input r (raised e) = raised e
after_stat channel now input r (ok before) =
    if in_version input.baseline.local_version before
    then with_bytes channel now input r.after r.bytes
    else ok none

abbrev pub max_records : ℕ
max_records = 2000

module _ (E : Env) where
  unfoldable pub prepare_record :
      (channel : String) → (now : ℕ) → MergeBaseInput → Reading → Try (Option MergeBaseRecord)
  unfolding is_mergeable_path
  prepare_record channel now input r =
      if not (is_nonempty channel) || not (is_mergeable_path E input.path) || not r.exists
      then ok none
      else after_stat channel now input r r.before

  abbrev in_front : Try (Option MergeBaseRecord) → List MergeBaseRecord → List MergeBaseRecord
  in_front (ok (some prepared)) records = prepared ∷ records
  in_front _ records = records

  -- The workers: a snapshot that cannot be taken blocks no other.
  unfoldable pub prepare_all :
      (channel : String)
      → (now : ℕ) → (read : String → Reading) → List MergeBaseInput
      → List MergeBaseRecord
  unfolding prepare_record
  prepare_all channel now read [] = []
  prepare_all channel now read (input ∷ rest) =
      in_front (prepare_record channel now input (read input.path))
        (prepare_all channel now read rest)

  unfoldable pub record_merge_base_batch :
      (channel : String)
      → (now : ℕ) → (read : String → Reading) → List MergeBaseInput
      → List MergeBaseRecord
      → List MergeBaseRecord
  unfolding prepare_all put_many prune
  record_merge_base_batch channel now read inputs store =
      elim (prepare_all channel now read inputs) [
        | [] ↦ store
        | prepared ∷ more ↦ prune channel max_records (put_many by_path (prepared ∷ more) store)
      ]

  abbrev with_snapshot :
      (channel : String) → Option MergeBaseRecord → List MergeBaseRecord → List MergeBaseRecord
  with_snapshot channel none store = store
  with_snapshot channel (some prepared) store =
      prune channel max_records (put by_path prepared store)

  -- `record` of `createMergeBaseRecorder`
  unfoldable pub record_snapshot :
      (channel : String)
      → (now : ℕ) → MergeBaseInput
      → Reading
      → List MergeBaseRecord
      → Try (List MergeBaseRecord)
  unfolding prepare_record put prune
  record_snapshot channel now input r store = elim (prepare_record channel now input r) [
    | raised e ↦ raised e
    | ok prepared ↦ ok (with_snapshot channel prepared store)
  ]
