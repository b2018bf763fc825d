-- ===== src/Tests/Services.antt =====
-- The mutation journal and the retention pass at concrete data.
use mineral_obsidian_sync.Base.{
  ℕ, ◌≤◌, suc, String, Bool, true, false, ◌≡◌, refl, none, some, [], ◌∷◌, All, length, arith,
}
use mineral_obsidian_sync.Sync.Types.{RemoteEntry}
use mineral_obsidian_sync.Remote.Client.{ok}
use mineral_obsidian_sync.Remote.Retention.{RemoteDeletion, Answers, prune_expired_tombstones}
use mineral_obsidian_sync.Remote.Retention.Proof.{IsAllowed, prune_expired_tombstones-IsAllowed}
use mineral_obsidian_sync.Scheduler.Types.{LandedWrite}
use mineral_obsidian_sync.Gateway.Ingress.{
  WriterMutation, MutationOp, MutationIngressSettings, IngressVerdict, report, send_waves,
}
use mineral_obsidian_sync.Gateway.Ingress.Queue.{report-bounded, send_waves-fuel}

abbrev old_note : RemoteDeletion
old_note = record {
  path = "a.md";
  deleted_remote_etag = "e1";
  created_at = some 5;
  metadata_last_modified = some 6;
}

abbrev still_there : RemoteEntry
still_there = record { key = "a.md"; size = 3; etag = some "e1"; last_modified = 4; deleted = none }

abbrev cooperative : RemoteDeletion → Answers
cooperative d = record {
  has_delete_object = true;
  has_delete_tombstone = true;
  head = ok still_there;
  delete_object = ok tt;
  delete_tombstone = ok tt;
}

abbrev protect_nothing : String → Bool
protect_nothing path = false

prune_expired_tombstones-IsAllowed_example :
    All
      (IsAllowed 100 30 protect_nothing cooperative (old_note ∷ []))
      (prune_expired_tombstones 100 30 protect_nothing cooperative (old_note ∷ [])).removals
prune_expired_tombstones-IsAllowed_example =
    prune_expired_tombstones-IsAllowed 100 30 protect_nothing cooperative (old_note ∷ [])

prune_run :
    (prune_expired_tombstones 100 30 protect_nothing cooperative (old_note ∷ [])).objects ≡ 1
unfolding prune_expired_tombstones
prune_run = refl

abbrev settings : MutationIngressSettings
settings = record {
  enabled = true;
  gateway_endpoint = "https://gateway";
  gateway_token = "token";
  channel = some "c";
}

abbrev short : String → ℕ
short s = 1

abbrev untrimmed : String → String
untrimmed s = s

abbrev by_place : ℕ → String
by_place n = "id"

abbrev busy_journal : WriterMutation → IngressVerdict
busy_journal m = IngressVerdict.retryable

abbrev fact : WriterMutation
fact = record {
  id = "id-1";
  committed_at = 1;
  op = MutationOp.put;
  path = "a.md";
  etag = some "e1";
  size = some 3;
}

report-bounded_example :
    length (
      report short untrimmed settings by_place 9 busy_journal
        (LandedWrite.put "b.md" "e2" 4 ∷ [])
        (("id-1", fact) ∷ []))
    ≤ 64
report-bounded_example =
    report-bounded short untrimmed settings by_place 9 busy_journal
      (LandedWrite.put "b.md" "e2" 4 ∷ []) (("id-1", fact) ∷ []) refl refl

send_waves-fuel_example :
    send_waves busy_journal (suc 1) (fact ∷ []) (("id-1", fact) ∷ [])
    ≡ send_waves busy_journal 1 (fact ∷ []) (("id-1", fact) ∷ [])
send_waves-fuel_example =
    send_waves-fuel busy_journal 1 (fact ∷ []) (("id-1", fact) ∷ []) (omega arith)
