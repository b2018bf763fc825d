-- ===== src/Gateway/Ingress.antt =====
-- The reporter of src/gateway/mutation-ingress.ts: which facts it queues, sends, keeps and drops.
pub mod Queue
use mineral_obsidian_sync.Base.{
  ℕ, zero, suc, ◌-◌, String, Bool, true, false, not, ◌&&◌, ◌||◌, Option, none, some, List, [], ◌∷◌,
  ◌++◌, ◌==◌, ltb, leb, length, drop, any, str_eq, is_nonempty, is_truthy, map, if◌then◌else◌,
}
use mineral_obsidian_sync.Base.Maps.{Map, insert, erase, values}
use mineral_obsidian_sync.Scheduler.Types.{LandedWrite}

pub data MutationOp : Type 0 where
  put delete : MutationOp

pub record WriterMutation : Type 0 where
  pub id : String
  pub committed_at : ℕ
  pub op : MutationOp
  pub path : String
  pub etag : Option String
  pub size : Option ℕ

pub record MutationIngressSettings : Type 0 where
  pub enabled : Bool
  pub gateway_endpoint : String
  pub gateway_token : String
  pub channel : Option String

abbrev pub max_pending_mutations : ℕ
max_pending_mutations = 64

pub data IngressVerdict : Type 0 where
  recorded not_a_mutation state_mismatch permanent retryable : IngressVerdict

unfoldable pub classify_ingress_status : ℕ → IngressVerdict
classify_ingress_status status =
    if status == 204
    then not_a_mutation
    else if leb 200 status && ltb status 300
    then recorded
    else if status == 409
    then state_mismatch
    else if status == 429
    then retryable
    else if leb 400 status && ltb status 500
    then permanent
    else retryable

abbrev is_retryable : IngressVerdict → Bool
is_retryable retryable = true
is_retryable _ = false

-- The mutations that are sent together: at most four, no path twice.
unfoldable pub fill_wave :
    List WriterMutation → List WriterMutation → List WriterMutation × List WriterMutation
fill_wave batch [] = (batch, [])
fill_wave batch (m ∷ queued) =
    let more = fill_wave (batch ++ (m ∷ [])) queued in
    if ltb (length batch) 4 && not (any (λ b. str_eq b.path m.path) batch)
    then more
    else (batch, m ∷ queued)

-- Whatever is not retryable leaves the queue.
unfoldable pub settle_wave :
    (verdict : WriterMutation → IngressVerdict)
    → List WriterMutation
    → Map WriterMutation
    → Map WriterMutation
settle_wave verdict [] pending = pending
settle_wave verdict (m ∷ ms) pending =
    settle_wave verdict ms (if is_retryable (verdict m) then pending else erase m.id pending)

-- The waves, until one defers a mutation. The fuel is the number of queued mutations.
unfoldable pub send_waves :
    (verdict : WriterMutation → IngressVerdict)
    → (fuel : ℕ) → List WriterMutation
    → Map WriterMutation
    → Map WriterMutation
unfolding settle_wave fill_wave
send_waves verdict fuel [] pending = pending
send_waves verdict zero (m ∷ queued) pending = pending
send_waves verdict (suc fuel) (m ∷ queued) pending =
    let (batch, left) = fill_wave (m ∷ []) queued in
    let settled = settle_wave verdict batch pending in
    let rest = send_waves verdict fuel left settled in
    if any (λ b. is_retryable (verdict b)) batch then settled else rest

-- `while (pending.size > MAX_PENDING_MUTATIONS)` drops the oldest.
unfoldable pub trim_queue : Map WriterMutation → Map WriterMutation
trim_queue pending = drop (length pending - max_pending_mutations) pending

-- `text_length` counts the UTF-16 units of a text, `trim` is the string method.
module _ (text_length : String → ℕ) (trim : String → String) where
  abbrev acceptable : String → Bool
  acceptable etag = is_nonempty etag && not (ltb 256 (text_length etag))

  unfoldable pub mutation_for_write : LandedWrite → String → ℕ → Option WriterMutation
  mutation_for_write (LandedWrite.physically_deleted path) id at =
      some
        (record { id = id; committed_at = at; op = delete; path = path; etag = none; size = none })
  mutation_for_write (LandedWrite.delete path etag) id at =
      if acceptable etag
      then some (record {
        id = id;
        committed_at = at;
        op = delete;
        path = path;
        etag = some etag;
        size = none;
      })
      else none
  mutation_for_write (LandedWrite.put path etag size) id at =
      if acceptable etag
      then some (record {
        id = id;
        committed_at = at;
        op = put;
        path = path;
        etag = some etag;
        size = some size;
      })
      else none

  abbrev queue_one : Option WriterMutation → Map WriterMutation → Map WriterMutation
  queue_one none pending = pending
  queue_one (some m) pending = insert m.id m pending

  -- The loop over the writes; `new_id` is the identity drawn for the write at a place.
  unfoldable pub queue_writes :
      (new_id : ℕ → String) → ℕ → ℕ → List LandedWrite → Map WriterMutation → Map WriterMutation
  unfolding mutation_for_write
  queue_writes new_id at n [] pending = pending
  queue_writes new_id at n (w ∷ ws) pending =
      queue_writes new_id at (suc n) ws (queue_one (mutation_for_write w (new_id n) at) pending)

  abbrev is_on : MutationIngressSettings → Bool
  is_on s = s.enabled && is_nonempty (trim s.gateway_endpoint) && is_nonempty (trim s.gateway_token)

  -- `report`; `verdict` is what sending a mutation yields.
  unfoldable pub report :
      MutationIngressSettings
      → (new_id : ℕ → String) → (now : ℕ) → (verdict : WriterMutation → IngressVerdict)
      → List LandedWrite
      → Map WriterMutation
      → Map WriterMutation
  unfolding queue_writes send_waves trim_queue
  report s new_id now verdict writes pending =
      let queued = queue_writes new_id now 0 writes pending in
      if not (is_on s)
      then pending
      else if not (is_truthy s.channel)
      then queued
      else trim_queue (send_waves verdict (length queued) (values queued) queued)

  -- `announcesLandedWrites`
  unfoldable pub announces_landed_writes : MutationIngressSettings → Bool
  announces_landed_writes s = is_on s && is_truthy s.channel
