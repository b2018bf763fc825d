-- ===== src/Gateway/Ingress/Queue.antt =====
-- What the queue of src/gateway/mutation-ingress.ts holds.
use mineral_obsidian_sync.Base.{
  ℕ, zero, suc, ◌-◌, ◌≤◌, String, Bool, true, false, ◌≡◌, refl, ◌∙◌, ap, List, [], ◌∷◌, ◌++◌,
  length, drop, any, eq_iff, is_truthy, if◌then◌else◌, arith,
}
use mineral_obsidian_sync.Base.Maps.{Map, lookup, erase, values, lookup-erase}
use mineral_obsidian_sync.Scheduler.Types.{LandedWrite}
use mineral_obsidian_sync.Gateway.Ingress.{
  WriterMutation, MutationIngressSettings, IngressVerdict, queue_writes, fill_wave, settle_wave,
  send_waves, trim_queue, report, is_on, is_retryable,
}

length-drop : {A : Type 0} (n : ℕ) (xs : List A) → length (drop n xs) ≡ length xs - n
length-drop zero xs = omega arith
length-drop (suc n) [] = omega arith
length-drop (suc n) (x ∷ xs) = omega (arith, length-drop n xs)

trim-bounded : (pending : Map WriterMutation) → length (trim_queue pending) ≤ 64
unfolding trim_queue
trim-bounded pending = omega (arith, length-drop (length pending - 64) pending)

-- After a report that could be sent, at most 64 facts are queued, however many writes and whatever the
-- journal answered.
pub report-bounded :
    (text_length : String → ℕ) (trim : String → String) (s : MutationIngressSettings)
    (new_id : ℕ → String) (now : ℕ) (verdict : WriterMutation → IngressVerdict)
    (writes : List LandedWrite) (pending : Map WriterMutation)
    → is_on text_length trim s ≡ true
    → is_truthy s.channel ≡ true
    → length (report text_length trim s new_id now verdict writes pending) ≤ 64
unfolding report
report-bounded text_length trim s new_id now verdict writes pending on known = ground (
  arith,
  on,
  known,
  trim-bounded (
      send_waves verdict (length (queue_writes text_length trim new_id now 0 writes pending))
        (values (queue_writes text_length trim new_id now 0 writes pending))
        (queue_writes text_length trim new_id now 0 writes pending)),
)

-- The verdict leaves every mutation with this identity in the queue.
abbrev pub Deferred : (WriterMutation → IngressVerdict) → String → Type 0
Deferred verdict id = (m : WriterMutation) → m.id ≡ id → is_retryable (verdict m) ≡ true

settle-lookup :
    (verdict : WriterMutation → IngressVerdict) (id : String) (batch : List WriterMutation)
    (pending : Map WriterMutation)
    → Deferred verdict id
    → lookup id (settle_wave verdict batch pending) ≡ lookup id pending
unfolding settle_wave
settle-lookup verdict id [] pending d = refl
settle-lookup verdict id (m ∷ ms) pending d =
    chosen (is_retryable (verdict m)) refl (λ p. settle-lookup verdict id ms p d)
  where
    chosen :
        (b : Bool)
        → is_retryable (verdict m) ≡ b
        → ((p : Map WriterMutation) → lookup id (settle_wave verdict ms p) ≡ lookup id p)
        → lookup id (settle_wave verdict ms (if b then pending else erase m.id pending))
          ≡ lookup id pending
    chosen true e k = k pending
    chosen false e k =
        k (erase m.id pending)
        ∙ ground (arith, e, d m, lookup-erase id m.id pending, eq_iff m.id id)

-- Sending never loses a fact that the journal has not settled: it stays queued as it was, under the
-- identity that it was first reported with.
pub send_waves-lookup :
    (verdict : WriterMutation → IngressVerdict) (fuel : ℕ) (queued : List WriterMutation)
    (pending : Map WriterMutation) (id : String)
    → Deferred verdict id
    → lookup id (send_waves verdict fuel queued pending) ≡ lookup id pending
unfolding send_waves
send_waves-lookup verdict fuel [] pending id d = refl
send_waves-lookup verdict zero (m ∷ queued) pending id d = refl
send_waves-lookup verdict (suc fuel) (m ∷ queued) pending id d =
    chosen (any (λ b. is_retryable (verdict b)) (fill_wave (m ∷ []) queued).0)
      (send_waves-lookup verdict fuel (fill_wave (m ∷ []) queued).1 settled id d)
  where
    settled : Map WriterMutation
    settled = settle_wave verdict (fill_wave (m ∷ []) queued).0 pending

    kept : lookup id settled ≡ lookup id pending
    kept = settle-lookup verdict id (fill_wave (m ∷ []) queued).0 pending d

    chosen :
        (b : Bool)
        → lookup id (send_waves verdict fuel (fill_wave (m ∷ []) queued).1 settled)
          ≡ lookup id settled
        → lookup id
            (if b then settled else send_waves verdict fuel (fill_wave (m ∷ []) queued).1 settled)
          ≡ lookup id pending
    chosen true k = kept
    chosen false k = k ∙ kept

left-length :
    (batch queued : List WriterMutation) → length (fill_wave batch queued).1 ≤ length queued
unfolding fill_wave
left-length batch [] = omega arith
left-length batch (m ∷ queued) = ground (arith, left-length (batch ++ (m ∷ [])) queued)

-- The number of queued facts is fuel enough: more of it does not change what is sent.
pub send_waves-fuel :
    (verdict : WriterMutation → IngressVerdict) (fuel : ℕ) (queued : List WriterMutation)
    (pending : Map WriterMutation)
    → length queued ≤ fuel
    → send_waves verdict (suc fuel) queued pending ≡ send_waves verdict fuel queued pending
unfolding send_waves
send_waves-fuel verdict fuel [] pending l = refl
send_waves-fuel verdict zero (m ∷ queued) pending l = ground (arith, l)
send_waves-fuel verdict (suc fuel) (m ∷ queued) pending l =
    ap
      (λ rest.
        if any (λ b. is_retryable (verdict b)) (fill_wave (m ∷ []) queued).0
        then settle_wave verdict (fill_wave (m ∷ []) queued).0 pending
        else rest)
      (send_waves-fuel verdict fuel (fill_wave (m ∷ []) queued).1 _
        (ground (arith, l, left-length (m ∷ []) queued)))
