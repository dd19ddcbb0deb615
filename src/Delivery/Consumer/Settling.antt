-- ===== src/Delivery/Consumer/Settling.antt =====
-- mq_consumer.hpp: how each delivery ends, and why.
use online_judge.Base.{
  ℕ, ◌+◌, ◌≤◌, ◌≡◌, ◌≢◌, refl, ◌⊎◌, inl, inr, Text, [], ◌∷◌, Option, none, some, Bool, true,
  if◌then◌else◌, false, arith, length, Bool-cases, ◌&&◌, leb, not, is_empty,
}
use online_judge.Proto.{JudgeTask, JudgeResult, empty_result}
use online_judge.Inbox.Calls.{
  Redis, ClaimResult, CompleteResult, Claimed, started, processing, completed, conflict, error,
  done, not_owner, mismatch, failed, claim, complete, payload_fingerprint,
}
use online_judge.Delivery.{ReportDecision, ack, retry, reject, resolve_delivery_action, has_task_id}
use online_judge.Delivery.Consumer.{
  Effect, acks, retries, dead_letters, World, Pushed, Handled, u32, retry_or_dead_letter,
  finish_delivery, on_completion, lease_of, acceptable, new_task, malformed_claimed, valid_claimed,
  handle_malformed, handle_valid, handle_parsed, handle_message, finish_existing, malformed_started,
  malformed_result, settle,
}

-- The claim of the inbox for `task` answered that its message id carried another payload before.
abbrev pub Conflicts : World → Redis → Text → JudgeTask → Type 0
Conflicts w redis body task =
    (lease : ℕ) × ((claim w.parse_result w.inbox w.claim_link w.owner w.claim_time redis
        task.message_id (payload_fingerprint w.sha256 body) lease).0.outcome
      ≡ conflict)

-- The claim of the inbox for `task`, with its own lease, made this judge the owner.
abbrev pub Starts : World → Redis → Text → JudgeTask → Type 0
Starts w redis body task =
    (claim w.parse_result w.inbox w.claim_link w.owner w.claim_time redis task.message_id
      (payload_fingerprint w.sha256 body) (lease_of task)).0.outcome
    ≡ started

-- Why a delivery may end with an effect: an acknowledgement stands on the business server's own; a
-- retry counts one further, and waits half a minute or more from the third on; a dead letter keeps
-- the count, and needs a payload that is no acceptable task, a conflict, or a rejected result.
abbrev pub Justified : World → Redis → Text → ℕ → Effect → Type 0
Justified w redis body n acks =
    (task : JudgeTask) × (result : JudgeResult) × (w.parse_task body ≡ some task)
    × ((w.report task result).decision ≡ ack)
Justified w redis body n (retries after_ms count) =
    (count ≡ u32 (n + 1)) × (3 ≤ n → 30000 ≤ after_ms)
Justified w redis body n (dead_letters count) =
    (count ≡ n)
    × ((w.parse_task body ≡ none)
        ⊎ ((task : JudgeTask) × (w.parse_task body ≡ some task)
            × ((acceptable task ≡ false)
                ⊎ Conflicts w redis body task
                ⊎ ((result : JudgeResult) × ((w.report task result).decision ≡ reject)))))

-- What is true of a coroutine that is pushed: it judges the acceptable task that the body holds,
-- under the token of this judge, and its time limit is not beyond the lease.
abbrev pub Prepared : World → Text → Pushed → Type 0
Prepared w body p =
    (w.parse_task body ≡ some p.task)
    × (acceptable p.task ≡ true)
    × (p.fingerprint ≡ payload_fingerprint w.sha256 body)
    × (p.timeout_ms ≤ lease_of p.task)

-- Exactly one of the three: one justified effect, one prepared coroutine, or, where the event loop
-- refuses the coroutine of an acceptable task that the inbox gave to this judge, nothing at all.
abbrev pub Settles : World → Redis → Text → ℕ → Handled → Type 0
Settles w redis body n h =
    ((e : Effect) × (h.effects ≡ e ∷ []) × (h.pushed ≡ none) × Justified w redis body n e)
    ⊎ ((p : Pushed) × (w.starts ≡ true)
        × (h.effects ≡ [])
        × (h.pushed ≡ some p)
        × Prepared w body p)
    ⊎ ((task : JudgeTask) × (w.starts ≡ false)
        × (h.effects ≡ [])
        × (h.pushed ≡ none)
        × (w.parse_task body ≡ some task)
        × (acceptable task ≡ true)
        × Starts w redis body task)

if_started :
    (starts : Bool) (p : Pushed)
    → ((starts ≡ true) × ((if starts then some p else none) ≡ some p))
      ⊎ ((starts ≡ false) × ((if starts then some p else none) ≡ none))
if_started true p = inl (refl, refl)
if_started false p = inr (refl, refl)

module _ (w : World) (redis : Redis) (body : Text) (n : ℕ) where
  retry-Justified : (ms : ℕ) → Justified w redis body n (retry_or_dead_letter n ms)
  unfolding retry_or_dead_letter resolve_delivery_action
  retry-Justified ms = elim (Bool-cases (leb 3 n)) [
    | inl late ↦ rw (late, retry_or_dead_letter, resolve_delivery_action) (refl, λ h. omega arith)
    | inr early ↦
        rw (early, retry_or_dead_letter, resolve_delivery_action) (refl, λ h. ground arith)
  ]

  finish-Justified :
      (task : JudgeTask) (result : JudgeResult) (d : ReportDecision)
      → w.parse_task body ≡ some task
      → (w.report task result).decision ≡ d
      → Justified w redis body n (finish_delivery w task result n)
  unfolding finish_delivery resolve_delivery_action
  finish-Justified task result ack t e = rw (e, finish_delivery) (task, result, t, e)
  finish-Justified task result reject t e =
      rw (e, finish_delivery) (refl, inr (task, t, inr (inr (result, e))))
  finish-Justified task result retry t e = elim (Bool-cases (leb 3 n)) [
    | inl late ↦
        rw (e, late, finish_delivery) (retry-Justified (w.report task result).retry_after_ms)
    | inr early ↦
        rw (e, early, finish_delivery) (retry-Justified (w.report task result).retry_after_ms)
  ]

  settled :
      (e : Effect) (r : Redis) → Justified w redis body n e → Settles w redis body n (settle e r)
  settled e r j = inl (e, refl, refl, j)

  existing-Settles :
      (task : JudgeTask) (existing : Option JudgeResult) (r : Redis)
      → w.parse_task body ≡ some task
      → Settles w redis body n (finish_existing w task n existing r)
  unfolding finish_existing
  existing-Settles task none r t = settled _ r (finish-Justified task empty_result _ t refl)
  existing-Settles task (some result) r t = settled _ r (finish-Justified task result _ t refl)

  started-Settles :
      (task : JudgeTask) (c : CompleteResult) (r : Redis)
      → w.parse_task body ≡ some task
      → Settles w redis body n (malformed_started w task n (c, r))
  started-Settles task done r t =
      settled _ r (finish-Justified task (malformed_result w.unix_time) _ t refl)
  started-Settles task not_owner r t = settled _ r (retry-Justified 1000)
  started-Settles task mismatch r t = settled _ r (retry-Justified 1000)
  started-Settles task failed r t = settled _ r (retry-Justified 1000)

  malformed-Settles :
      (task : JudgeTask) (f : Text) (o : ClaimResult) (c : Claimed JudgeResult) (r : Redis)
      → w.parse_task body ≡ some task
      → acceptable task ≡ false
      → Settles w redis body n (malformed_claimed w task f n o c r)
  unfolding malformed_claimed
  malformed-Settles task f completed c r t bad = existing-Settles task c.existing r t
  malformed-Settles task f processing c r t bad = settled _ r (retry-Justified c.retry_after_ms)
  malformed-Settles task f conflict c r t bad = settled _ r (refl, inr (task, t, inl bad))
  malformed-Settles task f error c r t bad = settled _ r (retry-Justified 1000)
  malformed-Settles task f started c r t bad =
      let (o, r') =
        complete w.inbox w.complete_link w.complete_time r task.message_id f c.claim_token
          (w.serialize_result (malformed_result w.unix_time)) in
      started-Settles task o r' t

  unacceptable-Settles :
      (task : JudgeTask)
      → w.parse_task body ≡ some task
      → acceptable task ≡ false
      → Settles w redis body n
          (handle_malformed w redis (payload_fingerprint w.sha256 body) n (some task))
  unfolding handle_malformed
  unacceptable-Settles task t bad =
      elim (Bool-cases (
        not (is_empty task.message_id)
        && leb (length task.message_id) 256
        && has_task_id task.task_id)) [
          | inl claims ↦
              let (c, r) =
                claim w.parse_result w.inbox w.claim_link w.owner w.claim_time redis task.message_id
                  (payload_fingerprint w.sha256 body) 60000 in
              rw claims
                (malformed-Settles task (payload_fingerprint w.sha256 body) c.outcome c r t bad)
          | inr drops ↦ rw drops (settled _ redis (refl, inr (task, t, inl bad)))
        ]

  valid-Settles :
      (task : JudgeTask) (o : ClaimResult) (c : Claimed JudgeResult) (r : Redis)
      → w.parse_task body ≡ some task
      → acceptable task ≡ true
      → (o ≡ conflict → Conflicts w redis body task)
      → (o ≡ started → Starts w redis body task)
      → Settles w redis body n (valid_claimed w task (payload_fingerprint w.sha256 body) n o c r)
  unfolding valid_claimed
  valid-Settles task completed c r t good k m = existing-Settles task c.existing r t
  valid-Settles task processing c r t good k m = settled _ r (retry-Justified c.retry_after_ms)
  valid-Settles task conflict c r t good k m = settled _ r (refl, inr (task, t, inr (inl (k refl))))
  valid-Settles task error c r t good k m = settled _ r (retry-Justified 1000)
  valid-Settles task started c r t good k m =
      elim (if_started w.starts (new_task task (payload_fingerprint w.sha256 body) c.claim_token)) [
        | inl (takes, given) ↦ inr (inl (_, takes, refl, given, (t, good, refl, omega arith)))
        | inr (refuses, dropped) ↦ inr (inr (task, refuses, refl, dropped, t, good, m refl))
      ]

  parsed-Settles :
      (o : Option JudgeTask)
      → w.parse_task body ≡ o
      → Settles w redis body n (handle_parsed w redis (payload_fingerprint w.sha256 body) n o)
  unfolding handle_parsed handle_valid
  parsed-Settles none t = settled (dead_letters n) redis (refl, inl t)
  parsed-Settles (some task) t = elim (Bool-cases (acceptable task)) [
    | inl good ↦
        let (c, r) =
          claim w.parse_result w.inbox w.claim_link w.owner w.claim_time redis task.message_id
            (payload_fingerprint w.sha256 body) (lease_of task) in
        rw good (valid-Settles task c.outcome c r t good (λ e. (lease_of task, e)) (λ e. e))
    | inr bad ↦ rw bad (unacceptable-Settles task t bad)
  ]

-- Every delivery is settled at the broker exactly once, or exactly one coroutine is started for it,
-- or, when the event loop refuses the coroutine (it is stopping), neither: then the task is
-- acceptable and the inbox had made this judge its owner. An acknowledgement is given only on an
-- acknowledgement of the business server; a retry counts one further, whatever the count, and waits
-- half a minute or more from the third on; a dead letter needs a payload that is no acceptable task,
-- a conflict in the inbox or a rejected result; and a coroutine judges the acceptable task of the
-- body within a time that its lease covers.
pub handle_message-Settles :
    (w : World) (redis : Redis) (body : Text) (n : ℕ)
    → Settles w redis body n (handle_message w redis body n)
unfolding handle_message
handle_message-Settles w redis body n = parsed-Settles w redis body n (w.parse_task body) refl

-- When a judged result comes back, the delivery is acknowledged only if the inbox stored the result
-- and the business server acknowledged it, dead-lettered only if the inbox held another payload or
-- the server rejected the stored result, and otherwise retried, counting one further, with half a
-- minute or more to wait from the third retry on. No count ends the retries: a failure that does not
-- pass is retried again and is not dead-lettered.
pub on_completion_ends :
    (w : World) (redis : Redis) (p : Pushed) (result : JudgeResult) (n : ℕ)
    → let e = (on_completion w redis p result n).0 in
      let stored =
        (complete w.inbox w.complete_link w.complete_time redis p.task.message_id p.fingerprint
          p.claim_token
          (w.serialize_result result)).0 in
      let verdict = (w.report p.task result).decision in
      ((e ≡ acks) × (stored ≡ done) × (verdict ≡ ack))
      ⊎ ((e ≡ dead_letters n) × ((stored ≡ mismatch) ⊎ ((stored ≡ done) × (verdict ≡ reject))))
      ⊎ ((ms : ℕ) × (e ≡ retries ms (u32 (n + 1)))
          × (3 ≤ n → 30000 ≤ ms)
          × (stored ≢ mismatch)
          × ((stored ≡ done) → verdict ≡ retry))
unfolding on_completion resolve_delivery_action
on_completion_ends w redis p result n = ground arith
