-- ===== src/Delivery.antt =====
-- What a judge does with a delivered task: src/judge_service/include/report_decision.hpp,
-- judge_delivery_policy.hpp, result_reporter.hpp (how a callback's answer is read) and mq_consumer.hpp.
--
-- The broker's calls are the effects that a handler returns, in order. The reporter's remote call,
-- protobuf and SHA-256 are parameters; the inbox is that of `Inbox`. `Judger::Run` itself is in
-- `Judger`; here its result is what the event loop hands to the completion callback.

pub mod Consumer
mod Examples
use online_judge.Base.{
  ℕ, ◌+◌, ◌%◌, ◌^◌, ◌*◌, Text, codes, List, [], ◌∷◌, Option, none, some, Bool, true, false, not,
  ◌&&◌, ◌||◌, ltb, leb, ◌==◌, is_empty, is_positive, length, if◌then◌else◌, max,
}
use online_judge.Proto.{
  JudgeTask, TestCaseInput, TaskId, no_task, submission_id, custom_task_id, JudgeResult,
}

pub data ReportDecision : Type 0 where
  ack retry reject : ReportDecision

pub data DeliveryAction : Type 0 where
  ack_delivery retry_delivery dead_letter : DeliveryAction

-- `ResolveDeliveryAction`.
pub resolve_delivery_action : ReportDecision → ℕ → DeliveryAction
resolve_delivery_action ack retry_count = ack_delivery
resolve_delivery_action reject retry_count = dead_letter
resolve_delivery_action retry retry_count =
    if leb 3 retry_count then dead_letter else retry_delivery

-- `std::string::starts_with`.
starts_with : Text → Text → Bool
starts_with [] t = true
starts_with (c ∷ cs) [] = false
starts_with (c ∷ cs) (d ∷ ds) = c == d && starts_with cs ds

guest_id : TaskId → Bool
unfolding starts_with
guest_id no_task = false
guest_id (submission_id n) = false
guest_id (custom_task_id id) = starts_with (codes "guest-") id

-- `IsGuestSubmission`.
pub is_guest_submission : JudgeTask → Bool
unfolding guest_id
is_guest_submission task = guest_id task.task_id

abbrev pub has_task_id : TaskId → Bool
has_task_id no_task = false
has_task_id (submission_id n) = true
has_task_id (custom_task_id id) = true

small_tests : List TestCaseInput → Bool
small_tests [] = true
small_tests (t ∷ ts) =
    if ltb (1024 * 1024) (length t.input) || ltb (1024 * 1024) (length t.expected_output)
    then false
    else small_tests ts

-- `ValidJudgeTask`.
pub valid_judge_task : JudgeTask → Bool
valid_judge_task task =
    if is_empty task.message_id
      || task.user_id == 0 && not (is_guest_submission task)
      || is_empty task.question_id
      || is_empty task.code
      || ltb (64 * 1024) (length task.code)
      || is_empty task.language
      || task.time_limit_ms == 0
      || ltb 60000 task.time_limit_ms
      || task.memory_limit_mb == 0
      || ltb 4096 task.memory_limit_mb
      || is_empty task.test_cases
      || ltb 1000 (length task.test_cases)
      || not (is_positive task.created_at)
      || not (has_task_id task.task_id)
    then false
    else small_tests task.test_cases

pub record ReportResult : Type 0 where
  pub decision : ReportDecision
  pub retry_after_ms : ℕ

-- A default-constructed `ReportResult`.
abbrev pub report_again : ReportResult
report_again = record { decision = retry; retry_after_ms = 1000 }

-- `JudgeResultPersistenceOutcome` of the callback's answer.
pub data Persistence : Type 0 where
  persisted idempotent rejected retryable_failure unknown_outcome : Persistence

-- What the callback came to: no transport, or an outcome with its `retry_after_ms`.
pub data Callback : Type 0 where
  transport_failed : Callback
  answered : Persistence → ℕ → Callback

read_outcome : Callback → ReportResult
read_outcome transport_failed = report_again
read_outcome (answered persisted ms) = record { decision = ack; retry_after_ms = 0 }
read_outcome (answered idempotent ms) = record { decision = ack; retry_after_ms = 0 }
read_outcome (answered rejected ms) = record { decision = reject; retry_after_ms = 0 }
read_outcome (answered retryable_failure ms) = record {
  decision = retry;
  retry_after_ms = if ms == 0 then 1000 else ms;
}
read_outcome (answered unknown_outcome ms) = record {
  decision = retry;
  retry_after_ms = if ms == 0 then 1000 else ms;
}

-- `ResultReporter::Report`: whether the stub is there, what the serializer and the nonce generator
-- gave, and what the callback came to.
pub report : Bool → Bool → Bool → Callback → JudgeTask → ReportResult
unfolding read_outcome
report has_stub serialized has_nonce callback task =
    if not has_stub
    then report_again
    else if not (has_task_id task.task_id)
    then record { decision = reject; retry_after_ms = 0 }
    else if not serialized
    then record { decision = reject; retry_after_ms = 0 }
    else if not has_nonce
    then report_again
    else read_outcome callback
