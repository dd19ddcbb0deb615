-- ===== src/Outbox/Receipts.antt =====
-- model_submission.hpp, `ApplyJudgeResult`: how a judge's result is applied.
pub mod Change
pub mod Applied
pub mod Once
mod Examples
use online_judge.Base.{
  ℕ, length, ◌+◌, ◌*◌, ◌%◌, ◌≡◌, ◌≢◌, refl, ◌⊎◌, inl, inr, length-append, subst, sym, Text, ◌=t◌,
  codes, List, [], ◌∷◌, ◌++◌, Option, none, some, Bool, true, false, Bool-cases, not, ◌&&◌, ◌||◌,
  ltb, ◌==◌, is_empty, if◌then◌else◌, arith,
}
use online_judge.Proto.{
  TaskId, no_task, submission_id, custom_task_id, JudgeResult, Status, unspecified, pending, queued,
  judging, accepted, wrong_answer, compile_error, memory_limit_exceeded, time_limit_exceeded,
  runtime_error, system_error, cancelled,
}
use online_judge.Outbox.{
  Env, Database, Submission, JudgeResultReceipt, LegacySubmission, put, put_id, Commit, committed,
  rolled_back, commit_unanswered, kept, answers,
}

-- `oj::biz::UpdateJudgeResultRequest`, in the fields that are read here.
pub record UpdateJudgeResultRequest : Type 0 where
  pub message_id : Text
  pub task_id : TaskId
  pub result_payload : Text

pub data ApplyOutcome : Type 0 where
  persisted idempotent conflict not_found retryable_failure : ApplyOutcome

-- `StatusName`: the names of common.proto without their prefix.
pub status_name : Status → Text
status_name unspecified = codes "UNSPECIFIED"
status_name pending = codes "PENDING"
status_name queued = codes "QUEUED"
status_name judging = codes "JUDGING"
status_name accepted = codes "ACCEPTED"
status_name wrong_answer = codes "WRONG_ANSWER"
status_name compile_error = codes "COMPILE_ERROR"
status_name memory_limit_exceeded = codes "MEMORY_LIMIT_EXCEEDED"
status_name time_limit_exceeded = codes "TIME_LIMIT_EXCEEDED"
status_name runtime_error = codes "RUNTIME_ERROR"
status_name system_error = codes "SYSTEM_ERROR"
status_name cancelled = codes "CANCELLED"

abbrev is_accepted : Status → Bool
is_accepted accepted = true
is_accepted _ = false

abbrev same_id : Option ℕ → ℕ → Bool
same_id none n = false
same_id (some m) n = m == n

abbrev same_text : Option Text → Text → Bool
same_text none t = false
same_text (some s) t = s =t t

-- `same_target` of `ReceiptMatches`.
same_target : JudgeResultReceipt → TaskId → Bool
same_target receipt no_task = false
same_target receipt (submission_id n) = same_id receipt.submission_id n
same_target receipt (custom_task_id id) = same_text receipt.custom_task_id id

-- `ReceiptMatches`.
pub receipt_matches : JudgeResultReceipt → UpdateJudgeResultRequest → Bool
unfolding same_target
receipt_matches receipt request =
    same_target receipt request.task_id && receipt.result_payload =t request.result_payload

-- The answer for a message that has a receipt.
pub by_receipt : JudgeResultReceipt → UpdateJudgeResultRequest → ApplyOutcome
unfolding receipt_matches
by_receipt receipt request = if receipt_matches receipt request then idempotent else conflict

abbrev new_receipt :
    UpdateJudgeResultRequest → Option ℕ → Option Text → Option ℕ → ℕ → JudgeResultReceipt
new_receipt request submission custom expires now = record {
  message_id = request.message_id;
  submission_id = submission;
  custom_task_id = custom;
  result_payload = request.result_payload;
  applied_at = now;
  expires_at = expires;
  created_at = now;
}

module _ (env : Env) where
  open env use {stored, to_json}

  -- The submission with the result.
  pub judged : Submission → JudgeResult → Text → ℕ → Submission
  unfolding status_name
  judged s result json now = record s {
    status = status_name result.status;
    result_json = some json;
    is_pass = some (is_accepted result.status);
    time_used_ms = some result.time_used_ms;
    memory_used_bytes = some result.memory_used_bytes;
    compile_error =
        if is_empty result.compile_error_text
        then s.compile_error
        else some result.compile_error_text;
    completed_at =
        some (stored (if ltb 0 result.completed_at then result.completed_at * 1000000 else now));
    result_version = (s.result_version + 1) % 18446744073709551616;
  }

  -- The branch of a submission that was found: its result as JSON, if that can be printed.
  apply_submission :
      Database
      → UpdateJudgeResultRequest
      → JudgeResult
      → ℕ
      → Submission
      → (now : ℕ) → Option Text
      → Database × ApplyOutcome
  unfolding judged
  apply_submission db request result id s now none = (db, retryable_failure)
  apply_submission db request result id s now (some json) = (
    record db {
      submissions = put_id db.submissions id (judged s result json now);
      history =
          db.history
          ++ record {
            user_id = s.user_id;
            question_id = s.question_id;
            result_json = json;
            is_pass = is_accepted result.status;
            action_time = stored now;
          }
            ∷ [];
      receipts =
          put db.receipts request.message_id (new_receipt request (some id) none none (stored now));
    },
    persisted,
  )

  apply_found :
      Database
      → UpdateJudgeResultRequest
      → JudgeResult
      → ℕ
      → (now : ℕ) → Option Submission
      → Database × ApplyOutcome
  unfolding apply_submission
  apply_found db request result id now none = (db, not_found)
  apply_found db request result id now (some s) =
      apply_submission db request result id s now (to_json result)

  -- The transaction, where the database throws nothing and has no receipt of the message; the last
  -- argument is the request's target.
  apply_new :
      Database
      → UpdateJudgeResultRequest
      → JudgeResult
      → (custom_expires_at now : ℕ) → TaskId
      → Database × ApplyOutcome
  unfolding apply_found
  apply_new db request result custom_expires_at now no_task = (db, conflict)
  apply_new db request result custom_expires_at now (submission_id id) =
      apply_found db request result id now (db.submissions id)
  apply_new db request result custom_expires_at now (custom_task_id id) = (
    record db {
      receipts =
          put db.receipts request.message_id
            (new_receipt request none (some id) (some (stored custom_expires_at)) (stored now));
    },
    persisted,
  )

  -- The receipt of the message that the transaction found.
  with_receipt :
      Database
      → UpdateJudgeResultRequest
      → JudgeResult
      → (custom_expires_at now : ℕ) → Option JudgeResultReceipt
      → Database × ApplyOutcome
  unfolding apply_new by_receipt
  with_receipt db request result custom_expires_at now (some receipt) =
      (db, by_receipt receipt request)
  with_receipt db request result custom_expires_at now none =
      apply_new db request result custom_expires_at now request.task_id

  -- `GetResultReceipt` after an exception.
  after_exception : UpdateJudgeResultRequest → Option JudgeResultReceipt → ApplyOutcome
  unfolding by_receipt
  after_exception request (some receipt) = by_receipt receipt request
  after_exception request none = retryable_failure

  -- What is answered after an exception. `read_ok`: `GetResultReceipt` throws nothing.
  answer_thrown : Database → UpdateJudgeResultRequest → (read_ok : Bool) → ApplyOutcome
  unfolding after_exception
  answer_thrown db request read_ok =
      if not read_ok || is_empty request.message_id
      then retryable_failure
      else after_exception request (db.receipts request.message_id)

  apply_ended :
      Commit
      → Database
      → UpdateJudgeResultRequest
      → (read_ok : Bool) → Database × ApplyOutcome
      → Database × ApplyOutcome
  unfolding answer_thrown
  apply_ended committed db request read_ok (db', outcome) = (db', outcome)
  apply_ended rolled_back db request read_ok (db', outcome) = (db, answer_thrown db request read_ok)
  apply_ended commit_unanswered db request read_ok (db', outcome) =
      (db', answer_thrown db' request read_ok)

  -- `ApplyJudgeResult`. No other call comes between the reads and the writes of its transaction; of
  -- two calls for one message at the same moment the later is thrown out by the key of the receipts.
  pub apply_judge_result :
      Database
      → UpdateJudgeResultRequest
      → JudgeResult
      → (custom_expires_at now : ℕ) → Commit
      → (read_ok : Bool) → Database × ApplyOutcome
  unfolding with_receipt apply_ended
  apply_judge_result db request result custom_expires_at now commit read_ok =
      apply_ended commit db request read_ok
        (with_receipt db request result custom_expires_at now (db.receipts request.message_id))

  abbrev is_over : ℕ → Option ℕ → Bool
  is_over now none = false
  is_over now (some expires) = ltb expires now

  -- `CleanupExpiredResultReceipts`: the receipts of custom tasks whose time is over are erased.
  pub unless_expired : ℕ → Option JudgeResultReceipt → Option JudgeResultReceipt
  unless_expired now none = none
  unless_expired now (some receipt) = if is_over now receipt.expires_at then none else some receipt

  pub cleanup_expired_result_receipts : Database → (now : ℕ) → Commit → Database × Bool
  unfolding unless_expired
  cleanup_expired_result_receipts db now commit = (
    kept commit db (record db { receipts = λ k. unless_expired now (db.receipts k) }),
    answers commit,
  )
