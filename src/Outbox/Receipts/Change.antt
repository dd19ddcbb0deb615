-- ===== src/Outbox/Receipts/Change.antt =====
-- model_submission.hpp: what `ApplyJudgeResult` is to change, and to answer.
use online_judge.Base.{
  ℕ, ◌+◌, ◌%◌, ◌≡◌, ◌≢◌, ◌⊎◌, Text, [], ◌∷◌, ◌++◌, Option, none, some, Bool, true, false,
}
use online_judge.Proto.{
  TaskId, no_task, submission_id, custom_task_id, JudgeResult, Status, accepted,
}
use online_judge.Outbox.{Env, Database, Submission, JudgeResultReceipt, put, put_id}
use online_judge.Outbox.Receipts.{
  UpdateJudgeResultRequest, ApplyOutcome, idempotent, conflict, status_name,
}

-- Whether a submission with this status passes.
abbrev pub Passes : Status → Bool → Type 0
Passes status pass = ((status ≡ accepted) × (pass ≡ true)) ⊎ ((status ≢ accepted) × (pass ≡ false))

-- `s'` is the submission `s` with the result: one version further, and the same submission.
pub record Carries (s s' : Submission) (result : JudgeResult) (json : Text) (pass : Bool)
    : Type 0 where
  pub next_version : s'.result_version ≡ (s.result_version + 1) % 18446744073709551616
  pub status : s'.status ≡ status_name result.status
  pub result_json : s'.result_json ≡ some json
  pub is_pass : s'.is_pass ≡ some pass
  pub passes : Passes result.status pass
  pub time_used : s'.time_used_ms ≡ some result.time_used_ms
  pub memory_used : s'.memory_used_bytes ≡ some result.memory_used_bytes
  pub same_id : s'.submission_id ≡ s.submission_id
  pub same_user : s'.user_id ≡ s.user_id
  pub same_question : s'.question_id ≡ s.question_id
  pub same_code : s'.code ≡ s.code
  pub same_language : s'.language ≡ s.language

module _ (env : Env) where
  open env use {stored, to_json}

  -- A request repeats another: the same target and the same payload.
  abbrev pub Repeats : UpdateJudgeResultRequest → UpdateJudgeResultRequest → Type 0
  Repeats again request =
      (again.task_id ≡ request.task_id) × (again.result_payload ≡ request.result_payload)

  abbrev submission_of : TaskId → Option ℕ
  submission_of no_task = none
  submission_of (submission_id id) = some id
  submission_of (custom_task_id id) = none

  abbrev custom_of : TaskId → Option Text
  custom_of no_task = none
  custom_of (submission_id id) = none
  custom_of (custom_task_id id) = some id

  abbrev expiry_of : TaskId → ℕ → Option ℕ
  expiry_of no_task expires = none
  expiry_of (submission_id id) expires = none
  expiry_of (custom_task_id id) expires = some (stored expires)

  -- The receipt of a request for the target: that of a custom task expires.
  abbrev pub receipt_for : UpdateJudgeResultRequest → TaskId → ℕ → ℕ → JudgeResultReceipt
  receipt_for request target expires now = record {
    message_id = request.message_id;
    submission_id = submission_of target;
    custom_task_id = custom_of target;
    result_payload = request.result_payload;
    applied_at = stored now;
    expires_at = expiry_of target expires;
    created_at = stored now;
  }

  -- What a transaction that applies the result does to all tables: it writes the receipt, and for a
  -- submission also the submission and one more entry of the history.
  abbrev pub Applies :
      Database → Database → UpdateJudgeResultRequest → JudgeResult → (expires now : ℕ) → Type 0
  Applies db db' request result expires now =
      ((id : Text) × (request.task_id ≡ custom_task_id id)
        × (db' ≡ record db {
          receipts =
              put db.receipts request.message_id (receipt_for request request.task_id expires now);
        }))
      ⊎ ((id : ℕ) × (s s' : Submission) × (json : Text) × (pass : Bool) × (request.task_id
            ≡ submission_id id)
          × (db.submissions id ≡ some s)
          × (to_json result ≡ some json)
          × Carries s s' result json pass
          × (db' ≡ record db {
            submissions = put_id db.submissions id s';
            history =
                db.history
                ++ record {
                  user_id = s.user_id;
                  question_id = s.question_id;
                  result_json = json;
                  is_pass = pass;
                  action_time = stored now;
                }
                  ∷ [];
            receipts =
                put db.receipts request.message_id
                  (receipt_for request request.task_id expires now);
          }))

  -- The answer to a request for a message whose receipt is `r`.
  abbrev pub Answer : ApplyOutcome → UpdateJudgeResultRequest → UpdateJudgeResultRequest → Type 0
  Answer outcome again request =
      ((outcome ≡ idempotent) × Repeats again request)
      ⊎ ((outcome ≡ conflict) × ¬ Repeats again request)
