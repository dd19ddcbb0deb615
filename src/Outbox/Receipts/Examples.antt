-- ===== src/Outbox/Receipts/Examples.antt =====
-- model_submission.hpp, `ApplyJudgeResult`: a result that arrives twice.
use online_judge.Base.{
  ℕ, ◌==◌, if◌then◌else◌, ◌≡◌, ◌≢◌, refl, ◌⊎◌, codes, List, [], ◌∷◌, Option, none, some, true,
  false, Text-discrete,
}
use online_judge.Proto.{JudgeResult, submission_id, accepted, empty_result}
use online_judge.Outbox.{Env, Database, Submission, committed, commit_unanswered}
use online_judge.Outbox.Receipts.{
  UpdateJudgeResultRequest, apply_judge_result, cleanup_expired_result_receipts, persisted,
  idempotent, retryable_failure,
}
use online_judge.Outbox.Receipts.Change.{Applies, Answer}
use online_judge.Outbox.Receipts.Applied.{apply_branches}
use online_judge.Outbox.Receipts.Once.{Call, applies, cleans, after_calls, result_applies_once}

-- Columns that keep their times, and printers of small things.
abbrev env : Env
env = record {
  stored = λ t. t;
  serialize = λ task. some task.message_id;
  to_json = λ result. some (codes "{}");
}

abbrev waiting_submission : Submission
waiting_submission = record {
  submission_id = 7;
  user_id = 3;
  question_id = codes "1";
  code = codes "int";
  language = codes "cpp";
  status = codes "QUEUED";
  result_json = none;
  is_pass = none;
  time_used_ms = none;
  memory_used_bytes = none;
  compile_error = none;
  created_at = 0;
  completed_at = none;
  result_version = 0;
}

abbrev sent : Database
sent = record {
  outbox = λ k. none;
  submissions = λ n. if n == 7 then some waiting_submission else none;
  receipts = λ k. none;
  history = [];
}

abbrev request : UpdateJudgeResultRequest
request = record { message_id = codes "m"; task_id = submission_id 7; result_payload = codes "ok" }

abbrev other : UpdateJudgeResultRequest
other = record request { result_payload = codes "no" }

abbrev version_of : Option Submission → ℕ
version_of none = 0
version_of (some s) = s.result_version

abbrev result : JudgeResult
result = record empty_result { status = accepted }

apply_branches_example :
    let (db', outcome) = apply_judge_result env sent request result 0 5 committed true in
    ((outcome ≢ persisted) × (db' ≡ sent))
    ⊎ ((sent.receipts (codes "m") ≡ none)
        × Applies env sent db' request result 0 5
        × (((committed ≡ committed) × (outcome ≡ persisted))
            ⊎ ((committed ≡ commit_unanswered)
                × ((outcome ≡ idempotent) ⊎ (outcome ≡ retryable_failure)))))
apply_branches_example = apply_branches env sent request result 0 5 committed true

-- Another result for the same submission, a clean-up, and one whose commit is not answered.
abbrev between_calls : List Call
between_calls =
    applies (record request { message_id = codes "n" }) result 0 6 committed true
    ∷ cleans 900 committed
    ∷ applies (record request { message_id = codes "o" }) result 0 7 commit_unanswered false
    ∷ []

third_version :
    version_of (
      (after_calls env
          (apply_judge_result env sent request result 0 5 committed true).0
          between_calls).submissions
        7)
    ≡ 3
unfolding apply_judge_result after_calls cleanup_expired_result_receipts Text-discrete
third_version = refl

result_applies_once_example :
    let db' =
      after_calls env
        (apply_judge_result env sent request result 0 5 committed true).0
        between_calls in
    let (db'', outcome) = apply_judge_result env db' other result 0 8 committed true in
    (db'' ≡ db')
    × (Answer env outcome other request ⊎ ((outcome ≡ retryable_failure) × (committed ≢ committed)))
unfolding apply_judge_result
result_applies_once_example =
    result_applies_once env sent request other result result 0 5 0 8 committed committed true true
      between_calls refl (tt, (tt, (tt, tt))) refl
