-- ===== src/Outbox/Receipts/Applied.antt =====
-- model_submission.hpp: the branches of `ApplyJudgeResult`.
use online_judge.Base.{
  ℕ, ◌≡◌, ◌≢◌, refl, ◌⊎◌, inl, inr, ◌∙◌, Text, Option, none, some, Bool, true, false, arith,
}
use online_judge.Proto.{
  TaskId, no_task, submission_id, custom_task_id, JudgeResult, Status, unspecified, pending, queued,
  judging, accepted, wrong_answer, compile_error, memory_limit_exceeded, time_limit_exceeded,
  runtime_error, system_error, cancelled,
}
use online_judge.Outbox.{
  Env, Database, Submission, JudgeResultReceipt, put, Commit, committed, rolled_back,
  commit_unanswered,
}
use online_judge.Outbox.Receipts.{
  UpdateJudgeResultRequest, ApplyOutcome, persisted, idempotent, retryable_failure, receipt_matches,
  same_target, by_receipt, is_accepted, judged, apply_submission, apply_found, apply_new,
  with_receipt, after_exception, answer_thrown, apply_ended, apply_judge_result,
}
use online_judge.Outbox.Receipts.Change.{Passes, Carries, receipt_for, Applies, Answer}

is_accepted-Passes : (s : Status) → Passes s (is_accepted s)
is_accepted-Passes unspecified = inr (λ e. cc e, refl)
is_accepted-Passes pending = inr (λ e. cc e, refl)
is_accepted-Passes queued = inr (λ e. cc e, refl)
is_accepted-Passes judging = inr (λ e. cc e, refl)
is_accepted-Passes accepted = inl (refl, refl)
is_accepted-Passes wrong_answer = inr (λ e. cc e, refl)
is_accepted-Passes compile_error = inr (λ e. cc e, refl)
is_accepted-Passes memory_limit_exceeded = inr (λ e. cc e, refl)
is_accepted-Passes time_limit_exceeded = inr (λ e. cc e, refl)
is_accepted-Passes runtime_error = inr (λ e. cc e, refl)
is_accepted-Passes system_error = inr (λ e. cc e, refl)
is_accepted-Passes cancelled = inr (λ e. cc e, refl)

module _ (env : Env) where
  open env use {stored, to_json}

  abbrev Outcome :
      Database → UpdateJudgeResultRequest → JudgeResult → ℕ → ℕ → Database × ApplyOutcome → Type 0
  Outcome db request result expires now (db', outcome) =
      ((outcome ≢ persisted) × (db' ≡ db))
      ⊎ ((outcome ≡ persisted)
          × (db.receipts request.message_id ≡ none)
          × Applies env db db' request result expires now)

  by_receipt-≢ :
      (r : JudgeResultReceipt) (q : UpdateJudgeResultRequest) → by_receipt r q ≢ persisted
  unfolding by_receipt
  by_receipt-≢ r q = ground arith

  judged-Carries :
      (s : Submission) (result : JudgeResult) (json : Text) (now : ℕ)
      → Carries s (judged env s result json now) result json (is_accepted result.status)
  unfolding judged
  judged-Carries s result json now = record {
    next_version = refl;
    status = refl;
    result_json = refl;
    is_pass = refl;
    passes = is_accepted-Passes result.status;
    time_used = refl;
    memory_used = refl;
    same_id = refl;
    same_user = refl;
    same_question = refl;
    same_code = refl;
    same_language = refl;
  }

  apply_submission-Outcome :
      (db : Database) (request : UpdateJudgeResultRequest) (result : JudgeResult)
      → (expires now id : ℕ) (s : Submission) (json : Option Text) → to_json result ≡ json
      → request.task_id ≡ submission_id id
      → db.submissions id ≡ some s
      → db.receipts request.message_id ≡ none
      → Outcome db request result expires now (apply_submission env db request result id s now json)
  unfolding apply_submission
  apply_submission-Outcome db request result expires now id s none j t f n =
      inl (ground arith, refl)
  apply_submission-Outcome db request result expires now id s (some json) j t f n = inr (
    refl,
    n,
    inr (
      id,
      s,
      judged env s result json now,
      json,
      is_accepted result.status,
      t,
      f,
      j,
      judged-Carries s result json now,
      rw t refl,
    ),
  )

  apply_found-Outcome :
      (db : Database) (request : UpdateJudgeResultRequest) (result : JudgeResult)
      → (expires now id : ℕ) (found : Option Submission) → request.task_id ≡ submission_id id
      → db.submissions id ≡ found
      → db.receipts request.message_id ≡ none
      → Outcome db request result expires now (apply_found env db request result id now found)
  unfolding apply_found
  apply_found-Outcome db request result expires now id none t f n = inl (ground arith, refl)
  apply_found-Outcome db request result expires now id (some s) t f n =
      apply_submission-Outcome db request result expires now id s (to_json result) refl t f n

  apply_new-Outcome :
      (db : Database) (request : UpdateJudgeResultRequest) (result : JudgeResult)
      → (expires now : ℕ) (t : TaskId) → request.task_id ≡ t
      → db.receipts request.message_id ≡ none
      → Outcome db request result expires now (apply_new env db request result expires now t)
  unfolding apply_new
  apply_new-Outcome db request result expires now no_task t n = inl (ground arith, refl)
  apply_new-Outcome db request result expires now (custom_task_id id) t n =
      inr (refl, n, inl (id, t, rw t refl))
  apply_new-Outcome db request result expires now (submission_id id) t n =
      apply_found-Outcome db request result expires now id (db.submissions id) t refl n

  with_receipt-Outcome :
      (db : Database) (request : UpdateJudgeResultRequest) (result : JudgeResult)
      → (expires now : ℕ) (receipt : Option JudgeResultReceipt)
      → db.receipts request.message_id ≡ receipt
      → Outcome db request result expires now
          (with_receipt env db request result expires now receipt)
  unfolding with_receipt
  with_receipt-Outcome db request result expires now (some r) n = inl (by_receipt-≢ r request, refl)
  with_receipt-Outcome db request result expires now none n =
      apply_new-Outcome db request result expires now request.task_id refl n

  same_target-receipt_for :
      (request : UpdateJudgeResultRequest) (t u : TaskId) (expires now : ℕ)
      → t ≢ no_task
      → ((same_target (receipt_for env request t expires now) u ≡ true) × (u ≡ t))
        ⊎ ((same_target (receipt_for env request t expires now) u ≡ false) × (u ≢ t))
  unfolding same_target
  same_target-receipt_for request no_task u expires now h = elim (h refl) [ ]
  same_target-receipt_for request (submission_id m) no_task expires now h = ground arith
  same_target-receipt_for request (submission_id m) (submission_id n) expires now h = ground arith
  same_target-receipt_for request (submission_id m) (custom_task_id n) expires now h = ground arith
  same_target-receipt_for request (custom_task_id m) no_task expires now h = ground arith
  same_target-receipt_for request (custom_task_id m) (submission_id n) expires now h = ground arith
  same_target-receipt_for request (custom_task_id m) (custom_task_id n) expires now h = ground arith

  payload-receipt_for :
      (request : UpdateJudgeResultRequest) (t : TaskId) (expires now : ℕ)
      → (receipt_for env request t expires now).result_payload ≡ request.result_payload
  payload-receipt_for request no_task expires now = refl
  payload-receipt_for request (submission_id m) expires now = refl
  payload-receipt_for request (custom_task_id m) expires now = refl

  pub by_receipt-Answer :
      (request again : UpdateJudgeResultRequest) (expires now : ℕ)
      → request.task_id ≢ no_task
      → Answer env
          (by_receipt (receipt_for env request request.task_id expires now) again)
          again
          request
  unfolding by_receipt receipt_matches
  by_receipt-Answer request again expires now h = ground (
    arith,
    same_target-receipt_for request request.task_id again.task_id expires now h,
    payload-receipt_for request request.task_id expires now,
  )

  -- A transaction that applies the result leaves a receipt of the message, and the outbox alone.
  pub receipts-Applies :
      (db db' : Database) (request : UpdateJudgeResultRequest) (result : JudgeResult)
      → (expires now : ℕ) → Applies env db db' request result expires now
      → (db'.receipts
          ≡ put db.receipts request.message_id
              (receipt_for env request request.task_id expires now))
        × (db'.outbox ≡ db.outbox)
        × (request.task_id ≢ no_task)
  receipts-Applies db db' request result expires now (inl (id, t, e)) =
      rw e (refl, refl, rw t (λ h. cc h))
  receipts-Applies db db' request result expires now (inr (id, s, s', json, pass, t, _, _, _, e)) =
      rw e (refl, refl, rw t (λ h. cc h))

  answer_thrown-≢ :
      (db : Database) (request : UpdateJudgeResultRequest) (read_ok : Bool)
      (receipt : Option JudgeResultReceipt)
      → db.receipts request.message_id ≡ receipt
      → answer_thrown env db request read_ok ≢ persisted
  unfolding answer_thrown after_exception
  answer_thrown-≢ db request read_ok none e = ground (arith, e)
  answer_thrown-≢ db request read_ok (some r) e = ground (arith, e, by_receipt-≢ r request)

  -- After an exception, a call for a message with a receipt answers by it, or that it may be tried
  -- again.
  answer_thrown-receipt :
      (db : Database) (request : UpdateJudgeResultRequest) (read_ok : Bool)
      (receipt : JudgeResultReceipt)
      → db.receipts request.message_id ≡ some receipt
      → (answer_thrown env db request read_ok ≡ by_receipt receipt request)
        ⊎ (answer_thrown env db request read_ok ≡ retryable_failure)
  unfolding answer_thrown after_exception
  answer_thrown-receipt db request read_ok r e = ground (arith, e)

  -- What a call for a message does, by how its transaction ends.
  Ends :
      Database
      → UpdateJudgeResultRequest
      → JudgeResult
      → ℕ
      → ℕ
      → Commit
      → Database × ApplyOutcome
      → Type 0
  Ends db request result expires now commit (db', outcome) =
      ((outcome ≢ persisted) × (db' ≡ db))
      ⊎ ((db.receipts request.message_id ≡ none)
          × Applies env db db' request result expires now
          × (((commit ≡ committed) × (outcome ≡ persisted))
              ⊎ ((commit ≡ commit_unanswered)
                  × ((outcome ≡ idempotent) ⊎ (outcome ≡ retryable_failure)))))

  unanswered-Answer :
      (request : UpdateJudgeResultRequest) (expires now : ℕ) (outcome : ApplyOutcome)
      → (outcome ≡ by_receipt (receipt_for env request request.task_id expires now) request)
        ⊎ (outcome ≡ retryable_failure)
      → request.task_id ≢ no_task
      → (outcome ≡ idempotent) ⊎ (outcome ≡ retryable_failure)
  unanswered-Answer request expires now outcome (inr retry) t = inr retry
  unanswered-Answer request expires now outcome (inl by) t =
      elim (by_receipt-Answer request request expires now t) [
        | inl (same, _) ↦ inl (by ∙ same)
        | inr (_, differs) ↦ absurd (differs (refl, refl))
      ]

  unanswered-Ends :
      (db : Database) (request : UpdateJudgeResultRequest) (result : JudgeResult)
      → (expires now : ℕ) (read_ok : Bool) (r : Database × ApplyOutcome)
      → Outcome db request result expires now r
      → Ends db request result expires now commit_unanswered
          (r.0, answer_thrown env r.0 request read_ok)
  unfolding Ends
  unanswered-Ends db request result expires now read_ok (db', outcome) (inl (_, same)) =
      inl (answer_thrown-≢ db' request read_ok (db'.receipts request.message_id) refl, same)
  unanswered-Ends db request result expires now read_ok (db', outcome) (inr (_, fresh, applies)) =
      let (receipts, _, t) = receipts-Applies db db' request result expires now applies in
      inr (
        fresh,
        applies,
        inr (
          refl,
          unanswered-Answer request expires now _
              (answer_thrown-receipt db' request read_ok
                (receipt_for env request request.task_id expires now) (rw receipts (ground arith)))
              t,
        ),
      )

  apply-Ends :
      (db : Database) (request : UpdateJudgeResultRequest) (result : JudgeResult)
      → (expires now : ℕ) (commit : Commit) (read_ok : Bool) (r : Database × ApplyOutcome)
      → Outcome db request result expires now r
      → Ends db request result expires now commit (apply_ended env commit db request read_ok r)
  unfolding Ends apply_ended
  apply-Ends db request result expires now committed read_ok r (inl same) = inl same
  apply-Ends db request result expires now committed read_ok r (inr (done, fresh, applies)) =
      inr (fresh, applies, inl (refl, done))
  apply-Ends db request result expires now rolled_back read_ok r o =
      inl (answer_thrown-≢ db request read_ok (db.receipts request.message_id) refl, refl)
  apply-Ends db request result expires now commit_unanswered read_ok r o =
      unanswered-Ends db request result expires now read_ok r o

  -- A call either changes nothing and does not answer `Persisted`, or there was no receipt of the
  -- message and the transaction took effect. Then the call answers `Persisted`, or, where the answer
  -- to its commit was lost, that the result was applied already or that it may be tried again; and
  -- exactly this has changed: there is a receipt with the request's target and payload, which
  -- expires for a custom task; and for a submission, its row has the status, the figures and the JSON
  -- of the result, passes exactly if the result is accepted, is one version further (in 64 bits) and
  -- keeps its id, user, question, code and language, and the history has one more entry with its
  -- user, question, JSON and verdict.
  pub apply_branches :
      (db : Database) (request : UpdateJudgeResultRequest) (result : JudgeResult)
      → (expires now : ℕ) (commit : Commit) (read_ok : Bool)
      → let (db', outcome) = apply_judge_result env db request result expires now commit read_ok in
        ((outcome ≢ persisted) × (db' ≡ db))
        ⊎ ((db.receipts request.message_id ≡ none)
            × Applies env db db' request result expires now
            × (((commit ≡ committed) × (outcome ≡ persisted))
                ⊎ ((commit ≡ commit_unanswered)
                    × ((outcome ≡ idempotent) ⊎ (outcome ≡ retryable_failure)))))
  unfolding apply_judge_result Ends
  apply_branches db request result expires now commit read_ok =
      apply-Ends db request result expires now commit read_ok _
        (with_receipt-Outcome db request result expires now (db.receipts request.message_id) refl)

  -- A call for a message that has a receipt.
  pub apply_known :
      (db : Database) (r : JudgeResultReceipt) (again : UpdateJudgeResultRequest)
      (result : JudgeResult)
      → (expires now : ℕ) (commit : Commit) (read_ok : Bool) → db.receipts again.message_id ≡ some r
      → let (db', outcome) = apply_judge_result env db again result expires now commit read_ok in
        (db' ≡ db)
        × ((outcome ≡ by_receipt r again) ⊎ ((outcome ≡ retryable_failure) × (commit ≢ committed)))
  unfolding apply_judge_result with_receipt apply_ended answer_thrown after_exception
  apply_known db r again result expires now committed read_ok e = rw e (refl, inl refl)
  apply_known db r again result expires now rolled_back read_ok e = rw e (refl, ground arith)
  apply_known db r again result expires now commit_unanswered read_ok e = rw e (refl, ground arith)
