-- ===== src/Outbox/Receipts/Once.antt =====
-- model_submission.hpp: a message that comes again, among other calls of `ApplyJudgeResult` and the
-- clean-up of the receipts.
use online_judge.Base.{
  ℕ, ◌≤◌, ◌≡◌, ◌≢◌, refl, ◌⊎◌, inl, inr, subst, sym, ap, ◌∙◌, Text, List, [], ◌∷◌, some, Bool, All,
  arith,
}
use online_judge.Proto.{TaskId, no_task, submission_id, custom_task_id, JudgeResult}
use online_judge.Outbox.{
  Env, Database, JudgeResultReceipt, Commit, committed, rolled_back, commit_unanswered,
}
use online_judge.Outbox.Receipts.{
  UpdateJudgeResultRequest, ApplyOutcome, persisted, retryable_failure, by_receipt, unless_expired,
  apply_judge_result, cleanup_expired_result_receipts,
}
use online_judge.Outbox.Receipts.Change.{Answer, receipt_for}
use online_judge.Outbox.Receipts.Applied.{
  receipts-Applies, apply_branches, apply_known, by_receipt-Answer,
}

-- The calls that write receipts.
pub data Call : Type 0 where
  applies :
      UpdateJudgeResultRequest → JudgeResult → (expires now : ℕ) → Commit → (read_ok : Bool) → Call
  cleans : (now : ℕ) → Commit → Call

module _ (env : Env) where
  open env use {stored}

  unfoldable pub after_call : Database → Call → Database
  after_call db (applies request result expires now commit read_ok) =
      (apply_judge_result env db request result expires now commit read_ok).0
  after_call db (cleans now commit) = (cleanup_expired_result_receipts env db now commit).0

  unfoldable pub after_calls : Database → List Call → Database
  unfolding after_call
  after_calls db [] = db
  after_calls db (c ∷ calls) = after_calls (after_call db c) calls

  -- The receipt of the target has not expired at the time.
  abbrev Lasts : TaskId → (expires now : ℕ) → Type 0
  Lasts no_task expires now = Unit
  Lasts (submission_id id) expires now = Unit
  Lasts (custom_task_id id) expires now = now ≤ stored expires

  -- A clean-up comes before the receipt of the target expires; any other call is free.
  abbrev pub Spares : TaskId → (expires : ℕ) → Call → Type 0
  Spares target expires (applies request result e now commit read_ok) = Unit
  Spares target expires (cleans now commit) = Lasts target expires now

  unless_expired-receipt_for :
      (request : UpdateJudgeResultRequest) (t : TaskId) (expires now later : ℕ)
      → Lasts t expires later
      → unless_expired env later (some (receipt_for env request t expires now))
        ≡ some (receipt_for env request t expires now)
  unfolding unless_expired
  unless_expired-receipt_for request no_task expires now later h = refl
  unless_expired-receipt_for request (submission_id id) expires now later h = refl
  unless_expired-receipt_for request (custom_task_id id) expires now later h = ground arith

  cleans-receipt :
      (db : Database) (m : Text) (r : JudgeResultReceipt) (now : ℕ) (commit : Commit)
      → db.receipts m ≡ some r
      → unless_expired env now (some r) ≡ some r
      → (cleanup_expired_result_receipts env db now commit).0.receipts m ≡ some r
  unfolding cleanup_expired_result_receipts
  cleans-receipt db m r now committed e k = ap (unless_expired env now) e ∙ k
  cleans-receipt db m r now rolled_back e k = e
  cleans-receipt db m r now commit_unanswered e k = ap (unless_expired env now) e ∙ k

  applies-receipt :
      (db : Database) (m : Text) (r : JudgeResultReceipt) (request : UpdateJudgeResultRequest)
      (result : JudgeResult)
      → (expires now : ℕ) (commit : Commit) (read_ok : Bool) → db.receipts m ≡ some r
      → (apply_judge_result env db request result expires now commit read_ok).0.receipts m ≡ some r
  applies-receipt db m r request result expires now commit read_ok e =
      elim (apply_branches env db request result expires now commit read_ok) [
        | inl (_, same) ↦ ap (λ x. x.receipts m) same ∙ e
        | inr (fresh, changes, _) ↦
            let (receipts, _, _) = receipts-Applies env db _ request result expires now changes in
            ap (λ x. x m) receipts ∙ ground (arith, fresh, e)
      ]

  after_calls-receipt :
      (db : Database) (request : UpdateJudgeResultRequest) (expires now : ℕ) (calls : List Call)
      → let r = receipt_for env request request.task_id expires now in
        db.receipts request.message_id ≡ some r
        → All (Spares request.task_id expires) calls
        → (after_calls db calls).receipts request.message_id ≡ some r
  unfolding after_calls after_call
  after_calls-receipt db request expires now [] e h = e
  after_calls-receipt db request expires now (applies q result x t commit ok ∷ calls) e h =
      after_calls-receipt (after_call db (applies q result x t commit ok)) request expires now calls
        (applies-receipt db request.message_id _ q result x t commit ok e) h.1
  after_calls-receipt db request expires now (cleans t commit ∷ calls) e h =
      after_calls-receipt (after_call db (cleans t commit)) request expires now calls
        (cleans-receipt db request.message_id _ t commit e
          (unless_expired-receipt_for request request.task_id expires now t h.0))
        h.1

  -- Once a result was persisted for a message, then after any calls for any messages, and clean-ups
  -- of the receipts, a further call for the message changes nothing, whatever becomes of its
  -- transaction, and answers that the result was applied already if it has the same target and
  -- payload, and a conflict otherwise; only where its transaction threw may it answer that it may be
  -- tried again. For a custom task this holds while each clean-up comes before the receipt expires.
  pub result_applies_once :
      (db : Database) (request again : UpdateJudgeResultRequest) (result result' : JudgeResult)
      → (expires now expires' now' : ℕ) (commit commit' : Commit) (read_ok read_ok' : Bool)
      → (calls : List Call)
      → (apply_judge_result env db request result expires now commit read_ok).1 ≡ persisted
      → All (Spares request.task_id expires) calls
      → again.message_id ≡ request.message_id
      → let db' =
          after_calls
            (apply_judge_result env db request result expires now commit read_ok).0
            calls in
        let (db'', outcome) =
          apply_judge_result env db' again result' expires' now' commit' read_ok' in
        (db'' ≡ db')
        × (Answer env outcome again request
            ⊎ ((outcome ≡ retryable_failure) × (commit' ≢ committed)))
  result_applies_once db request again result result' expires now expires' now' commit commit'
        read_ok read_ok' calls h spares same =
      elim (apply_branches env db request result expires now commit read_ok) [
        | inl (other, _) ↦ absurd (other h)
        | inr (_, changes, _) ↦
            let first = (apply_judge_result env db request result expires now commit read_ok).0 in
            let r = receipt_for env request request.task_id expires now in
            let (receipts, _, t) =
              receipts-Applies env db first request result expires now changes in
            let kept : (after_calls first calls).receipts request.message_id ≡ some r =
              after_calls-receipt first request expires now calls
                (ap (λ x. x request.message_id) receipts ∙ ground arith) spares in
            let (fixed, answer) =
              apply_known env (after_calls first calls) r again result' expires' now' commit'
                read_ok' (rw same kept) in
            (fixed, answered _ answer t)
      ]
    where
      answered :
          (outcome : ApplyOutcome)
          → (outcome ≡ by_receipt (receipt_for env request request.task_id expires now) again)
            ⊎ ((outcome ≡ retryable_failure) × (commit' ≢ committed))
          → request.task_id ≢ no_task
          → Answer env outcome again request
            ⊎ ((outcome ≡ retryable_failure) × (commit' ≢ committed))
      answered outcome (inl by) t = inl (
          subst (λ o. Answer env o again request) (sym by)
            (by_receipt-Answer env request again expires now t))
      answered outcome (inr retry) t = inr retry
