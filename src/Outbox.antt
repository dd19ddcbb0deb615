-- ===== src/Outbox.antt =====
-- The transactional outbox of the business server:
-- src/oj_server/include/model/model_submission.hpp, src/comm/models and
-- src/oj_server/src/judge/outbox_publisher.cpp.
--
-- The tables are maps from primary keys. What a transaction writes becomes visible at one moment, or
-- never; `Commit` says which, and whether the call learns of it (the exception of a duplicate key is
-- in the model). `UpdateOutbox` reads its row without a lock, so that row is an argument of its own.
-- Times are microseconds; `stored` is the value that a `DATETIME` column keeps of one. The cache of
-- custom tasks, which no operation here reads, and the log are left out.
pub mod Claims
pub mod History
pub mod Receipts
pub mod Publisher
mod Examples
use online_judge.Base.{
  is_some, ℕ, ◌+◌, ◌*◌, ◌-◌, ◌%◌, ◌^◌, Text, ◌=t◌, codes, List, [], ◌∷◌, ◌++◌, Option, none, some,
  Bool, true, false, not, ◌&&◌, ◌||◌, ltb, leb, ◌==◌, is_empty, length, if◌then◌else◌, ℤ, pos,
  negsuc,
}
use online_judge.Proto.{
  JudgeTask, TaskId, no_task, submission_id, custom_task_id, JudgeResult, Status, Status-discrete,
  unspecified, pending, queued, judging, accepted, wrong_answer, compile_error,
  memory_limit_exceeded, time_limit_exceeded, runtime_error, system_error, cancelled,
}

-- The column `status` of the outbox: the strings that the program writes.
pub data OutboxStatus : Type 0 where
  waiting sending published dead : OutboxStatus

pub record JudgeOutbox : Type 0 where
  pub message_id : Text
  pub task_type : Text
  pub submission_id : Option ℕ
  pub custom_task_id : Option Text
  pub payload : Text
  pub status : OutboxStatus
  pub attempt_count : ℕ
  pub next_retry_at : Option ℕ
  pub lease_owner : Option Text
  pub lease_expires_at : Option ℕ
  pub confirm_deadline : Option ℕ
  pub created_at : ℕ
  pub published_at : Option ℕ

pub record Submission : Type 0 where
  pub submission_id : ℕ
  pub user_id : ℕ
  pub question_id : Text
  pub code : Text
  pub language : Text
  pub status : Text
  pub result_json : Option Text
  pub is_pass : Option Bool
  pub time_used_ms : Option ℕ
  pub memory_used_bytes : Option ℕ
  pub compile_error : Option Text
  pub created_at : ℕ
  pub completed_at : Option ℕ
  pub result_version : ℕ

pub record JudgeResultReceipt : Type 0 where
  pub message_id : Text
  pub submission_id : Option ℕ
  pub custom_task_id : Option Text
  pub result_payload : Text
  pub applied_at : ℕ
  pub expires_at : Option ℕ
  pub created_at : ℕ

pub record LegacySubmission : Type 0 where
  pub user_id : ℕ
  pub question_id : Text
  pub result_json : Text
  pub is_pass : Bool
  pub action_time : ℕ

pub record Database : Type 0 where
  pub outbox : Text → Option JudgeOutbox
  pub submissions : ℕ → Option Submission
  pub receipts : Text → Option JudgeResultReceipt
  pub history : List LegacySubmission

-- How a transaction ends: it commits; it throws and is rolled back; or it has committed and throws all
-- the same, as when the connection breaks before the answer comes.
pub data Commit : Type 0 where
  committed rolled_back commit_unanswered : Commit

-- The database after a transaction.
abbrev pub kept : Commit → (before after : Database) → Database
kept committed before after = after
kept rolled_back before after = before
kept commit_unanswered before after = after

abbrev pub answers : Commit → Bool
answers committed = true
answers rolled_back = false
answers commit_unanswered = false

-- A row is written at its key.
abbrev pub put {ℓ} : {A : Type ℓ} → (Text → Option A) → Text → A → Text → Option A
put table key row k = if k =t key then some row else table k

abbrev pub put_id {ℓ} : {A : Type ℓ} → (ℕ → Option A) → ℕ → A → ℕ → Option A
put_id table key row k = if k == key then some row else table k

abbrev pub outbox_max_age_micros : ℕ
outbox_max_age_micros = 900000000

abbrev pub outbox_max_attempts : ℕ
outbox_max_attempts = 20

-- What protobuf and the columns do.
pub record Env : Type 0 where
  pub stored : ℕ → ℕ
  pub serialize : JudgeTask → Option Text
  pub to_json : JudgeResult → Option Text

abbrev new_outbox : Text → Text → Option ℕ → Option Text → Text → ℕ → JudgeOutbox
new_outbox id kind submission custom payload now = record {
  message_id = id;
  task_type = kind;
  submission_id = submission;
  custom_task_id = custom;
  payload = payload;
  status = waiting;
  attempt_count = 0;
  next_retry_at = none;
  lease_owner = none;
  lease_expires_at = none;
  confirm_deadline = none;
  created_at = now;
  published_at = none;
}

-- `database->persist(outbox)` and `transaction.commit()`; a duplicate key throws.
persist_outbox :
    {A : Type 0} → Commit → Database → (db : Database) → JudgeOutbox → A → Database × Option A
persist_outbox commit before db row answer = elim (db.outbox row.message_id) [
  | some _ ↦ (before, none)
  | none ↦ (
    kept commit before (record db { outbox = put db.outbox row.message_id row }),
    if answers commit then some answer else none,
  )
]

abbrev has_custom : TaskId → Bool
has_custom no_task = false
has_custom (submission_id n) = false
has_custom (custom_task_id id) = true

module _ (env : Env) where
  open env use {stored, serialize, to_json}

  -- `new_id` is the id that the database gives to the row of `submissions`.
  pub create_submission_with_outbox :
      Database
      → (user_id : ℕ) → (question_id code language : Text) → JudgeTask
      → (new_id now : ℕ) → Commit
      → Database × Option Submission
  unfolding persist_outbox
  create_submission_with_outbox db user_id question_id code language task new_id now commit =
      if user_id == 0 || is_empty question_id || is_empty task.message_id || has_custom task.task_id
      then (db, none)
      else (let submission : Submission = record {
        submission_id = new_id;
        user_id = user_id;
        question_id = question_id;
        code = code;
        language = language;
        status = codes "QUEUED";
        result_json = none;
        is_pass = none;
        time_used_ms = none;
        memory_used_bytes = none;
        compile_error = none;
        created_at = stored now;
        completed_at = none;
        result_version = 0;
      } in
          elim (serialize (record task { task_id = submission_id new_id })) [
            | none ↦ (db, none)
            | some payload ↦
                persist_outbox commit db
                  (record db { submissions = put_id db.submissions new_id submission })
                  (new_outbox task.message_id (codes "submission") (some new_id) none payload
                    (stored now))
                  submission
          ])

  pub create_custom_outbox : Database → JudgeTask → (now : ℕ) → Commit → Database × Bool
  unfolding persist_outbox
  create_custom_outbox db task now commit = elim task.task_id [
    | custom_task_id id ↦
        if is_empty task.message_id || is_empty id then (db, false) else elim (serialize task) [
          | none ↦ (db, false)
          | some payload ↦
              let (db', answer) =
                persist_outbox commit db db
                  (new_outbox task.message_id (codes "custom") none (some id) payload (stored now))
                  tt in
              (db', is_some answer)
        ]
    | no_task ↦ (db, false)
    | submission_id n ↦ (db, false)
  ]
