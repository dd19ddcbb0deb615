-- ===== src/Outbox/History.antt =====
-- model_submission.hpp: the outbox under any operations of any publishers and requests.
pub mod Counts
use online_judge.Base.{
  ℕ, ◌+◌, ◌-◌, ◌≤◌, ◌≡◌, refl, inl, inr, Text, List, [], ◌∷◌, ◌++◌, Option, none, some, Bool, ◌||◌,
  ◌==◌, is_empty, tally, tally-append, arith, ap, Option-cases, Bool-cases,
}
use online_judge.Proto.{JudgeTask, TaskId, JudgeResult, no_task, submission_id, custom_task_id}
use online_judge.Outbox.{
  JudgeOutbox, Database, Env, put, put_id, Commit, persist_outbox, new_outbox, has_custom,
  create_submission_with_outbox, create_custom_outbox,
}
use online_judge.Outbox.Claims.{claim_pending_outbox, update_outbox}
use online_judge.Outbox.Claims.Attempts.{
  IsSound, IsSoundAt, attempts, is_message, Counted, same-Counted, put-Counted, kept-Counted,
  claims-Counted, or_nil, attempts_bounded,
}
use online_judge.Outbox.Claims.Marks.{marks-IsSoundAt}
use online_judge.Outbox.Receipts.{UpdateJudgeResultRequest, apply_judge_result}
use online_judge.Outbox.Receipts.Applied.{apply_branches, receipts-Applies}

pub data Operation : Type 0 where
  creates_submission :
      (user_id : ℕ)
      → (question_id code language : Text) → JudgeTask
      → (new_id now : ℕ) → Commit
      → Operation
  creates_custom : JudgeTask → (now : ℕ) → Commit → Operation
  claims :
      (limit : ℕ)
      → (owner : Text) → (lease_seconds confirm_timeout_seconds now : ℕ) → (keys : List Text)
      → Commit
      → Operation
  -- `UpdateOutbox` reads the row of a message, and, later, marks what it read: `call` is its number.
  looks : (call : ℕ) → (message_id : Text) → Operation
  marks :
      (call : ℕ)
      → (owner : Text) → (is_published : Bool) → (retry_delay_seconds now : ℕ) → Commit
      → Operation
  applies :
      UpdateJudgeResultRequest
      → JudgeResult
      → (expires now : ℕ) → Commit
      → (read_ok : Bool) → Operation

-- What a call of `UpdateOutbox` has read.
pub record Look : Type 0 where
  pub message_id : Text
  pub found : Option JudgeOutbox

-- The database, and what the calls of `UpdateOutbox` that are under way have read of it.
pub record Store : Type 0 where
  pub database : Database
  pub looked : ℕ → Option Look

module _ (env : Env) where
  pub mark_looked :
      Database → Option Look → Text → Bool → (retry_delay_seconds now : ℕ) → Commit → Database
  mark_looked db none owner is_published delay now commit = db
  mark_looked db (some look) owner is_published delay now commit =
      (update_outbox env db look.found look.message_id owner is_published delay now commit).0

  -- The store after an operation, and the rows that it hands to a publisher.
  pub step : Store → Operation → Store × List JudgeOutbox
  unfolding mark_looked
  step s (creates_submission user question code language task new_id now commit) = (
    record s {
      database =
          (create_submission_with_outbox env s.database user question code language task new_id now
            commit).0;
    },
    [],
  )
  step s (creates_custom task now commit) =
      (record s { database = (create_custom_outbox env s.database task now commit).0 }, [])
  step s (claims limit owner lease confirm now keys commit) =
      let (db', rows) =
        claim_pending_outbox env s.database limit owner lease confirm now keys commit in
      (record s { database = db' }, or_nil rows)
  step s (looks call id) = (
    record s {
      looked = put_id s.looked call (record { message_id = id; found = s.database.outbox id });
    },
    [],
  )
  step s (marks call owner is_published delay now commit) = (
    record s {
      database = mark_looked s.database (s.looked call) owner is_published delay now commit;
    },
    [],
  )
  step s (applies request result expires now commit read_ok) = (
    record s {
      database = (apply_judge_result env s.database request result expires now commit read_ok).0;
    },
    [],
  )

  unfoldable pub run : Store → List Operation → Store × List JudgeOutbox
  unfolding step
  run s [] = (s, [])
  run s (op ∷ rest) =
      let (s', rows) = step s op in let (s'', later) = run s' rest in (s'', rows ++ later)

  -- The attempts that an operation takes away from the row of the message, if it is a mark: it writes
  -- the whole row as it was read, and forgets the claims that came in between.
  abbrev pub forgotten_by : Text → Store → Operation → ℕ
  forgotten_by k s (marks call owner is_published delay now commit) =
      attempts (s.database.outbox k)
      - attempts ((step s (marks call owner is_published delay now commit)).0.database.outbox k)
  forgotten_by k s _ = 0

  unfoldable pub forgotten : Text → Store → List Operation → ℕ
  forgotten k s [] = 0
  forgotten k s (op ∷ rest) = forgotten_by k s op + forgotten k (step s op).0 rest
