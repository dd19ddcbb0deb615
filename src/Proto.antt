-- ===== src/Proto.antt =====
-- The messages of src/comm/proto that the judge pipeline exchanges (mq_message.proto, common.proto),
-- with the fields that the program reads or writes. A proto3 `string` is its bytes; unsigned fields
-- are numbers, `int64` fields integers.
use online_judge.Base.{ℕ, ℤ, Text, List, []}

-- `oneof task_id`.
pub data TaskId : Type 0 where
  no_task : TaskId
  submission_id : ℕ → TaskId
  custom_task_id : Text → TaskId

pub record TestCaseInput : Type 0 where
  pub test_case_id : ℕ
  pub index : ℕ
  pub input : Text
  pub expected_output : Text

pub record JudgeTask : Type 0 where
  pub message_id : Text
  pub task_id : TaskId
  pub user_id : ℕ
  pub question_id : Text
  pub code : Text
  pub language : Text
  pub time_limit_ms : ℕ
  pub memory_limit_mb : ℕ
  pub test_cases : List TestCaseInput
  pub created_at : ℤ

pub data Status : Type 0 where
  unspecified pending queued judging accepted wrong_answer compile_error : Status
  memory_limit_exceeded time_limit_exceeded runtime_error system_error cancelled : Status

unfoldable pub Status-discrete : Discrete Status
Status-discrete = hlevel

pub record TestCaseResult : Type 0 where
  pub index : ℕ
  pub status : Status
  pub time_used_ms : ℕ
  pub memory_used_bytes : ℕ
  pub input : Text
  pub expected_output : Text
  pub actual_output : Text

pub record JudgeResult : Type 0 where
  pub status : Status
  pub time_used_ms : ℕ
  pub memory_used_bytes : ℕ
  pub compile_error_text : Text
  pub test_case_results : List TestCaseResult
  pub completed_at : ℕ

-- A default-constructed `JudgeResult`.
abbrev pub empty_result : JudgeResult
empty_result = record {
  status = unspecified;
  time_used_ms = 0;
  memory_used_bytes = 0;
  compile_error_text = [];
  test_case_results = [];
  completed_at = 0;
}
