-- ===== src/Judger/Run.antt =====
-- judger.hpp: the coroutine `Judger::Run`, from the compile container to the last test case.
--
-- The containers and the event loop are the environment: a state `W`, the calls of a sandbox, and
-- `awaited`, what a `co_await` gives back for the result that its work computed (the loop may answer
-- for a deadline or a cancellation instead). The host's temporary files, which nothing reads back,
-- the latency timer and the log are left out.

pub mod Verdict
mod Examples
use online_judge.Base.{
  ℕ, ◌+◌, ◌*◌, ◌%◌, ◌^◌, Text, ◌=t◌, codes, List, [], ◌∷◌, ◌++◌, Option, none, some, Bool, true,
  false, not, ◌&&◌, ◌||◌, ◌==◌, ltb, is_empty, if◌then◌else◌, max, ℤ, pos, negsuc,
}
use online_judge.Proto.{
  JudgeTask, TaskId, no_task, submission_id, custom_task_id, JudgeResult, TestCaseResult, Status,
  Status-discrete, accepted, wrong_answer, compile_error, memory_limit_exceeded,
  time_limit_exceeded, runtime_error, system_error, empty_result,
}
use online_judge.Delivery.{is_guest_submission}
use online_judge.Delivery.Consumer.{TestCase, u32}
use online_judge.Judger.Output.{normalize_output}

pub data Container : Type 0 where
  compiler runner : Container

-- `oj_sandbox::ExecResult`, in the fields that the judger reads.
pub record ExecResult : Type 0 where
  pub exit_code : ℤ
  pub timed_out : Bool
  pub stdout_str : Text

-- `DockerTaskResult`, in the fields that the judger reads.
pub record DockerTaskResult : Type 0 where
  pub status : Text
  pub timed_out : Bool
  pub stdout_str : Text
  pub time_used_ms : ℕ
  pub memory_used_bytes : ℕ

-- The environment. `create` gives a container id, empty if it failed; `start` and `write_file` a
-- return code; `acquire` whether the pool gave a runner.
pub record Docker (W : Type 0) : Type 0 where
  pub create : W → Text × W
  pub start : W → ℤ × W
  pub write_file : Container → (path contents : Text) → W → ℤ × W
  pub read_file : Container → (path : Text) → W → Text × W
  pub exec : Container → (command : Text) → (timeout_ms : ℕ) → W → ExecResult × W
  pub destroy : Container → W → W
  pub acquire : W → Bool × W
  pub was_oom_killed : W → Bool
  pub memory_peak_bytes : W → ℕ
  pub elapsed_ms : (before after : W) → ℕ
  pub awaited : (timeout_ms : ℕ) → DockerTaskResult → W → DockerTaskResult
  pub decimal : ℕ → Text
  pub unix_time : W → ℕ

abbrev is_code : ℤ → ℕ → Bool
is_code (pos n) m = n == m
is_code (negsuc n) m = false

abbrev io_result : Text → Text → DockerTaskResult
io_result status text = record {
  status = status;
  timed_out = false;
  stdout_str = text;
  time_used_ms = 0;
  memory_used_bytes = 0;
}

abbrev pub is_ok : DockerTaskResult → Bool
is_ok r = r.status =t codes "OK"

-- `ToDockerTaskResult`.
pub to_docker_task_result : ExecResult → Bool → DockerTaskResult
to_docker_task_result exec compile = io_result' (
    if exec.timed_out
    then codes "TIME_LIMIT"
    else if is_code exec.exit_code 0
    then codes "OK"
    else if compile
    then codes "COMPILE_ERROR"
    else if is_code exec.exit_code 137
    then codes "RUNTIME_ERROR"
    else if is_code exec.exit_code 152
    then codes "TIME_LIMIT"
    else codes "RUNTIME_ERROR")
  where
    io_result' : Text → DockerTaskResult
    io_result' status = record (io_result status exec.stdout_str) { timed_out = exec.timed_out }

-- `MapStatusToSubmissionStatus`.
pub map_status : Text → Status
map_status s =
    if s =t codes "MEMORY_LIMIT"
    then memory_limit_exceeded
    else if s =t codes "TIME_LIMIT"
    then time_limit_exceeded
    else runtime_error

-- `LanguageStandard`.
pub language_standard : Text → Text
language_standard language = if language =t codes "cpp20" then codes "c++20" else codes "c++17"

abbrev pub same_status : Status → Status → Bool
same_status a b = elim (Status-discrete a b) [ yes _ ↦ true | no _ ↦ false ]

-- Answers are compared for submissions and for the trial runs of guests, not for custom runs.
abbrev has_custom : TaskId → Bool
has_custom no_task = false
has_custom (submission_id n) = false
has_custom (custom_task_id id) = true

pub compares_output : JudgeTask → Bool
compares_output task = not (has_custom task.task_id) || is_guest_submission task

-- How the end of the loop body counts one test case.
pub add_test_result : JudgeResult → TestCaseResult → JudgeResult
add_test_result resp one = record resp {
  status =
      if same_status resp.status accepted && not (same_status one.status accepted)
      then one.status
      else resp.status;
  time_used_ms = (resp.time_used_ms + one.time_used_ms) % 18446744073709551616;
  memory_used_bytes = max resp.memory_used_bytes one.memory_used_bytes;
  test_case_results = resp.test_case_results ++ one ∷ [];
}

module _ {W : Type 0} (docker : Docker W) where
  open docker use {
    create, start, write_file, read_file, exec, destroy, acquire, was_oom_killed, memory_peak_bytes,
    elapsed_ms, awaited, decimal, unix_time,
  }

  abbrev pub Io : Type 0 → Type 0
  Io A = W → A × W

  infixl 5 ◌>>=◌
  abbrev pub ◌>>=◌ : {A B : Type 0} → Io A → (A → Io B) → Io B
  ◌>>=◌ m f w = let (a, w') = m w in f a w'

  abbrev pure : {A : Type 0} → A → Io A
  pure a w = (a, w)

  -- `co_await DockerTaskAwaitable{timeout_ms, work}`.
  await_io : ℕ → Io DockerTaskResult → Io DockerTaskResult
  await_io timeout_ms work w = let (r, w') = work w in (awaited timeout_ms r w', w')

  abbrev by_code : ℤ → DockerTaskResult
  by_code rc = io_result (if is_code rc 0 then codes "OK" else codes "SYSTEM_ERROR") []

  abbrev by_text : Text → DockerTaskResult
  by_text t = io_result (if is_empty t then codes "SYSTEM_ERROR" else codes "OK") t

  put_file : Container → Text → Text → Io DockerTaskResult
  put_file c path contents w = let (rc, w') = write_file c path contents w in (by_code rc, w')

  take_file : Container → Text → Io DockerTaskResult
  take_file c path w = let (t, w') = read_file c path w in (io_result (codes "OK") t, w')

  destroy_work : Container → Io DockerTaskResult
  destroy_work c w = (io_result (codes "OK") [], destroy c w)

  -- The work that runs the program on one test case.
  run_work : JudgeTask → TestCase → Io DockerTaskResult
  unfolding to_docker_task_result
  run_work task test w =
      let command =
        (codes "TIME_LIMIT=" ++ decimal (max 1 test.cpu_limit))
        ++ (codes " MEM_LIMIT=" ++ decimal (max 1 test.mem_limit * 1024))
        ++ codes " OUTPUT_LIMIT_KB=1024 /judge/run.sh" in
      let (executed, w') = exec runner command (u32 (task.time_limit_ms + 1000)) w in
      let r = to_docker_task_result executed false in
      (
        record r {
          status =
              if is_code executed.exit_code 137 && was_oom_killed w'
              then codes "MEMORY_LIMIT"
              else r.status;
          time_used_ms = elapsed_ms w w';
          memory_used_bytes = memory_peak_bytes w';
        },
        w',
      )

  -- The test result before its status is known.
  abbrev pub test_base : TestCase → DockerTaskResult → TestCaseResult
  test_base test r = record {
    index = test.index;
    status = accepted;
    time_used_ms = r.time_used_ms;
    memory_used_bytes = r.memory_used_bytes;
    input = test.input;
    expected_output = test.output;
    actual_output = [];
  }

  -- The run succeeded: read the output and compare it.
  check_output : JudgeTask → TestCase → DockerTaskResult → Text → TestCaseResult
  check_output task test r user_output = record (test_base test r) {
    actual_output = user_output;
    status =
        if compares_output task
          && not (normalize_output user_output =t normalize_output test.output)
        then wrong_answer
        else accepted;
  }

  -- The part of the loop body that turns a run into a test result.
  judge_run : JudgeTask → TestCase → DockerTaskResult → Io TestCaseResult
  unfolding await_io take_file check_output map_status
  judge_run task test r =
      if r.timed_out
      then pure (record (test_base test r) {
        status = time_limit_exceeded;
        time_used_ms = max task.time_limit_ms r.time_used_ms;
      })
      else if not (is_ok r)
      then pure (record (test_base test r) { status = map_status r.status })
      else (do
        read ← await_io 6000 (take_file runner (codes "/home/judge/output.txt"))
        pure (check_output task test r read.stdout_str))

  judge_test : JudgeTask → TestCase → Io TestCaseResult
  unfolding await_io run_work judge_run
  judge_test task test = do
    r ← await_io (u32 (task.time_limit_ms + 1000)) (run_work task test)
    judge_run task test r

  -- The loop over the test cases.
  run_tests : JudgeTask → List TestCase → JudgeResult → Io JudgeResult
  unfolding await_io put_file judge_test
  run_tests task [] resp w = (resp, w)
  run_tests task (test ∷ rest) resp w =
      let (wrote, w₁) =
        await_io 6000 (put_file runner (codes "/home/judge/input.txt") test.input) w in
      let (one, w₂) = judge_test task test w₁ in
      let further = run_tests task rest (add_test_result resp one) w₂ in
      if not (is_ok wrote) then (record resp { status = system_error }, w₁) else further

  -- `ErrorResult`.
  error_result : Status → Io JudgeResult
  error_result status w = (record empty_result { status = status; completed_at = unix_time w }, w)

  -- `if (r.status != "OK") co_return ErrorResult(SYSTEM_ERROR);`
  or_error : Bool → Io JudgeResult → Io JudgeResult
  unfolding error_result
  or_error ok next = if not ok then error_result system_error else next

  -- `resp->set_completed_at(std::time(nullptr)); co_return resp;`
  stamped : JudgeResult → Io JudgeResult
  stamped resp w = (record resp { completed_at = unix_time w }, w)

  compile_failed : Io JudgeResult
  unfolding await_io take_file destroy_work
  compile_failed = do
    read ← await_io 6000 (take_file compiler (codes "/home/judge/compile_err"))
    result ← (λ w. (
      record empty_result {
        status = compile_error;
        compile_error_text = read.stdout_str;
        completed_at = unix_time w;
      },
      w,
    ))
    _ ← await_io 4000 (destroy_work compiler)
    pure result

  -- From the runner's acquisition on.
  run_program : JudgeTask → List TestCase → Text → Io JudgeResult
  unfolding await_io put_file destroy_work
  run_program task tests executable = do
    acquired ← await_io 12000 (λ w.
        let (ok, w') = acquire w in
        (io_result (if ok then codes "OK" else codes "SYSTEM_ERROR") [], w'))
    or_error (is_ok acquired) (do
      wrote ← await_io 6000 (put_file runner (codes "/home/judge/main") executable)
      or_error (is_ok wrote) (do
        chmod ← await_io 6000 (λ w.
            let (r, w') = exec runner (codes "chmod +x /home/judge/main") 5000 w in
            (to_docker_task_result r false, w'))
        or_error (is_ok chmod) (do
          resp ←
              run_tests task tests
                (record empty_result { status = if is_empty tests then system_error else accepted })
          _ ← await_io 4000 (destroy_work runner)
          stamped resp)))

  or_compile_failed : Bool → Io JudgeResult → Io JudgeResult
  unfolding compile_failed
  or_compile_failed ok next = if not ok then compile_failed else next

  -- `Judger::Run`.
  pub run : JudgeTask → List TestCase → Io JudgeResult
  unfolding await_io put_file destroy_work
  run task tests = do
    created ← await_io 6000 (λ w. let (id, w') = create w in (by_text id, w'))
    or_error (not (is_empty created.stdout_str)) (do
      began ← await_io 6000 (λ w. let (rc, w') = start w in (by_code rc, w'))
      or_error (is_ok began) (do
        wrote ← await_io 6000 (put_file compiler (codes "/home/judge/source.cpp") task.code)
        or_error (is_ok wrote) (do
          compiled ← await_io 10000 (λ w.
              let (r, w') =
                exec compiler
                  (codes "CXX_STANDARD="
                    ++ language_standard task.language
                    ++ codes " /judge/compile.sh")
                  10000 w in
              (to_docker_task_result r true, w'))
          or_compile_failed (is_ok compiled) (do
            read ← await_io 6000 (λ w.
                let (t, w') = read_file compiler (codes "/home/judge/main") w in (by_text t, w'))
            or_error (is_ok read) (do
              _ ← await_io 4000 (destroy_work compiler)
              run_program task tests read.stdout_str)))))
