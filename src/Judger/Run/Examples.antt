-- ===== src/Judger/Run/Examples.antt =====
-- judger.hpp: a program that prints 42, and its test case.
use online_judge.Base.{
  ℕ, ◌≡◌, refl, ◌=t◌, Text-discrete, codes, List, [], ◌∷◌, ◌++◌, true, false, pos,
}
use online_judge.Proto.{JudgeTask, submission_id, accepted, Status-discrete}
use online_judge.Delivery.Consumer.{TestCase}
use online_judge.Judger.Output.{normalize_output, newline}
use online_judge.Judger.Output.Insensitive.{
  normalize_output_blanks, normalize_output_end, normalize_output_twice,
}
use online_judge.Judger.Run.{
  Docker, run, or_error, or_compile_failed, run_program, run_tests, stamped, add_test_result,
  compares_output,
}
use online_judge.Judger.Run.Verdict.{Verdict, run-Verdict}

-- Every container works, and every file holds 42 and a newline; the state counts nothing.
abbrev printer : Docker ℕ
printer = record {
  create = λ w. (codes "c1", w);
  start = λ w. (pos 0, w);
  write_file = λ c path contents w. (pos 0, w);
  read_file = λ c path w. (codes "42 " ++ newline ∷ [], w);
  exec =
      λ c command timeout w. (record { exit_code = pos 0; timed_out = false; stdout_str = [] }, w);
  destroy = λ c w. w;
  acquire = λ w. (true, w);
  was_oom_killed = λ w. false;
  memory_peak_bytes = λ w. 4096;
  elapsed_ms = λ before after. 12;
  awaited = λ timeout r w. r;
  decimal = λ n. codes "1";
  unix_time = λ w. 1700000000;
}

abbrev task : JudgeTask
task = record {
  message_id = codes "m1";
  task_id = submission_id 5;
  user_id = 7;
  question_id = codes "1001";
  code = codes "int main(){}";
  language = codes "cpp17";
  time_limit_ms = 1000;
  memory_limit_mb = 128;
  test_cases = [];
  created_at = pos 1700000000;
}

abbrev tests : List TestCase
tests =
    record {
      test_case_id = 1;
      index = 0;
      input = codes "6 7";
      output = codes "42";
      cpu_limit = 1;
      mem_limit = 128;
    }
    ∷ []

run-Verdict_example : Verdict printer task tests (run printer task tests 0).0
run-Verdict_example = run-Verdict printer task tests 0

normalize_output_blanks_example :
    normalize_output (codes "4" ++ (codes "  " ++ newline ∷ codes "2"))
    ≡ normalize_output (codes "4" ++ newline ∷ codes "2")
normalize_output_blanks_example =
    normalize_output_blanks (codes "4") (codes "  ") (codes "2") (refl, (refl, tt))

normalize_output_end_example :
    normalize_output ((codes "42" ++ codes " ") ++ newline ∷ []) ≡ normalize_output (codes "42")
normalize_output_end_example =
    normalize_output_end (codes "42") (codes " ") (newline ∷ []) (refl, tt) (refl, tt)

normalize_output_twice_example :
    normalize_output (normalize_output (codes "42 ")) ≡ normalize_output (codes "42 ")
normalize_output_twice_example = normalize_output_twice (codes "42 ")

distinguishes : (normalize_output (codes "4 2") =t normalize_output (codes "42")) ≡ false
unfolding normalize_output Text-discrete
distinguishes = refl

accepts : (run printer task tests 0).0.status ≡ accepted
unfolding run or_error or_compile_failed run_program run_tests stamped add_test_result
    normalize_output Text-discrete Status-discrete compares_output
accepts = refl
