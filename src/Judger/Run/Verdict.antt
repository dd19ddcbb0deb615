-- ===== src/Judger/Run/Verdict.antt =====
-- judger.hpp: what a verdict means, whatever the containers and the event loop answer.
use mathlib.Core.List.{append_assoc, append-nil}
use online_judge.Base.{
  ℕ, ◌%◌, ◌≡◌, ◌≢◌, refl, sym, subst, ◌⊎◌, inl, inr, Text, List, [], ◌∷◌, ◌++◌, Bool, true, false,
  not, codes, ◌&&◌, is_empty, if◌then◌else◌, max, arith, tally, tally-append,
}
use online_judge.Proto.{
  JudgeTask, JudgeResult, TestCaseResult, Status, accepted, compile_error, system_error,
  empty_result,
}
use online_judge.Delivery.Consumer.{TestCase}
use online_judge.Judger.Output.{normalize_output}
use online_judge.Judger.Run.{
  Docker, Io, is_ok, same_status, compares_output, add_test_result, map_status, check_output,
  judge_test, run_tests, error_result, run_program, run, or_error, or_compile_failed, stamped,
  await_io, put_file, runner,
}

-- The first status that is not `accepted`.
abbrev pub overall : List TestCaseResult → Status
overall [] = accepted
overall (one ∷ rest) = if same_status one.status accepted then overall rest else one.status

abbrev pub peak : List TestCaseResult → ℕ
peak [] = 0
peak (one ∷ rest) = max one.memory_used_bytes (peak rest)

abbrev pub total_time : List TestCaseResult → ℕ
total_time = tally (λ one. one.time_used_ms)

-- A test result answers its test case: it repeats its index and texts, and where outputs are
-- compared, `accepted` means that the outputs agree but for layout.
abbrev pub Answers : JudgeTask → List TestCase → List TestCaseResult → Type 0
Answers task [] [] = Unit
Answers task [] (one ∷ ones) = ⊥
Answers task (test ∷ tests) [] = ⊥
Answers task (test ∷ tests) (one ∷ ones) =
    ((one.index ≡ test.index)
      × (one.input ≡ test.input)
      × (one.expected_output ≡ test.output)
      × (one.status ≡ accepted
          → compares_output task ≡ true
          → normalize_output one.actual_output ≡ normalize_output test.output))
    × Answers task tests ones

Answers-snoc :
    (task : JudgeTask) (done : List TestCase) (ones : List TestCaseResult) (test : TestCase)
    (one : TestCaseResult)
    → Answers task done ones
    → Answers task (test ∷ []) (one ∷ [])
    → Answers task (done ++ test ∷ []) (ones ++ one ∷ [])
Answers-snoc task [] [] test one h k = k
Answers-snoc task [] (o ∷ ones) test one h k = absurd h
Answers-snoc task (t ∷ done) [] test one h k = absurd h
Answers-snoc task (t ∷ done) (o ∷ ones) test one h k =
    (h.0, Answers-snoc task done ones test one h.1 k)

overall-snoc :
    (ones : List TestCaseResult) (one : TestCaseResult)
    → overall (ones ++ one ∷ []) ≡ (
        if same_status (overall ones) accepted && not (same_status one.status accepted)
        then one.status
        else overall ones)
overall-snoc [] one = ground arith
overall-snoc (o ∷ ones) one = ground (arith, overall-snoc ones one)

peak-snoc :
    (ones : List TestCaseResult) (one : TestCaseResult)
    → peak (ones ++ one ∷ []) ≡ max (peak ones) one.memory_used_bytes
peak-snoc [] one = omega arith
peak-snoc (o ∷ ones) one = omega (arith, peak-snoc ones one)

-- The result sums up its test results: the first failure, the total time, the highest memory use.
pub record IsSummary (r : JudgeResult) : Type 0 where
  pub verdict : r.status ≡ overall r.test_case_results
  pub time : r.time_used_ms ≡ total_time r.test_case_results % 18446744073709551616
  pub memory : r.memory_used_bytes ≡ peak r.test_case_results

add_test_result-IsSummary :
    (r : JudgeResult) (one : TestCaseResult) → IsSummary r → IsSummary (add_test_result r one)
unfolding add_test_result
add_test_result-IsSummary r one s = record {
  verdict = rw s.verdict (sym (overall-snoc r.test_case_results one));
  time = omega (
    arith,
    s.time,
    tally-append (λ (o : TestCaseResult). o.time_used_ms) r.test_case_results (one ∷ []),
  );
  memory = rw s.memory (sym (peak-snoc r.test_case_results one));
}

module _ {W : Type 0} (docker : Docker W) (task : JudgeTask) where
  judge_test-Answers :
      (test : TestCase) (w : W) → Answers task (test ∷ []) ((judge_test docker task test w).0 ∷ [])
  unfolding judge_test check_output map_status
  judge_test-Answers test w = ground arith

  grown-Answers :
      (done : List TestCase) (r : JudgeResult) (test : TestCase) (one : TestCaseResult) (w : W)
      → Answers task done r.test_case_results
      → Answers task (test ∷ []) (one ∷ [])
      → Answers task (done ++ test ∷ []) (add_test_result r one).test_case_results
  unfolding add_test_result
  grown-Answers done r test one w a b = Answers-snoc task done r.test_case_results test one a b

  -- The loop ended early with a system error, or every test case has its answer.
  abbrev Loop : List TestCase → JudgeResult → Type 0
  Loop tests r = (r.status ≡ system_error) ⊎ (Answers task tests r.test_case_results × IsSummary r)

  guarded :
      (tests : List TestCase) (r : JudgeResult) (b : Bool) (w : W) (further : JudgeResult × W)
      → Loop tests further.0
      → Loop tests (if not b then (record r { status = system_error }, w) else further).0
  guarded tests r true w further h = h
  guarded tests r false w further h = inl refl

  run_tests-Loop :
      (done rest : List TestCase) (r : JudgeResult) (w : W)
      → Answers task done r.test_case_results
      → IsSummary r
      → Loop (done ++ rest) (run_tests docker task rest r w).0
  unfolding run_tests
  run_tests-Loop done [] r w a s = inr (rw append-nil a, s)
  run_tests-Loop done (test ∷ rest) r w a s =
      let (wrote, w₁) =
        await_io docker 6000 (put_file docker runner (codes "/home/judge/input.txt") test.input)
          w in
      let (one, w₂) = judge_test docker task test w₁ in
      let grown = add_test_result r one in
      let further =
        run_tests-Loop (done ++ test ∷ []) rest grown w₂
          (grown-Answers done r test one w₁ a (judge_test-Answers test w₁))
          (add_test_result-IsSummary r one s) in
      guarded (done ++ test ∷ rest) r (is_ok wrote) w₁ (run_tests docker task rest grown w₂) (
        subst (λ l. Loop l (run_tests docker task rest grown w₂).0)
          (append_assoc done (test ∷ []) rest) further)

  -- What the whole run may come to.
  abbrev pub Verdict : List TestCase → JudgeResult → Type 0
  Verdict tests r =
      (r.status ≡ system_error)
      ⊎ ((r.status ≡ compile_error) × (r.test_case_results ≡ []))
      ⊎ ((tests ≢ []) × Answers task tests r.test_case_results × IsSummary r)

  or_error-Verdict :
      (tests : List TestCase) (b : Bool) (m : Io docker JudgeResult) (w : W)
      → Verdict tests (m w).0
      → Verdict tests (or_error docker b m w).0
  unfolding or_error error_result
  or_error-Verdict tests true m w h = h
  or_error-Verdict tests false m w h = inl refl

  or_compile_failed-Verdict :
      (tests : List TestCase) (b : Bool) (m : Io docker JudgeResult) (w : W)
      → Verdict tests (m w).0
      → Verdict tests (or_compile_failed docker b m w).0
  unfolding or_compile_failed
  or_compile_failed-Verdict tests true m w h = h
  or_compile_failed-Verdict tests false m w h = inr (inl (refl, refl))

  stamped-Verdict :
      (tests : List TestCase) (r : JudgeResult) (w : W)
      → Verdict tests r
      → Verdict tests (stamped docker r w).0
  unfolding stamped
  stamped-Verdict tests r w (inl e) = inl e
  stamped-Verdict tests r w (inr (inl e)) = inr (inl e)
  stamped-Verdict tests r w (inr (inr (n, a, s))) =
      inr (inr (n, a, record { verdict = s.verdict; time = s.time; memory = s.memory }))

  -- The loop from its first state.
  all_tests :
      (tests : List TestCase) (w : W)
      → Verdict tests
          (run_tests docker task tests
            (record empty_result { status = if is_empty tests then system_error else accepted })
            w).0
  unfolding run_tests
  all_tests [] w = inl refl
  all_tests (test ∷ tests) w = conclude (run_tests-Loop [] (test ∷ tests) _ w tt first)
    where
      first : IsSummary (record empty_result { status = accepted })
      first = record { verdict = refl; time = refl; memory = refl }

      conclude : {r : JudgeResult} → Loop (test ∷ tests) r → Verdict (test ∷ tests) r
      conclude (inl failed) = inl failed
      conclude (inr (a, s)) = inr (inr ((λ e. cc), a, s))

  run_program-Verdict :
      (tests : List TestCase) (executable : Text) (w : W)
      → Verdict tests (run_program docker task tests executable w).0
  unfolding run_program
  run_program-Verdict tests executable w = or_error-Verdict tests _ _ _ (
      or_error-Verdict tests _ _ _
        (or_error-Verdict tests _ _ _ (stamped-Verdict tests _ _ (all_tests tests _))))

  -- Whatever the containers and the event loop answer, a run ends with a system error, with a
  -- compile error and no test result, or with one result for each of its (one or more) test cases,
  -- where outputs are compared an accepted one's output being the expected one but for layout, the
  -- verdict being the first that is not accepted, the time their sum in 64 bits and the memory their
  -- maximum.
  pub run-Verdict : (tests : List TestCase) (w : W) → Verdict tests (run docker task tests w).0
  unfolding run
  run-Verdict tests w = or_error-Verdict tests _ _ _ (
      or_error-Verdict tests _ _ _ (
        or_error-Verdict tests _ _ _ (
          or_compile_failed-Verdict tests _ _ _
            (or_error-Verdict tests _ _ _ (run_program-Verdict tests _ _)))))
