-- ===== src/Executor/Counters.antt =====
-- business_executor.cpp: how many workers hold a task, run one, or have returned, and what one
-- round of `WorkerLoop` does to these numbers.
use online_judge.Base.{ℕ, ◌≡◌, refl, List, [], ◌∷◌, true, arith, length, tally}
use online_judge.Executor.{Worker, waiting, holding, running, exited, all_exited}

module _ {T : Type 0} where
  -- 1 for a worker that has taken a task and not yet finished it.
  abbrev pub in_hand : Worker T → ℕ
  in_hand waiting = 0
  in_hand (holding q) = 1
  in_hand (running q t) = 1
  in_hand exited = 0

  -- 1 for a worker inside its task.
  abbrev pub is_running : Worker T → ℕ
  is_running waiting = 0
  is_running (holding q) = 0
  is_running (running q t) = 1
  is_running exited = 0

  -- 1 for a worker that has returned.
  abbrev pub has_exited : Worker T → ℕ
  has_exited waiting = 0
  has_exited (holding q) = 0
  has_exited (running q t) = 0
  has_exited exited = 1

  pub all_exited-in_hand : (ws : List (Worker T)) → all_exited ws ≡ true → tally in_hand ws ≡ 0
  unfolding all_exited
  all_exited-in_hand [] h = refl
  all_exited-in_hand (waiting ∷ ws) h = cc
  all_exited-in_hand (holding q ∷ ws) h = cc
  all_exited-in_hand (running q t ∷ ws) h = cc
  all_exited-in_hand (exited ∷ ws) h = omega (arith, all_exited-in_hand ws h)

  pub all_exited-has_exited :
      (ws : List (Worker T)) → all_exited ws ≡ true → tally has_exited ws ≡ length ws
  unfolding all_exited
  all_exited-has_exited [] h = refl
  all_exited-has_exited (waiting ∷ ws) h = cc
  all_exited-has_exited (holding q ∷ ws) h = cc
  all_exited-has_exited (running q t ∷ ws) h = cc
  all_exited-has_exited (exited ∷ ws) h = omega (arith, all_exited-has_exited ws h)

  pub all_exited-is_running :
      (ws : List (Worker T)) → all_exited ws ≡ true → tally is_running ws ≡ 0
  unfolding all_exited
  all_exited-is_running [] h = refl
  all_exited-is_running (waiting ∷ ws) h = cc
  all_exited-is_running (holding q ∷ ws) h = cc
  all_exited-is_running (running q t ∷ ws) h = cc
  all_exited-is_running (exited ∷ ws) h = omega (arith, all_exited-is_running ws h)
