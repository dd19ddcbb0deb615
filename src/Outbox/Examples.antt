-- ===== src/Outbox/Examples.antt =====
-- model_submission.hpp, outbox_publisher.cpp: one submission, from its outbox row to its result.
use online_judge.Base.{
  ℕ, Text-discrete, ◌+◌, ◌≤◌, ◌≡◌, refl, Text, codes, List, [], ◌∷◌, none, some, Bool, true, false,
  tally, pos,
}
use online_judge.Proto.{JudgeTask, no_task}
use online_judge.Outbox.{Env, Database, committed, create_submission_with_outbox}
use online_judge.Outbox.Claims.{claim_pending_outbox, update_outbox}
use online_judge.Outbox.Claims.Attempts.{attempts, is_message}
use online_judge.Outbox.History.{
  Operation, creates_submission, claims, looks, marks, Store, run, forgotten,
}
use online_judge.Outbox.Publisher
use online_judge.Outbox.Publisher.{Config, Completion, Offer, Round}
use online_judge.Outbox.Publisher.Settles.{in_flight_of, mark_of, call_of, publish_marks_once}

-- Columns that keep their times, and printers of small things.
abbrev env : Env
env = record {
  stored = λ t. t;
  serialize = λ task. some task.message_id;
  to_json = λ result. some (codes "{}");
}

abbrev empty : Database
empty = record { outbox = λ k. none; submissions = λ n. none; receipts = λ k. none; history = [] }

abbrev task : JudgeTask
task = record {
  message_id = codes "m";
  task_id = no_task;
  user_id = 3;
  question_id = codes "1";
  code = codes "int";
  language = codes "cpp";
  time_limit_ms = 1000;
  memory_limit_mb = 64;
  test_cases = [];
  created_at = pos 0;
}

abbrev creation : Operation
creation = creates_submission 3 (codes "1") (codes "int") (codes "cpp") task 7 0 committed

abbrev claiming : Text → ℕ → Operation
claiming owner now = claims 32 owner 30 5 now (codes "m" ∷ []) committed

-- Handed out to `p`, failed, handed out again, published.
abbrev life : List Operation
life =
    creation
    ∷ claiming (codes "p") 1
    ∷ looks 0 (codes "m")
    ∷ marks 0 (codes "p") false 2 2 committed
    ∷ claiming (codes "p") 3
    ∷ claiming (codes "p") 2000002
    ∷ looks 1 (codes "m")
    ∷ marks 1 (codes "p") true 0 2000003 committed
    ∷ claiming (codes "p") 900000001
    ∷ []

-- `p` reads its row and stops; its lease ends, `q` claims the message; then `p` writes what it read,
-- and the claim of `q` is forgotten.
abbrev stale : List Operation
stale =
    creation
    ∷ claiming (codes "p") 1
    ∷ looks 0 (codes "m")
    ∷ claiming (codes "q") 30000001
    ∷ marks 0 (codes "p") false 2 30000002 committed
    ∷ []

abbrev start : Store
start = record { database = empty; looked = λ n. none }

one_forgotten :
    (forgotten env (codes "m") start stale ≡ 1)
    × (tally (is_message (codes "m")) (run env start stale).1 ≡ 2)
    × (attempts ((run env start stale).0.database.outbox (codes "m")) ≡ 1)
unfolding run forgotten claim_pending_outbox update_outbox create_submission_with_outbox
    Text-discrete
one_forgotten = (refl, refl, refl)

abbrev sent : Database
sent = (run env start (creation ∷ claiming (codes "p") 1 ∷ [])).0.database

abbrev config : Config
config = record { max_retry_delay_seconds = 60; confirm_timeout_seconds = 5 }

abbrev offer : Text → Bool → Offer
offer id ok = record {
  message_id = id;
  attempt_count = 1;
  running = true;
  accepted = ok;
  offered_at = 0;
}

abbrev rounds : List Round
rounds =
    record { ready = []; now = 0; claimed = offer (codes "a") true ∷ offer (codes "b") false ∷ [] }
    ∷ record {
      ready = record { message_id = codes "a"; success = true; drained_at = 9 } ∷ [];
      now = 9;
      claimed = offer (codes "c") true ∷ [];
    }
    ∷ []

publish_marks_once_example :
    let (rest, made, calls) = Publisher.run config [] rounds [] in
    (tally (call_of (codes "a")) calls
      ≡ tally (in_flight_of (codes "a")) rest + tally (mark_of (codes "a")) made)
    × (tally (in_flight_of (codes "a")) rest ≤ 1)
publish_marks_once_example = publish_marks_once config (codes "a") rounds []
