-- ===== src/Delivery/Examples.antt =====
-- mq_consumer.hpp: one valid task, delivered for the first time.
use online_judge.Base.{ℕ, ◌+◌, ◌≤◌, ◌≡◌, ◌≢◌, ◌⊎◌, codes, [], ◌∷◌, none, some, true, pos}
use online_judge.Proto.{JudgeTask, submission_id, empty_result}
use online_judge.Inbox.Calls.{Redis, up, complete, done, mismatch}
use online_judge.Delivery.{ack, reject, retry}
use online_judge.Delivery.Consumer.{
  World, Pushed, acks, dead_letters, retries, handle_message, on_completion, u32,
}
use online_judge.Delivery.Consumer.Settling.{Settles, handle_message-Settles, on_completion_ends}

abbrev task : JudgeTask
task = record {
  message_id = codes "m1";
  task_id = submission_id 5;
  user_id = 7;
  question_id = codes "1001";
  code = codes "int main(){}";
  language = codes "cpp17";
  time_limit_ms = 1000;
  memory_limit_mb = 128;
  test_cases = record { test_case_id = 1; index = 0; input = []; expected_output = codes "1" } ∷ [];
  created_at = pos 1700000000;
}

abbrev world : World
world = record {
  parse_task = λ body. some task;
  parse_result = λ payload. some empty_result;
  serialize_result = λ r. some (codes "r");
  sha256 = λ body. 1 ∷ 2 ∷ [];
  report = λ t r. record { decision = ack; retry_after_ms = 0 };
  inbox = record {
    key_prefix = codes "p:";
    completed_ttl_ms = 1000;
    processing_retention_ms = 60000;
    connected = true;
  };
  owner = codes "a";
  claim_link = up;
  claim_time = 10;
  complete_link = up;
  complete_time = 500;
  unix_time = 1700000001;
  starts = true;
}

abbrev empty_redis : Redis
empty_redis k = none

handle_message-Settles_example :
    Settles world empty_redis (codes "body") 0 (handle_message world empty_redis (codes "body") 0)
handle_message-Settles_example = handle_message-Settles world empty_redis (codes "body") 0

abbrev pushed : Pushed
pushed = record {
  task = task;
  tests = [];
  timeout_ms = 22000;
  fingerprint = codes "0102";
  claim_token = codes "a";
}

on_completion_ends_example :
    let e = (on_completion world empty_redis pushed empty_result 0).0 in
    let stored =
      (complete world.inbox world.complete_link world.complete_time empty_redis
        pushed.task.message_id pushed.fingerprint pushed.claim_token
        (world.serialize_result empty_result)).0 in
    let verdict = (world.report pushed.task empty_result).decision in
    ((e ≡ acks) × (stored ≡ done) × (verdict ≡ ack))
    ⊎ ((e ≡ dead_letters 0) × ((stored ≡ mismatch) ⊎ ((stored ≡ done) × (verdict ≡ reject))))
    ⊎ ((ms : ℕ) × (e ≡ retries ms (u32 (0 + 1)))
        × (3 ≤ 0 → 30000 ≤ ms)
        × (stored ≢ mismatch)
        × ((stored ≡ done) → verdict ≡ retry))
on_completion_ends_example = on_completion_ends world empty_redis pushed empty_result 0
