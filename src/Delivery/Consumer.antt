-- ===== src/Delivery/Consumer.antt =====
-- mq_consumer.hpp: `JudgeConsumer::HandleMessage`, the completion callback that it hands to the
-- event loop, and the ends of a delivery. The broker's calls are taken not to throw.

pub mod Settling
use online_judge.Base.{
  ℕ, ◌+◌, ◌-◌, ◌*◌, ◌%◌, ◌^◌, ◌/◌, Text, codes, List, [], ◌∷◌, Option, none, some, Bool, true,
  false, not, ◌&&◌, ◌||◌, ltb, leb, is_empty, length, map, if◌then◌else◌, min, max,
}
use online_judge.Proto.{JudgeTask, TestCaseInput, JudgeResult, Status, system_error, empty_result}
use online_judge.Inbox.Calls.{
  Inbox, Redis, Link, Claimed, ClaimResult, CompleteResult, started, processing, completed,
  conflict, error, done, not_owner, mismatch, failed, claim, complete, payload_fingerprint,
}
use online_judge.Delivery.{
  ReportResult, ReportDecision, DeliveryAction, ack_delivery, retry_delivery, dead_letter, ack,
  retry, reject, resolve_delivery_action, valid_judge_task, has_task_id,
}

-- What is done with the delivery at the broker.
pub data Effect : Type 0 where
  acks : Effect
  retries : (after_ms retry_count : ℕ) → Effect
  dead_letters : (retry_count : ℕ) → Effect

-- `TestCase` of judger.hpp, as the consumer fills it.
pub record TestCase : Type 0 where
  pub test_case_id : ℕ
  pub index : ℕ
  pub input : Text
  pub output : Text
  pub cpu_limit : ℕ
  pub mem_limit : ℕ

-- A coroutine that was given to the event loop.
pub record Pushed : Type 0 where
  pub task : JudgeTask
  pub tests : List TestCase
  pub timeout_ms : ℕ
  pub fingerprint : Text
  pub claim_token : Text

-- What the outside gives to one call: the libraries, the reporter, and the two trips to Redis with
-- their times and the token that the generator drew.
pub record World : Type 0 where
  pub parse_task : Text → Option JudgeTask
  pub parse_result : Text → Option JudgeResult
  pub serialize_result : JudgeResult → Option Text
  pub sha256 : Text → List ℕ
  pub report : JudgeTask → JudgeResult → ReportResult
  pub inbox : Inbox
  pub owner : Text
  pub claim_link : Link
  pub claim_time : ℕ
  pub complete_link : Link
  pub complete_time : ℕ
  pub unix_time : ℕ
  -- Whether the event loop takes the coroutine: `PushNewTask` gives a name, not an empty string.
  pub starts : Bool

abbrev pub u32 : ℕ → ℕ
u32 n = n % 4294967296

-- `RetryOrDeadLetter`.
pub retry_or_dead_letter : ℕ → ℕ → Effect
retry_or_dead_letter retry_count retry_after_ms = elim (resolve_delivery_action retry retry_count) [
  | dead_letter ↦ retries (max retry_after_ms 30000) (u32 (retry_count + 1))
  | _ ↦ retries retry_after_ms (u32 (retry_count + 1))
]

finish_by : ReportResult → ℕ → DeliveryAction → ReportDecision → Effect
unfolding retry_or_dead_letter resolve_delivery_action
finish_by reported retry_count ack_delivery d = acks
finish_by reported retry_count dead_letter reject = dead_letters retry_count
finish_by reported retry_count a d = retry_or_dead_letter retry_count reported.retry_after_ms

-- `FinishDelivery`.
pub finish_delivery : World → JudgeTask → JudgeResult → ℕ → Effect
unfolding finish_by
finish_delivery w request result retry_count =
    let reported = w.report request result in
    finish_by reported retry_count (resolve_delivery_action reported.decision retry_count)
      reported.decision

abbrev after_complete : World → JudgeTask → JudgeResult → ℕ → CompleteResult → Effect
after_complete w request result retry_count done = finish_delivery w request result retry_count
after_complete w request result retry_count mismatch = dead_letters retry_count
after_complete w request result retry_count not_owner = retry_or_dead_letter retry_count 1000
after_complete w request result retry_count failed = retry_or_dead_letter retry_count 1000

-- The completion callback that `HandleMessage` gives to `PushNewTask`.
pub on_completion : World → Redis → Pushed → JudgeResult → ℕ → Effect × Redis
unfolding finish_delivery retry_or_dead_letter
on_completion w redis pushed result retry_count =
    let (outcome, redis') =
      complete w.inbox w.complete_link w.complete_time redis pushed.task.message_id
        pushed.fingerprint pushed.claim_token (w.serialize_result result) in
    (after_complete w pushed.task result retry_count outcome, redis')

-- `int64_t calculated_timeout`.
abbrev pub calculated_timeout : JudgeTask → ℕ
calculated_timeout request = 15000 + length request.test_cases * (request.time_limit_ms + 6000)

abbrev pub lease_of : JudgeTask → ℕ
lease_of request = min (calculated_timeout request + 30000) 3600000

abbrev to_test_case : JudgeTask → TestCaseInput → TestCase
to_test_case request item = record {
  test_case_id = item.test_case_id;
  index = item.index;
  input = item.input;
  output = item.expected_output;
  cpu_limit = max 1 (request.time_limit_ms / 1000);
  mem_limit = max 1 request.memory_limit_mb;
}

-- What `HandleMessage` leaves behind: at most one effect, the state of Redis, and the coroutine.
pub record Handled : Type 0 where
  pub effects : List Effect
  pub redis : Redis
  pub pushed : Option Pushed

abbrev settle : Effect → Redis → Handled
settle e r = record { effects = e ∷ []; redis = r; pushed = none }

-- The result that the consumer makes up for a malformed task.
abbrev malformed_result : ℕ → JudgeResult
malformed_result unix_time = record empty_result {
  status = system_error;
  compile_error_text = codes "invalid judge task payload";
  completed_at = unix_time;
}

abbrev malformed_started : World → JudgeTask → ℕ → CompleteResult × Redis → Handled
malformed_started w request retry_count (done, r) =
    settle (finish_delivery w request (malformed_result w.unix_time) retry_count) r
malformed_started w request retry_count (not_owner, r) =
    settle (retry_or_dead_letter retry_count 1000) r
malformed_started w request retry_count (mismatch, r) =
    settle (retry_or_dead_letter retry_count 1000) r
malformed_started w request retry_count (failed, r) =
    settle (retry_or_dead_letter retry_count 1000) r

finish_existing : World → JudgeTask → ℕ → Option JudgeResult → Redis → Handled
finish_existing w request retry_count none r =
    settle (finish_delivery w request empty_result retry_count) r
finish_existing w request retry_count (some result) r =
    settle (finish_delivery w request result retry_count) r

malformed_claimed :
    World → JudgeTask → Text → ℕ → ClaimResult → Claimed JudgeResult → Redis → Handled
unfolding finish_existing finish_delivery retry_or_dead_letter
malformed_claimed w request fingerprint retry_count completed c r =
    finish_existing w request retry_count c.existing r
malformed_claimed w request fingerprint retry_count processing c r =
    settle (retry_or_dead_letter retry_count c.retry_after_ms) r
malformed_claimed w request fingerprint retry_count conflict c r =
    settle (dead_letters retry_count) r
malformed_claimed w request fingerprint retry_count error c r =
    settle (retry_or_dead_letter retry_count 1000) r
malformed_claimed w request fingerprint retry_count started c r =
    malformed_started w request retry_count (
      complete w.inbox w.complete_link w.complete_time r request.message_id fingerprint
        c.claim_token (w.serialize_result (malformed_result w.unix_time)))

-- The branch for a payload that does not parse or is not a valid task.
handle_malformed : World → Redis → Text → ℕ → Option JudgeTask → Handled
unfolding malformed_claimed
handle_malformed w redis fingerprint retry_count none = settle (dead_letters retry_count) redis
handle_malformed w redis fingerprint retry_count (some request) =
    if not (is_empty request.message_id)
      && leb (length request.message_id) 256
      && has_task_id request.task_id
    then (let (c, r) =
          claim w.parse_result w.inbox w.claim_link w.owner w.claim_time redis request.message_id
            fingerprint 60000 in
        malformed_claimed w request fingerprint retry_count c.outcome c r)
    else settle (dead_letters retry_count) redis

-- The coroutine that is made for a task.
abbrev pub new_task : JudgeTask → (fingerprint claim_token : Text) → Pushed
new_task request fingerprint claim_token = record {
  task = request;
  tests = map (to_test_case request) request.test_cases;
  timeout_ms = min (calculated_timeout request) 3600000;
  fingerprint = fingerprint;
  claim_token = claim_token;
}

valid_claimed : World → JudgeTask → Text → ℕ → ClaimResult → Claimed JudgeResult → Redis → Handled
unfolding finish_existing finish_delivery retry_or_dead_letter
valid_claimed w request fingerprint retry_count completed c r =
    finish_existing w request retry_count c.existing r
valid_claimed w request fingerprint retry_count processing c r =
    settle (retry_or_dead_letter retry_count c.retry_after_ms) r
valid_claimed w request fingerprint retry_count conflict c r = settle (dead_letters retry_count) r
valid_claimed w request fingerprint retry_count error c r =
    settle (retry_or_dead_letter retry_count 1000) r
valid_claimed w request fingerprint retry_count started c r = record {
  effects = [];
  redis = r;
  pushed = if w.starts then some (new_task request fingerprint c.claim_token) else none;
}

-- The branch for a valid task.
handle_valid : World → Redis → Text → ℕ → JudgeTask → Handled
unfolding valid_claimed
handle_valid w redis fingerprint retry_count request =
    let (c, r) =
      claim w.parse_result w.inbox w.claim_link w.owner w.claim_time redis request.message_id
        fingerprint (lease_of request) in
    valid_claimed w request fingerprint retry_count c.outcome c r

abbrev acceptable : JudgeTask → Bool
acceptable request = leb (length request.message_id) 256 && valid_judge_task request

handle_parsed : World → Redis → Text → ℕ → Option JudgeTask → Handled
unfolding handle_valid handle_malformed
handle_parsed w redis fingerprint retry_count none =
    handle_malformed w redis fingerprint retry_count none
handle_parsed w redis fingerprint retry_count (some request) =
    if acceptable request
    then handle_valid w redis fingerprint retry_count request
    else handle_malformed w redis fingerprint retry_count (some request)

-- `HandleMessage`.
pub handle_message : World → Redis → Text → ℕ → Handled
unfolding handle_parsed
handle_message w redis body retry_count =
    handle_parsed w redis (payload_fingerprint w.sha256 body) retry_count (w.parse_task body)
