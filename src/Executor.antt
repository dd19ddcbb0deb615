-- ===== src/Executor.antt =====
-- The bounded thread pool of the business server: src/oj_server/include/runtime/business_executor.hpp
-- and src/oj_server/src/runtime/business_executor.cpp.
--
-- Each lock scope and each group of atomic counter updates between two lock scopes is one atomic
-- action; a history is any sequence of actions of any threads. Times are microseconds of the
-- steady clock, given to each action. The `uint64_t` counters wrap. `lifecycle` says which call
-- holds `lifecycle_mutex_`.
mod Counters
pub mod Invariant
pub mod Order
mod Examples
use online_judge.Base.{
  ℕ, ◌+◌, ◌-◌, ◌%◌, List, [], ◌∷◌, ◌++◌, Option, none, some, Bool, true, false, not, ◌&&◌, ◌||◌,
  ltb, leb, length, is_empty, get_elem?, set, if◌then◌else◌,
}

abbrev pub u64_mod : ℕ
u64_mod = 18446744073709551616

-- `fetch_add` and `fetch_sub` on `std::atomic<std::uint64_t>`.
abbrev pub fetch_add : ℕ → ℕ → ℕ
fetch_add a n = (a + n) % u64_mod

abbrev pub fetch_sub : ℕ → ℕ → ℕ
fetch_sub a n = (a + u64_mod - n) % u64_mod

pub data SubmitResult : Type 0 where
  accepted queue_full stopped : SubmitResult

pub data StopPolicy : Type 0 where
  drain cancel_pending : StopPolicy

pub record Config : Type 0 where
  pub worker_count : ℕ
  pub queue_capacity : ℕ
  pub stop_policy : StopPolicy

pub record QueuedTask (T : Type 0) : Type 0 where
  pub task : T
  pub enqueued_at : ℕ

-- Where a worker thread stands in `WorkerLoop`.
pub data Worker (T : Type 0) : Type 0 where
  waiting : Worker T
  holding : QueuedTask T → Worker T
  running : QueuedTask T → ℕ → Worker T
  exited : Worker T

pub data Lifecycle : Type 0 where
  free : Lifecycle
  starting : Lifecycle
  start_failing : Lifecycle
  joining : Lifecycle

pub record Counts : Type 0 where
  pub active_workers : ℕ
  pub accepted_count : ℕ
  pub rejected_queue_full_count : ℕ
  pub rejected_stopped_count : ℕ
  pub completed_count : ℕ
  pub cancelled_pending_count : ℕ
  pub queue_wait_count : ℕ
  pub queue_wait_total_us : ℕ
  pub queue_wait_max_us : ℕ
  pub execution_count : ℕ
  pub execution_total_us : ℕ
  pub execution_max_us : ℕ

pub record Executor (T : Type 0) : Type 0 where
  pub config : Config
  pub tasks : List (QueuedTask T)
  pub workers : List (Worker T)
  pub started : Bool
  pub stopping : Bool
  pub has_stopped : Bool
  pub active_stop_policy : StopPolicy
  pub lifecycle : Lifecycle
  pub counts : Counts
  pub open counts use *

abbrev pub zero_counts : Counts
zero_counts = record {
  active_workers = 0;
  accepted_count = 0;
  rejected_queue_full_count = 0;
  rejected_stopped_count = 0;
  completed_count = 0;
  cancelled_pending_count = 0;
  queue_wait_count = 0;
  queue_wait_total_us = 0;
  queue_wait_max_us = 0;
  execution_count = 0;
  execution_total_us = 0;
  execution_max_us = 0;
}

abbrev is_cancel : StopPolicy → Bool
is_cancel cancel_pending = true
is_cancel drain = false

-- `UpdateMaximum`: the loop stores `value` unless the maximum has reached it.
abbrev update_maximum : ℕ → ℕ → ℕ
update_maximum maximum value = if ltb maximum value then value else maximum

module _ {T : Type 0} where
  -- The constructor throws on a zero worker count or a zero capacity.
  pub create : Config → Option (Executor T)
  create c =
      if leb c.worker_count 0
      then none
      else if leb c.queue_capacity 0
      then none
      else some (record {
        config = c;
        tasks = [];
        workers = [];
        started = false;
        stopping = false;
        has_stopped = false;
        active_stop_policy = drain;
        lifecycle = free;
        counts = zero_counts;
      })

  -- `IsAccepting`.
  pub is_accepting : Executor T → Bool
  is_accepting e = e.started && not e.stopping && not e.has_stopped

  pub submit : Executor T → T → ℕ → Executor T × SubmitResult
  submit e task now =
      if not e.started || e.stopping || e.has_stopped
      then (
        record e {
          counts = record (e.counts) {
            rejected_stopped_count = fetch_add e.rejected_stopped_count 1;
          };
        },
        stopped,
      )
      else if leb e.config.queue_capacity (length e.tasks)
      then (
        record e {
          counts = record (e.counts) {
            rejected_queue_full_count = fetch_add e.rejected_queue_full_count 1;
          };
        },
        queue_full,
      )
      else (
        record e {
          tasks = e.tasks ++ (record { task = task; enqueued_at = now }) ∷ [];
          counts = record (e.counts) { accepted_count = fetch_add e.accepted_count 1 };
        },
        accepted,
      )

  -- `Start` up to its thread creation: `none` while the loop that creates threads goes on.
  pub start : Executor T → Executor T × Option Bool
  start e =
      if e.started && not e.stopping
      then (e, some true)
      else if e.has_stopped
      then (e, some false)
      else (
        record e {
          started = true;
          stopping = false;
          active_stop_policy = e.config.stop_policy;
          lifecycle = starting;
        },
        none,
      )

  -- One round of the loop of `Start`; the last one gives up the mutex.
  pub spawn : Executor T → Executor T
  spawn e =
      let ws = e.workers ++ waiting ∷ [] in
      record e {
        workers = ws;
        lifecycle = if ltb (length ws) e.config.worker_count then starting else free;
      }

  -- The `catch` of `Start`, up to the join.
  pub spawn_fails : Executor T → Executor T
  spawn_fails e = record e {
    stopping = true;
    active_stop_policy = cancel_pending;
    lifecycle = start_failing;
  }

  -- `Stop` up to the join: `true` if it returned at once.
  pub stop : Executor T → StopPolicy → Executor T × Bool
  stop e policy =
      if e.has_stopped
      then (e, true)
      else if not e.started
      then (record e { has_stopped = true }, true)
      else if is_cancel policy
      then (
        record e {
          stopping = true;
          active_stop_policy = policy;
          tasks = [];
          counts = record (e.counts) {
            cancelled_pending_count = fetch_add e.cancelled_pending_count (length e.tasks);
          };
          lifecycle = joining;
        },
        false,
      )
      else (record e { stopping = true; active_stop_policy = policy; lifecycle = joining }, false)

  -- What `Start` (when thread creation failed) and `Stop` do after the join.
  pub joined : Executor T → Executor T
  joined e = record e { workers = []; started = false; has_stopped = true; lifecycle = free }

  -- One pass through the lock scope of `WorkerLoop` by a worker that waits there: it goes on
  -- waiting, returns, or takes the front of the queue.
  wait_turn : Executor T → ℕ → Executor T
  wait_turn e i =
      if e.stopping && (is_cancel e.active_stop_policy || is_empty e.tasks)
      then record e { workers = set e.workers i exited }
      else elim e.tasks [
        | [] ↦ e
        | queued ∷ rest ↦ record e { tasks = rest; workers = set e.workers i (holding queued) }
      ]

  -- From the end of the lock scope to the call of the task.
  begin_task : Executor T → ℕ → QueuedTask T → ℕ → Executor T
  begin_task e i queued now =
      let queue_wait_us = (now - queued.enqueued_at) % u64_mod in
      record e {
        workers = set e.workers i (running queued now);
        counts = record (e.counts) {
          queue_wait_count = fetch_add e.queue_wait_count 1;
          queue_wait_total_us = fetch_add e.queue_wait_total_us queue_wait_us;
          queue_wait_max_us = update_maximum e.queue_wait_max_us queue_wait_us;
          active_workers = fetch_add e.active_workers 1;
        };
      }

  -- From the task's return, or the exception that the worker swallows, to the next round.
  finish_task : Executor T → ℕ → ℕ → ℕ → Executor T
  finish_task e i started_at now =
      let execution_us = (now - started_at) % u64_mod in
      record e {
        workers = set e.workers i waiting;
        counts = record (e.counts) {
          execution_count = fetch_add e.execution_count 1;
          execution_total_us = fetch_add e.execution_total_us execution_us;
          execution_max_us = update_maximum e.execution_max_us execution_us;
          completed_count = fetch_add e.completed_count 1;
          active_workers = fetch_sub e.active_workers 1;
        };
      }

  -- What worker `i` does next in `WorkerLoop`.
  pub worker_step : Executor T → ℕ → ℕ → Executor T
  unfolding wait_turn begin_task finish_task
  worker_step e i now = elim (get_elem? e.workers i) [
    | none ↦ e
    | some w ↦ elim w [
      | waiting ↦ wait_turn e i
      | holding queued ↦ begin_task e i queued now
      | running queued started_at ↦ finish_task e i started_at now
      | exited ↦ e
    ]
  ]

  -- Every worker has returned from `WorkerLoop`, so that `join` returns.
  pub all_exited : List (Worker T) → Bool
  all_exited [] = true
  all_exited (exited ∷ ws) = all_exited ws
  all_exited (w ∷ ws) = false

pub data Action (T : Type 0) : Type 0 where
  submits : T → ℕ → Action T
  starts : Action T
  spawns : Action T
  spawning_fails : Action T
  stops : StopPolicy → Action T
  joins : Action T
  works : ℕ → ℕ → Action T

module _ {T : Type 0} where
  -- `Start` and `Stop` wait for the lifecycle mutex; their later parts follow their first part.
  on_lifecycle : Lifecycle → Executor T → Action T → Executor T
  unfolding start spawn spawn_fails stop joined
  on_lifecycle l e (submits task now) = e
  on_lifecycle l e (works i now) = e
  on_lifecycle free e starts = (start e).0
  on_lifecycle free e (stops policy) = (stop e policy).0
  on_lifecycle starting e spawns = spawn e
  on_lifecycle starting e spawning_fails = spawn_fails e
  on_lifecycle start_failing e joins = if all_exited e.workers then joined e else e
  on_lifecycle joining e joins = if all_exited e.workers then joined e else e
  on_lifecycle l e a = e

  pub step : Executor T → Action T → Executor T
  unfolding on_lifecycle submit worker_step
  step e (submits task now) = (submit e task now).0
  step e (works i now) = worker_step e i now
  step e a = on_lifecycle e.lifecycle e a

  pub run : Executor T → List (Action T) → Executor T
  run e [] = e
  run e (a ∷ rest) = run (step e a) rest
