-- ===== src/Executor/Examples.antt =====
-- business_executor.cpp: one worker and room for two tasks, driven through a life.
use online_judge.Base.{
  ℕ, ◌+◌, ◌%◌, ◌≤◌, ◌<◌, ◌⊎◌, ◌≡◌, refl, List, [], ◌∷◌, ◌++◌, some, true, false, length, tally,
}
use online_judge.Executor.{
  Executor, Config, QueuedTask, Action, zero_counts, u64_mod, drain, free, waiting, starts, spawns,
  submits, works, stops, joins, create, run, step, all_exited, queue_full, submit, accepted,
  stopped, is_accepting, fetch_add,
}
use online_judge.Executor.Counters.{in_hand, is_running}
use online_judge.Executor.Invariant.{run-accounts, stop_settles}
use online_judge.Executor.Order.{all_arrivals, run_fifo, submit_branches}

abbrev small : Config
small = record { worker_count = 1; queue_capacity = 2; stop_policy = drain }

abbrev idle : Executor ℕ
idle = record {
  config = small;
  tasks = [];
  workers = [];
  started = false;
  stopping = false;
  has_stopped = false;
  active_stop_policy = drain;
  lifecycle = free;
  counts = zero_counts;
}

created : create small ≡ some idle
unfolding create
created = refl

abbrev loaded : List (Action ℕ)
loaded = starts ∷ spawns ∷ submits 7 0 ∷ submits 8 1 ∷ submits 9 2 ∷ []

abbrev drained : List (Action ℕ)
drained =
    starts
    ∷ spawns
    ∷ submits 7 0
    ∷ works 0 5
    ∷ stops drain
    ∷ works 0 6
    ∷ works 0 9
    ∷ works 0 10
    ∷ []

overflows : (submit (run idle loaded) 10 3).1 ≡ queue_full
unfolding run step submit
overflows = refl

run-accounts_example :
    let r = run idle loaded in
    (length r.tasks ≤ r.config.queue_capacity)
    × (length r.workers ≤ r.config.worker_count)
    × (r.accepted_count
        ≡ (r.completed_count + r.cancelled_pending_count + length r.tasks + tally in_hand r.workers)
          % u64_mod)
    × (r.active_workers ≡ tally is_running r.workers % u64_mod)
run-accounts_example = run-accounts small idle loaded created

stop_settles_example :
    let r = step (run idle drained) joins in
    (r.tasks ≡ [])
    × (r.has_stopped ≡ true)
    × (r.started ≡ false)
    × (r.workers ≡ [])
    × (r.accepted_count ≡ (r.completed_count + r.cancelled_pending_count) % u64_mod)
unfolding run step all_exited
stop_settles_example = stop_settles small idle drained created refl refl

run_fifo_example :
    (gone : List (QueuedTask ℕ)) × ([] ++ all_arrivals idle loaded
      ≡ gone ++ (run idle loaded).tasks)
run_fifo_example = run_fifo idle loaded

abbrev ready : Executor ℕ
ready = record idle {
  tasks = record { task = 7; enqueued_at = 0 } ∷ [];
  workers = waiting ∷ [];
  started = true;
}

submit_branches_example :
    let (e', r) = submit ready 8 6 in
    ((is_accepting ready ≡ false)
      × (r ≡ stopped)
      × (e'.tasks ≡ ready.tasks)
      × (e'.rejected_stopped_count ≡ fetch_add ready.rejected_stopped_count 1))
    ⊎ ((is_accepting ready ≡ true)
        × (ready.config.queue_capacity ≤ length ready.tasks)
        × (r ≡ queue_full)
        × (e'.tasks ≡ ready.tasks)
        × (e'.rejected_queue_full_count ≡ fetch_add ready.rejected_queue_full_count 1))
    ⊎ ((is_accepting ready ≡ true)
        × (length ready.tasks < ready.config.queue_capacity)
        × (r ≡ accepted)
        × (e'.tasks ≡ ready.tasks ++ record { task = 8; enqueued_at = 6 } ∷ [])
        × (e'.accepted_count ≡ fetch_add ready.accepted_count 1))
submit_branches_example = submit_branches ready 8 6
