-- ===== src/Executor/Invariant.antt =====
-- business_executor.cpp: what holds of the executor between any two actions of its threads.
use online_judge.Base.{
  ℕ, ◌+◌, ◌%◌, ◌≤◌, ◌<◌, ◌≡◌, refl, ◌⊎◌, inl, inr, List, [], ◌∷◌, some, true, false, arith, length,
  get_elem?, tally, tally-set, tally-append, length-set, length-append, Option-cases, Bool-cases,
  if◌then◌else◌,
}
use online_judge.Executor.{
  Executor, Config, Lifecycle, StopPolicy, Worker, QueuedTask, Action, u64_mod, drain,
  cancel_pending, free, starting, start_failing, joining, waiting, holding, running, exited,
  submits, starts, spawns, spawning_fails, stops, joins, works, submit, start, spawn, spawn_fails,
  stop, joined, wait_turn, begin_task, finish_task, worker_step, on_lifecycle, step, run, create,
  all_exited,
}
use online_judge.Executor.Counters.{
  in_hand, is_running, has_exited, all_exited-in_hand, all_exited-is_running, all_exited-has_exited,
}

module _ {T : Type 0} where
  pub record IsSound (e : Executor T) : Type 0 where
    pub has_workers : 0 < e.config.worker_count
    pub bounded : length e.tasks ≤ e.config.queue_capacity
    pub pool_bounded : length e.workers ≤ e.config.worker_count
    pub conserved :
        e.accepted_count
        ≡ (e.completed_count + e.cancelled_pending_count + length e.tasks + tally in_hand e.workers)
          % u64_mod
    pub active_exact : e.active_workers ≡ tally is_running e.workers % u64_mod
    pub when_free :
        e.lifecycle ≡ free
        → ((e.started ≡ false) × (e.workers ≡ []))
          ⊎ ((e.started ≡ true)
              × (e.stopping ≡ false)
              × (e.has_stopped ≡ false)
              × (length e.workers ≡ e.config.worker_count))
    pub when_starting :
        e.lifecycle ≡ starting
        → (e.started ≡ true)
          × (e.stopping ≡ false)
          × (e.has_stopped ≡ false)
          × (length e.workers < e.config.worker_count)
    pub when_failing :
        e.lifecycle ≡ start_failing
        → (e.started ≡ true) × (e.stopping ≡ true) × (e.active_stop_policy ≡ cancel_pending)
    pub when_joining :
        e.lifecycle ≡ joining
        → (e.started ≡ true)
          × (e.stopping ≡ true)
          × (length e.workers ≡ e.config.worker_count)
          × ((e.active_stop_policy ≡ drain) ⊎ (e.tasks ≡ []))
    pub exits :
        (tally has_exited e.workers ≡ 0)
        ⊎ ((e.stopping ≡ true) × ((e.active_stop_policy ≡ cancel_pending) ⊎ (e.tasks ≡ [])))

  create-IsSound : (c : Config) (e : Executor T) → create c ≡ some e → IsSound e
  unfolding create
  create-IsSound c e h = ground arith

  submit-IsSound : (e : Executor T) (task : T) (now : ℕ) → IsSound e → IsSound (submit e task now).0
  unfolding submit
  submit-IsSound e task now s =
      ground (arith, length-append e.tasks (record { task = task; enqueued_at = now } ∷ []))

  wait_turn-IsSound :
      (e : Executor T) (i : ℕ) (ts : List (QueuedTask T))
      → e.tasks ≡ ts
      → get_elem? e.workers i ≡ some waiting
      → IsSound e
      → IsSound (wait_turn e i)
  unfolding wait_turn
  wait_turn-IsSound e i [] o h s = ground (
    arith,
    tally-set in_hand e.workers i exited h,
    tally-set is_running e.workers i exited h,
    tally-set has_exited e.workers i exited h,
    length-set e.workers i exited,
  )
  wait_turn-IsSound e i (q ∷ rest) o h s = ground (
    arith,
    tally-set in_hand e.workers i exited h,
    tally-set is_running e.workers i exited h,
    tally-set has_exited e.workers i exited h,
    length-set e.workers i exited,
    tally-set in_hand e.workers i (holding q) h,
    tally-set is_running e.workers i (holding q) h,
    tally-set has_exited e.workers i (holding q) h,
    length-set e.workers i (holding q),
  )

  begin_task-IsSound :
      (e : Executor T) (i : ℕ) (q : QueuedTask T) (now : ℕ)
      → get_elem? e.workers i ≡ some (holding q)
      → IsSound e
      → IsSound (begin_task e i q now)
  unfolding begin_task
  begin_task-IsSound e i q now h s = ground (
    arith,
    tally-set in_hand e.workers i (running q now) h,
    tally-set is_running e.workers i (running q now) h,
    tally-set has_exited e.workers i (running q now) h,
    length-set e.workers i (running q now),
  )

  finish_task-IsSound :
      (e : Executor T) (i : ℕ) (q : QueuedTask T) (t now : ℕ)
      → get_elem? e.workers i ≡ some (running q t)
      → IsSound e
      → IsSound (finish_task e i t now)
  unfolding finish_task
  finish_task-IsSound e i q t now h s = ground (
    arith,
    tally-set in_hand e.workers i waiting h,
    tally-set is_running e.workers i waiting h,
    tally-set has_exited e.workers i waiting h,
    length-set e.workers i waiting,
  )

  start-IsSound : (e : Executor T) → e.lifecycle ≡ free → IsSound e → IsSound (start e).0
  unfolding start
  start-IsSound e l s = ground arith

  spawn-IsSound : (e : Executor T) → e.lifecycle ≡ starting → IsSound e → IsSound (spawn e)
  unfolding spawn
  spawn-IsSound e l s = ground (
    arith,
    tally-append in_hand e.workers (waiting ∷ []),
    tally-append is_running e.workers (waiting ∷ []),
    tally-append has_exited e.workers (waiting ∷ []),
    length-append e.workers (waiting ∷ []),
  )

  spawn_fails-IsSound :
      (e : Executor T) → e.lifecycle ≡ starting → IsSound e → IsSound (spawn_fails e)
  unfolding spawn_fails
  spawn_fails-IsSound e l s = ground arith

  stop-IsSound :
      (e : Executor T) (policy : StopPolicy)
      → e.lifecycle ≡ free
      → IsSound e
      → IsSound (stop e policy).0
  unfolding stop
  stop-IsSound e policy l s = ground arith

  joined-IsSound : (e : Executor T) → all_exited e.workers ≡ true → IsSound e → IsSound (joined e)
  unfolding joined
  joined-IsSound e x s =
      ground (arith, all_exited-in_hand e.workers x, all_exited-is_running e.workers x)

  worker_turn-IsSound :
      (e : Executor T) (i now : ℕ) (w : Worker T)
      → get_elem? e.workers i ≡ some w
      → IsSound e
      → IsSound (worker_step e i now)
  unfolding worker_step
  worker_turn-IsSound e i now waiting h s =
      rw (h, worker_step) (wait_turn-IsSound e i e.tasks refl h s)
  worker_turn-IsSound e i now (holding q) h s =
      rw (h, worker_step) (begin_task-IsSound e i q now h s)
  worker_turn-IsSound e i now (running q t) h s =
      rw (h, worker_step) (finish_task-IsSound e i q t now h s)
  worker_turn-IsSound e i now exited h s = rw (h, worker_step) s

  worker_step-IsSound : (e : Executor T) (i now : ℕ) → IsSound e → IsSound (worker_step e i now)
  unfolding worker_step
  worker_step-IsSound e i now s = elim (Option-cases (get_elem? e.workers i)) [
    | inl missing ↦ rw (missing, worker_step) s
    | inr (w, found) ↦ worker_turn-IsSound e i now w found s
  ]

  joins-IsSound :
      (e : Executor T) → IsSound e → IsSound (if all_exited e.workers then joined e else e)
  joins-IsSound e s = elim (Bool-cases (all_exited e.workers)) [
    | inl done ↦ rw done (joined-IsSound e done s)
    | inr waits ↦ rw waits s
  ]

  on_lifecycle-IsSound :
      (l : Lifecycle) (e : Executor T) (a : Action T)
      → e.lifecycle ≡ l
      → IsSound e
      → IsSound (on_lifecycle l e a)
  unfolding on_lifecycle
  on_lifecycle-IsSound free e starts l s = start-IsSound e l s
  on_lifecycle-IsSound free e (stops policy) l s = stop-IsSound e policy l s
  on_lifecycle-IsSound starting e spawns l s = spawn-IsSound e l s
  on_lifecycle-IsSound starting e spawning_fails l s = spawn_fails-IsSound e l s
  on_lifecycle-IsSound start_failing e joins l s = joins-IsSound e s
  on_lifecycle-IsSound joining e joins l s = joins-IsSound e s
  on_lifecycle-IsSound _ e _ l s = s

  step-IsSound : (e : Executor T) (a : Action T) → IsSound e → IsSound (step e a)
  unfolding step
  step-IsSound e (submits task now) s = submit-IsSound e task now s
  step-IsSound e (works i now) s = worker_step-IsSound e i now s
  step-IsSound e starts s = on_lifecycle-IsSound e.lifecycle e starts refl s
  step-IsSound e spawns s = on_lifecycle-IsSound e.lifecycle e spawns refl s
  step-IsSound e spawning_fails s = on_lifecycle-IsSound e.lifecycle e spawning_fails refl s
  step-IsSound e (stops policy) s = on_lifecycle-IsSound e.lifecycle e (stops policy) refl s
  step-IsSound e joins s = on_lifecycle-IsSound e.lifecycle e joins refl s

  pub run-IsSound :
      (e : Executor T) (history : List (Action T)) → IsSound e → IsSound (run e history)
  unfolding run
  run-IsSound e [] s = s
  run-IsSound e (a ∷ rest) s = run-IsSound (step e a) rest (step-IsSound e a s)

  settles :
      (e : Executor T)
      → IsSound e
      → e.lifecycle ≡ joining
      → all_exited e.workers ≡ true
      → let r = step e joins in
        (r.tasks ≡ [])
        × (r.has_stopped ≡ true)
        × (r.started ≡ false)
        × (r.workers ≡ [])
        × (r.accepted_count ≡ (r.completed_count + r.cancelled_pending_count) % u64_mod)
  unfolding step on_lifecycle joined
  settles e s l x =
      ground (arith, all_exited-in_hand e.workers x, all_exited-has_exited e.workers x)

  -- From construction, any sequence of calls and of worker rounds, by any threads in any order,
  -- leaves an executor whose queue is within its capacity and whose threads are within the worker
  -- count, in which every accepted task is completed, cancelled, queued or in the hands of one
  -- worker (counted as the 64-bit counters count), and in which `active_workers` is the number of
  -- workers inside a task.
  pub run-accounts :
      (c : Config) (e : Executor T) (history : List (Action T))
      → create c ≡ some e
      → let r = run e history in
        (length r.tasks ≤ r.config.queue_capacity)
        × (length r.workers ≤ r.config.worker_count)
        × (r.accepted_count
            ≡ (r.completed_count
                + r.cancelled_pending_count
                + length r.tasks
                + tally in_hand r.workers)
              % u64_mod)
        × (r.active_workers ≡ tally is_running r.workers % u64_mod)
  run-accounts c e history h =
      let s = run-IsSound e history (create-IsSound c e h) in
      (s.bounded, s.pool_bounded, s.conserved, s.active_exact)

  -- When every worker has returned and the `Stop` that waits for them returns, no task is left
  -- queued, every accepted task was completed or cancelled, and the executor is stopped.
  pub stop_settles :
      (c : Config) (e : Executor T) (history : List (Action T))
      → create c ≡ some e
      → (run e history).lifecycle ≡ joining
      → all_exited (run e history).workers ≡ true
      → let r = step (run e history) joins in
        (r.tasks ≡ [])
        × (r.has_stopped ≡ true)
        × (r.started ≡ false)
        × (r.workers ≡ [])
        × (r.accepted_count ≡ (r.completed_count + r.cancelled_pending_count) % u64_mod)
  stop_settles c e history h l x =
      settles (run e history) (run-IsSound e history (create-IsSound c e h)) l x
