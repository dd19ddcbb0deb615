-- ===== src/Executor/Order.antt =====
-- business_executor.cpp: the order of the queue, and what `Submit` answers.
use online_judge.Base.{
  ℕ, ◌≤◌, ◌<◌, ◌≡◌, refl, sym, ap, ◌∙◌, ◌⊎◌, inl, inr, List, [], ◌∷◌, ◌++◌, some, true, false,
  arith, length, get_elem?, Option-cases, Bool-cases, none, ◌&&◌, not,
}
use mathlib.Core.List.{append-nil, append_assoc}
use online_judge.Executor.{
  Executor, Lifecycle, StopPolicy, Worker, QueuedTask, Action, SubmitResult, accepted, queue_full,
  stopped, drain, cancel_pending, free, starting, start_failing, joining, waiting, holding, running,
  exited, submits, starts, spawns, spawning_fails, stops, joins, works, submit, is_accepting, start,
  spawn, spawn_fails, stop, joined, wait_turn, worker_step, on_lifecycle, step, run, fetch_add,
  is_cancel,
}

module _ {T : Type 0} where
  abbrev if_accepted : SubmitResult → QueuedTask T → List (QueuedTask T)
  if_accepted accepted q = q ∷ []
  if_accepted queue_full q = []
  if_accepted stopped q = []

  -- The tasks that an action adds to the queue.
  abbrev arrivals : Executor T → Action T → List (QueuedTask T)
  arrivals e (submits task now) =
      if_accepted (submit e task now).1 (record { task = task; enqueued_at = now })
  arrivals e a = []

  -- The accepted tasks of a history, in the order in which they were accepted.
  pub all_arrivals : Executor T → List (Action T) → List (QueuedTask T)
  all_arrivals e [] = []
  all_arrivals e (a ∷ rest) = arrivals e a ++ all_arrivals (step e a) rest

  -- `Submit` accepts exactly while the executor accepts and has room, answers `Stopped` exactly
  -- while it does not accept, and touches the queue, at its end, only when it accepts.
  pub submit_branches :
      (e : Executor T) (task : T) (now : ℕ)
      → let (e', r) = submit e task now in
        ((is_accepting e ≡ false)
          × (r ≡ stopped)
          × (e'.tasks ≡ e.tasks)
          × (e'.rejected_stopped_count ≡ fetch_add e.rejected_stopped_count 1))
        ⊎ ((is_accepting e ≡ true)
            × (e.config.queue_capacity ≤ length e.tasks)
            × (r ≡ queue_full)
            × (e'.tasks ≡ e.tasks)
            × (e'.rejected_queue_full_count ≡ fetch_add e.rejected_queue_full_count 1))
        ⊎ ((is_accepting e ≡ true)
            × (length e.tasks < e.config.queue_capacity)
            × (r ≡ accepted)
            × (e'.tasks ≡ e.tasks ++ record { task = task; enqueued_at = now } ∷ [])
            × (e'.accepted_count ≡ fetch_add e.accepted_count 1))
  unfolding submit is_accepting
  submit_branches e task now = ground arith

  -- What left the queue of `e` on the way to `r` is a front part of it and of what came in.
  abbrev Suffix : Executor T → Executor T → List (QueuedTask T) → Type 0
  Suffix e r new = (gone : List (QueuedTask T)) × (e.tasks ++ new ≡ gone ++ r.tasks)

  kept :
      (old new : List (QueuedTask T))
      → new ≡ old
      → (gone : List (QueuedTask T)) × (old ++ [] ≡ gone ++ new)
  kept old new h = ([], append-nil old ∙ sym h)

  submit-Suffix :
      (e : Executor T) (task : T) (now : ℕ)
      → Suffix e (submit e task now).0 (arrivals e (submits task now))
  unfolding submit
  submit-Suffix e task now = ([], ground (arith, append-nil e.tasks))

  wait_turn-Suffix :
      (e : Executor T) (i : ℕ) (ts : List (QueuedTask T))
      → e.tasks ≡ ts
      → Suffix e (wait_turn e i) []
  unfolding wait_turn
  wait_turn-Suffix e i [] o = kept e.tasks _ (ground arith)
  wait_turn-Suffix e i (q ∷ rest) o =
      elim (Bool-cases (e.stopping && is_cancel e.active_stop_policy)) [
        | inl leaves ↦ kept e.tasks _ (ground arith)
        | inr takes ↦ (q ∷ [], ground (arith, append-nil e.tasks))
      ]

  worker_step-Suffix : (e : Executor T) (i now : ℕ) → Suffix e (worker_step e i now) []
  unfolding worker_step
  worker_step-Suffix e i now = turn (Option-cases (get_elem? e.workers i))
    where
      by_worker :
          (w : Worker T) → get_elem? e.workers i ≡ some w → Suffix e (worker_step e i now) []
      by_worker waiting h = rw (h, worker_step) (wait_turn-Suffix e i e.tasks refl)
      by_worker (holding q) h = rw (h, worker_step) (kept e.tasks _ refl)
      by_worker (running q t) h = rw (h, worker_step) (kept e.tasks _ refl)
      by_worker exited h = rw (h, worker_step) (kept e.tasks _ refl)

      turn :
          (get_elem? e.workers i ≡ none) ⊎ ((w : Worker T) × (get_elem? e.workers i ≡ some w))
          → Suffix e (worker_step e i now) []
      turn (inl missing) = rw (missing, worker_step) (kept e.tasks _ refl)
      turn (inr (w, found)) = by_worker w found

  stop-Suffix : (e : Executor T) (policy : StopPolicy) → Suffix e (stop e policy).0 []
  unfolding stop
  stop-Suffix e drain = kept e.tasks _ (ground arith)
  stop-Suffix e cancel_pending = elim (Bool-cases (e.started && not e.has_stopped)) [
    | inl cancels ↦ (e.tasks, ground (arith, append-nil e.tasks))
    | inr idle ↦ kept e.tasks _ (ground arith)
  ]

  on_lifecycle-Suffix :
      (l : Lifecycle) (e : Executor T) (a : Action T) → Suffix e (on_lifecycle l e a) []
  unfolding on_lifecycle start spawn spawn_fails joined
  on_lifecycle-Suffix free e starts = kept e.tasks _ (ground arith)
  on_lifecycle-Suffix free e (stops policy) = stop-Suffix e policy
  on_lifecycle-Suffix starting e spawns = kept e.tasks _ refl
  on_lifecycle-Suffix starting e spawning_fails = kept e.tasks _ refl
  on_lifecycle-Suffix start_failing e joins = kept e.tasks _ (ground arith)
  on_lifecycle-Suffix joining e joins = kept e.tasks _ (ground arith)
  on_lifecycle-Suffix _ e _ = kept e.tasks _ refl

  step-Suffix : (e : Executor T) (a : Action T) → Suffix e (step e a) (arrivals e a)
  unfolding step
  step-Suffix e (submits task now) = submit-Suffix e task now
  step-Suffix e (works i now) = worker_step-Suffix e i now
  step-Suffix e starts = on_lifecycle-Suffix e.lifecycle e starts
  step-Suffix e spawns = on_lifecycle-Suffix e.lifecycle e spawns
  step-Suffix e spawning_fails = on_lifecycle-Suffix e.lifecycle e spawning_fails
  step-Suffix e (stops policy) = on_lifecycle-Suffix e.lifecycle e (stops policy)
  step-Suffix e joins = on_lifecycle-Suffix e.lifecycle e joins

  join_suffix :
      (old new more gone mid gone' last : List (QueuedTask T))
      → old ++ new ≡ gone ++ mid
      → mid ++ more ≡ gone' ++ last
      → old ++ (new ++ more) ≡ (gone ++ gone') ++ last
  join_suffix old new more gone mid gone' last p q =
      sym (append_assoc old new more)
      ∙ ap (λ l. l ++ more) p
      ∙ append_assoc gone mid more
      ∙ ap (λ l. gone ++ l) q
      ∙ sym (append_assoc gone gone' last)

  -- The queue is first in, first out: over any history, the tasks that were queued at the start
  -- followed by those accepted since, in the order of acceptance, are those that left the queue
  -- followed by those that are still in it.
  pub run_fifo :
      (e : Executor T) (history : List (Action T))
      → (gone : List (QueuedTask T)) × (e.tasks ++ all_arrivals e history
          ≡ gone ++ (run e history).tasks)
  unfolding run all_arrivals
  run_fifo e [] = kept e.tasks e.tasks refl
  run_fifo e (a ∷ rest) =
      let (gone, p) = step-Suffix e a in
      let (gone', q) = run_fifo (step e a) rest in
      (
        gone ++ gone',
        join_suffix e.tasks (arrivals e a) (all_arrivals (step e a) rest) gone (step e a).tasks
            gone' (run (step e a) rest).tasks p q,
      )
