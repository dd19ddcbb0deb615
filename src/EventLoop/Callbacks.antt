-- ===== src/EventLoop/Callbacks.antt =====
-- event_loop.hpp: how often the callback of a task is called.
use online_judge.Base.{
  ℕ, ◌+◌, ◌≤◌, ◌≡◌, refl, inl, inr, Text, ◌=t◌, List, [], ◌∷◌, ◌++◌, Option, none, some, Bool, not,
  ◌&&◌, ◌||◌, tally, arith, Text-discrete, min, max, ap, Option-cases, get_elem?, if◌then◌else◌,
}
use online_judge.EventLoop.{
  PendingEntry, JudgeEventLoop, Owner, away, holding, cancelled, finished, Action, pushes, submits,
  ends, completes, takes_io, stops, stops_tasks, owns, find_pending, update_pending, erase_pending,
  push_new_task, request_cancel, start_io, submit_found, submit_io, io_ended, complete_io_found,
  complete_io, sweep, set_running, take_found, take_task, take_callback, call_back, settle_found,
  set_waiting, drop_found, owner_step, stop_io, cancel_all, stop_tasks, take_io, end_task, step,
  run, is_busy,
}

-- 1 for an entry of the task whose callback was not taken.
abbrev pub armed : Text → PendingEntry → ℕ
armed k e = if e.task_id =t k then (if e.has_callback then 1 else 0) else 0

-- 1 for a call of the callback of the task.
abbrev pub call_of : Text → Text → ℕ
call_of k id = if id =t k then 1 else 0

-- What may still be called of the task, and what was.
abbrev pub spent : Text → JudgeEventLoop → ℕ
spent k l = tally (armed k) l.pendings + tally (call_of k) l.callbacks

-- 1 for a push of the task.
abbrev pub push_of : Text → Action → ℕ
push_of k (pushes id has_callback timeout_ms now) = if id =t k then 1 else 0
push_of k a = 0

update_pending-armed :
    (k id : Text) (f : PendingEntry → PendingEntry) (es : List PendingEntry)
    → ((e : PendingEntry) → armed k (f e) ≤ armed k e)
    → tally (armed k) (update_pending id f es) ≤ tally (armed k) es
unfolding update_pending
update_pending-armed k id f [] h = omega arith
update_pending-armed k id f (e ∷ es) h = ground (arith, update_pending-armed k id f es h, h e)

erase_pending-armed :
    (k id : Text) (es : List PendingEntry)
    → tally (armed k) (erase_pending id es) ≤ tally (armed k) es
unfolding erase_pending
erase_pending-armed k id [] = omega arith
erase_pending-armed k id (e ∷ es) = ground (arith, erase_pending-armed k id es)

sweep-armed :
    (k : Text) (now : ℕ) (es : List PendingEntry)
    → tally (armed k) (sweep now es).0 ≤ tally (armed k) es
unfolding sweep
sweep-armed k now [] = omega arith
sweep-armed k now (e ∷ es) = ground (arith, sweep-armed k now es)

cancel_all-armed :
    (k : Text) (es : List PendingEntry) → tally (armed k) (cancel_all es).0 ≤ tally (armed k) es
unfolding cancel_all
cancel_all-armed k [] = omega arith
cancel_all-armed k (e ∷ es) = omega (arith, cancel_all-armed k es)

take_callback-armed :
    (k id : Text) (es : List PendingEntry)
    → tally (armed k) (update_pending id take_callback es) ≤ tally (armed k) es
unfolding take_callback
take_callback-armed k id es = update_pending-armed k id take_callback es (λ e. ground arith)

-- Taking the callback of the entry that `find_pending` gives pays for its call.
take-armed :
    (k id : Text) (es : List PendingEntry) (e : PendingEntry)
    → find_pending id es ≡ some e
    → tally (armed k) (update_pending id take_callback es)
        + (if e.has_callback then call_of k id else 0)
      ≤ tally (armed k) es
unfolding find_pending update_pending take_callback
take-armed k id [] e h = ground arith
take-armed k id (x ∷ es) e h = elim (Text-discrete x.task_id id) [
  | yes same ↦ ground (arith, take_callback-armed k id es)
  | no other ↦ ground (arith, take-armed k id es e)
]

push-spent :
    (k id : Text) (has_callback : Bool) (timeout_ms now : ℕ) (l : JudgeEventLoop)
    → spent k (push_new_task l id has_callback timeout_ms now).0
      ≤ spent k l + (if id =t k then 1 else 0)
unfolding push_new_task
push-spent k id has_callback timeout_ms now l = ground arith

submit_found-spent :
    (k id : Text) (e : PendingEntry) (timeout_ms now : ℕ) (l : JudgeEventLoop)
    → spent k (submit_found l id e timeout_ms now).0 ≤ spent k l
unfolding submit_found request_cancel start_io
submit_found-spent k id e timeout_ms now l = ground (
  arith,
  update_pending-armed k id request_cancel l.pendings (λ x. omega arith),
  update_pending-armed k id (start_io (min e.deadline (now + max 1 timeout_ms))) l.pendings
      (λ x. omega arith),
)

submit-spent :
    (k id : Text) (timeout_ms now : ℕ) (l : JudgeEventLoop)
    → spent k (submit_io l id timeout_ms now).0 ≤ spent k l
unfolding submit_io
submit-spent k id timeout_ms now l = elim (Option-cases (find_pending id l.pendings)) [
  | inl missing ↦ rw (missing, submit_io) (omega arith)
  | inr (e, found) ↦ rw (found, submit_io) (submit_found-spent k id e timeout_ms now l)
]

complete_io_found-spent :
    (k id : Text) (generation : ℕ) (e : PendingEntry) (l : JudgeEventLoop)
    → spent k (complete_io_found l id generation e) ≤ spent k l
unfolding complete_io_found io_ended
complete_io_found-spent k id generation e l = ground (
  arith,
  update_pending-armed k id
      (io_ended (e.cancel_requested || not l.is_running)
        (not ((e.cancel_requested || not l.is_running) && is_busy e.state)))
      l.pendings (λ x. omega arith),
)

complete-spent :
    (k id : Text) (generation : ℕ) (l : JudgeEventLoop)
    → spent k (complete_io l id generation) ≤ spent k l
unfolding complete_io
complete-spent k id generation l = elim (Option-cases (find_pending id l.pendings)) [
  | inl missing ↦ rw (missing, complete_io) (omega arith)
  | inr (e, found) ↦ rw (found, complete_io) (complete_io_found-spent k id generation e l)
]

take_found-spent :
    (k id : Text) (i : ℕ) (found : Option PendingEntry) (l : JudgeEventLoop)
    → spent k (take_found l i id found) ≤ spent k l
unfolding take_found set_running
take_found-spent k id i none l = omega arith
take_found-spent k id i (some e) l =
    ground (arith, update_pending-armed k id set_running l.pendings (λ x. omega arith))

settle_found-spent :
    (k id : Text) (i : ℕ) (stopping : Bool) (found : Option PendingEntry) (l : JudgeEventLoop)
    → find_pending id l.pendings ≡ found
    → spent k (settle_found l i id stopping found) ≤ spent k l
unfolding settle_found call_back
settle_found-spent k id i stopping none l h = omega arith
settle_found-spent k id i stopping (some e) l h = ground (arith, take-armed k id l.pendings e h)

drop_found-spent :
    (k id : Text) (i : ℕ) (found : Option PendingEntry) (l : JudgeEventLoop)
    → spent k (drop_found l i id found) ≤ spent k l
unfolding drop_found set_waiting
drop_found-spent k id i none l = omega arith
drop_found-spent k id i (some e) l = ground (
  arith,
  update_pending-armed k id set_waiting l.pendings (λ x. omega arith),
  erase_pending-armed k id l.pendings,
)

take_from :
    (k : Text) (i now : ℕ) (queue : List Text) (l : JudgeEventLoop)
    → l.ready_queue ++ (sweep now l.pendings).1 ≡ queue
    → spent k (take_task l i now) ≤ spent k l
unfolding take_task
take_from k i now [] l h = rw (h, take_task) (omega (arith, sweep-armed k now l.pendings))
take_from k i now (id ∷ queue) l h =
    rw (h, take_task)
      (omega (
        arith,
        sweep-armed k now l.pendings,
        take_found-spent k id i (find_pending id (sweep now l.pendings).0)
            (record l { pendings = (sweep now l.pendings).0; ready_queue = queue }),
      ))

owner-spent :
    (k : Text) (i now : ℕ) (o : Owner) (l : JudgeEventLoop)
    → spent k (owner_step l i now o) ≤ spent k l
unfolding owner_step
owner-spent k i now away l = take_from k i now _ l refl
owner-spent k i now (holding id stopping) l =
    settle_found-spent k id i stopping (find_pending id l.pendings) l refl
owner-spent k i now (cancelled id) l = drop_found-spent k id i (find_pending id l.pendings) l
owner-spent k i now (finished id) l = omega (arith, erase_pending-armed k id l.pendings)

step-spent :
    (k : Text) (l : JudgeEventLoop) (a : Action) → spent k (step l a) ≤ spent k l + push_of k a
unfolding step end_task stop_io stop_tasks take_io
step-spent k l (pushes id has_callback timeout_ms now) =
    push-spent k id has_callback timeout_ms now l
step-spent k l (submits id timeout_ms now) = omega (arith, submit-spent k id timeout_ms now l)
step-spent k l (ends id) =
    omega (arith, update_pending-armed k id end_task l.pendings (λ x. omega arith))
step-spent k l (completes id generation) = omega (arith, complete-spent k id generation l)
step-spent k l takes_io = ground arith
step-spent k l stops = ground arith
step-spent k l stops_tasks = omega (arith, cancel_all-armed k l.pendings)
step-spent k l (owns i now) = elim (Option-cases (get_elem? l.owners i)) [
  | inl missing ↦ rw (missing, step) (omega arith)
  | inr (o, found) ↦ rw (found, step) (omega (arith, owner-spent k i now o l))
]

run-spent :
    (k : Text) (l : JudgeEventLoop) (history : List Action)
    → spent k (run l history) ≤ spent k l + tally (push_of k) history
unfolding run
run-spent k l [] = omega arith
run-spent k l (a ∷ rest) = omega (arith, step-spent k l a, run-spent k (step l a) rest)

-- From an event loop without tasks, over any sequence of steps of its threads and of its callers, the
-- callback of a task is called at most as often as the task was pushed: at most once for a unique
-- name.
pub callback_at_most_once :
    (k : Text) (l : JudgeEventLoop) (history : List Action)
    → l.pendings ≡ []
    → l.callbacks ≡ []
    → tally (call_of k) (run l history).callbacks ≤ tally (push_of k) history
callback_at_most_once k l history p c =
    omega (arith, run-spent k l history, ap (tally (armed k)) p, ap (tally (call_of k)) c)
