-- ===== src/EventLoop.antt =====
-- The judge's event loop: src/judge_service/include/event_loop.hpp.
--
-- Each lock scope is one atomic step, of any thread. A coroutine is what it does while an owner
-- thread resumes it: it submits I/O, or ends. `callbacks` records the calls of the callbacks, each at
-- the step that moves the callback out of the promise. Times are milliseconds.
pub mod Callbacks
mod Examples
use online_judge.Base.{
  ℕ, suc, ◌+◌, ◌%◌, min, max, Text, ◌=t◌, List, [], ◌∷◌, ◌++◌, Option, none, some, Bool, true,
  false, not, ◌&&◌, ◌||◌, leb, ◌==◌, is_empty, is_some, map, get_elem?, set, if◌then◌else◌,
}

pub data PendingState : Type 0 where
  ready running waiting : PendingState

pub record PendingEntry : Type 0 where
  pub task_id : Text
  pub state : PendingState
  pub generation : ℕ
  pub deadline : ℕ
  pub io_deadline : ℕ
  pub io_in_flight : Bool
  pub cancel_requested : Bool
  pub has_callback : Bool
  pub done : Bool

pub record IoJob : Type 0 where
  pub task_id : Text
  pub generation : ℕ
  pub deadline : ℕ

-- Where an owner thread stands in `OwnerWork`: in its wait, with a task that it took, or after the
-- callback of a cancelled or of a finished task.
pub data Owner : Type 0 where
  away : Owner
  holding : Text → (stopping : Bool) → Owner
  cancelled : Text → Owner
  finished : Text → Owner

pub record JudgeEventLoop : Type 0 where
  pub pendings : List PendingEntry
  pub ready_queue : List Text
  pub io_queue : List IoJob
  pub is_running : Bool
  pub accepting_io : Bool
  pub stop_owners : Bool
  pub owners : List Owner
  pub callbacks : List Text

abbrev pub is_ready : PendingState → Bool
is_ready ready = true
is_ready running = false
is_ready waiting = false

abbrev pub is_busy : PendingState → Bool
is_busy ready = false
is_busy running = true
is_busy waiting = false

-- `_pendings.find`, the change of an entry, and `_pendings.erase`.
pub find_pending : Text → List PendingEntry → Option PendingEntry
find_pending id [] = none
find_pending id (e ∷ es) = let rest = find_pending id es in if e.task_id =t id then some e else rest

pub update_pending : Text → (PendingEntry → PendingEntry) → List PendingEntry → List PendingEntry
update_pending id f [] = []
update_pending id f (e ∷ es) =
    let rest = update_pending id f es in if e.task_id =t id then f e ∷ rest else e ∷ rest

pub erase_pending : Text → List PendingEntry → List PendingEntry
erase_pending id [] = []
erase_pending id (e ∷ es) =
    let rest = erase_pending id es in if e.task_id =t id then rest else e ∷ rest

-- `PushNewTask` of a task with a coroutine; `task_id` is the unique name.
pub push_new_task :
    JudgeEventLoop → Text → (has_callback : Bool) → (timeout_ms now : ℕ) → JudgeEventLoop × Bool
unfolding find_pending
push_new_task l task_id has_callback timeout_ms now =
    if not l.is_running || not l.accepting_io || is_some (find_pending task_id l.pendings)
    then (l, false)
    else (
      record l {
        pendings =
            record {
              task_id = task_id;
              state = ready;
              generation = 0;
              deadline = now + max 1 timeout_ms;
              io_deadline = 0;
              io_in_flight = false;
              cancel_requested = false;
              has_callback = has_callback;
              done = false;
            }
            ∷ l.pendings;
        ready_queue = l.ready_queue ++ task_id ∷ [];
      },
      true,
    )

request_cancel : PendingEntry → PendingEntry
request_cancel e = record e { cancel_requested = true }

start_io : ℕ → PendingEntry → PendingEntry
start_io io_deadline e = record e {
  state = waiting;
  io_in_flight = true;
  io_deadline = io_deadline;
  generation = (e.generation + 1) % 18446744073709551616;
}

-- `SubmitIo`, for the entry that was found.
submit_found : JudgeEventLoop → Text → PendingEntry → (timeout_ms now : ℕ) → JudgeEventLoop × Bool
unfolding update_pending start_io request_cancel
submit_found l task_id e timeout_ms now =
    if not l.accepting_io || not (is_busy e.state) || e.cancel_requested
    then (l, false)
    else if leb e.deadline now
    then (record l { pendings = update_pending task_id request_cancel l.pendings }, false)
    else (let io_deadline = min e.deadline (now + max 1 timeout_ms) in
        (
          record l {
            pendings = update_pending task_id (start_io io_deadline) l.pendings;
            io_queue =
                l.io_queue
                ++ record {
                  task_id = task_id;
                  generation = (e.generation + 1) % 18446744073709551616;
                  deadline = io_deadline;
                }
                  ∷ [];
          },
          true,
        ))

pub submit_io : JudgeEventLoop → Text → (timeout_ms now : ℕ) → JudgeEventLoop × Bool
unfolding submit_found find_pending
submit_io l task_id timeout_ms now = elim (find_pending task_id l.pendings) [
  | none ↦ (l, false)
  | some e ↦ submit_found l task_id e timeout_ms now
]

-- An entry after its I/O: woken, cancelled and woken, or cancelled while it runs.
io_ended : (cancel wake : Bool) → PendingEntry → PendingEntry
io_ended cancel wake e = record e {
  io_in_flight = false;
  cancel_requested = cancel;
  state = if wake then ready else e.state;
}

-- `CompleteIo`, for the entry that was found; what it writes to the promise is the coroutine's.
complete_io_found : JudgeEventLoop → Text → ℕ → PendingEntry → JudgeEventLoop
unfolding update_pending io_ended
complete_io_found l task_id generation e =
    if not (e.generation == generation)
    then l
    else (let cancel = e.cancel_requested || not l.is_running in
        let wake = not (cancel && is_busy e.state) in
        record l {
          pendings = update_pending task_id (io_ended cancel wake) l.pendings;
          ready_queue = if wake then l.ready_queue ++ task_id ∷ [] else l.ready_queue;
        })

pub complete_io : JudgeEventLoop → Text → ℕ → JudgeEventLoop
unfolding complete_io_found find_pending
complete_io l task_id generation = elim (find_pending task_id l.pendings) [
  | none ↦ l
  | some e ↦ complete_io_found l task_id generation e
]

-- The sweep of `OwnerWork` over the deadlines: the entries, and the tasks that it makes ready.
pub sweep : ℕ → List PendingEntry → List PendingEntry × List Text
sweep now [] = ([], [])
sweep now (e ∷ es) =
    let (rest, woken) = sweep now es in
    if not e.cancel_requested && leb e.deadline now
    then (
      record e { cancel_requested = true; state = if is_busy e.state then e.state else ready }
          ∷ rest,
      if is_busy e.state then woken else e.task_id ∷ woken,
    )
    else (e ∷ rest, woken)

set_running : PendingEntry → PendingEntry
set_running e = record e { state = running }

-- The end of the first lock scope, with the entry of the task at the front of the queue.
take_found : JudgeEventLoop → ℕ → Text → Option PendingEntry → JudgeEventLoop
unfolding update_pending set_running
take_found l i task_id none = l
take_found l i task_id (some e) = if not (is_ready e.state) then l else record l {
  pendings = update_pending task_id set_running l.pendings;
  owners = set l.owners i (holding task_id (not l.is_running || e.cancel_requested));
}

-- The first lock scope of `OwnerWork`, by owner `i`.
pub take_task : JudgeEventLoop → ℕ → ℕ → JudgeEventLoop
unfolding sweep take_found find_pending
take_task l i now =
    let (swept, woken) = sweep now l.pendings in
    elim (l.ready_queue ++ woken) [
      | [] ↦ record l { pendings = swept }
      | task_id ∷ queue ↦
          take_found (record l { pendings = swept; ready_queue = queue }) i task_id
            (find_pending task_id swept)
    ]

take_callback : PendingEntry → PendingEntry
take_callback e = record e { has_callback = false }

-- `auto callback = std::move(...)`, and the call of the callback if there is one.
call_back : JudgeEventLoop → ℕ → Text → PendingEntry → Owner → JudgeEventLoop
unfolding update_pending take_callback
call_back l i task_id e next = record l {
  pendings = update_pending task_id take_callback l.pendings;
  callbacks = if e.has_callback then task_id ∷ l.callbacks else l.callbacks;
  owners = set l.owners i next;
}

-- The second lock scope of `OwnerWork`, after `Resume` if it was called.
pub settle_found : JudgeEventLoop → ℕ → Text → Bool → Option PendingEntry → JudgeEventLoop
unfolding call_back
settle_found l i task_id stopping none = record l { owners = set l.owners i away }
settle_found l i task_id stopping (some e) =
    if stopping || e.cancel_requested
    then call_back l i task_id e (cancelled task_id)
    else if not e.done
    then record l { owners = set l.owners i away }
    else call_back l i task_id e (finished task_id)

set_waiting : PendingEntry → PendingEntry
set_waiting e = record e { state = waiting }

-- The third lock scope, after the callback of a cancelled task.
drop_found : JudgeEventLoop → ℕ → Text → Option PendingEntry → JudgeEventLoop
unfolding update_pending erase_pending set_waiting
drop_found l i task_id none = record l { owners = set l.owners i away }
drop_found l i task_id (some e) = record l {
  pendings =
      if e.io_in_flight
      then update_pending task_id set_waiting l.pendings
      else erase_pending task_id l.pendings;
  owners = set l.owners i away;
}

-- What owner `i` does next, standing at `o`.
pub owner_step : JudgeEventLoop → ℕ → ℕ → Owner → JudgeEventLoop
unfolding take_task settle_found drop_found erase_pending find_pending
owner_step l i now away = take_task l i now
owner_step l i now (holding task_id stopping) =
    settle_found l i task_id stopping (find_pending task_id l.pendings)
owner_step l i now (cancelled task_id) = drop_found l i task_id (find_pending task_id l.pendings)
owner_step l i now (finished task_id) = record l {
  pendings = erase_pending task_id l.pendings;
  owners = set l.owners i away;
}

-- `Run`, where it was not running; its owner threads are `count`.
pub start_threads : JudgeEventLoop → List Owner → JudgeEventLoop
start_threads l owners =
    if l.is_running
    then l
    else record l { is_running = true; accepting_io = true; stop_owners = false; owners = owners }

-- `Stop` up to the join of the I/O threads.
pub stop_io : JudgeEventLoop → JudgeEventLoop
stop_io l =
    if not l.is_running
    then record l { accepting_io = false }
    else record l { accepting_io = false; is_running = false; io_queue = [] }

cancel_all : List PendingEntry → List PendingEntry × List Text
cancel_all [] = ([], [])
cancel_all (e ∷ es) =
    let (rest, woken) = cancel_all es in
    (
      record e {
        io_in_flight = false;
        cancel_requested = true;
        state = if is_busy e.state then e.state else ready;
      }
          ∷ rest,
      if is_busy e.state then woken else e.task_id ∷ woken,
    )

-- `Stop` from there to the join of the owner threads.
pub stop_tasks : JudgeEventLoop → JudgeEventLoop
unfolding cancel_all
stop_tasks l =
    let (entries, woken) = cancel_all l.pendings in
    record l { pendings = entries; ready_queue = l.ready_queue ++ woken; stop_owners = true }

-- The lock scope of `IoWork`.
pub take_io : JudgeEventLoop → JudgeEventLoop
take_io l =
    if not l.is_running
    then l
    else elim l.io_queue [ [] ↦ l | job ∷ rest ↦ record l { io_queue = rest } ]

end_task : PendingEntry → PendingEntry
end_task e = record e { done = true }

pub data Action : Type 0 where
  pushes : Text → (has_callback : Bool) → (timeout_ms now : ℕ) → Action
  submits : Text → (timeout_ms now : ℕ) → Action
  ends : Text → Action
  completes : Text → (generation : ℕ) → Action
  takes_io stops stops_tasks : Action
  owns : (i now : ℕ) → Action

pub step : JudgeEventLoop → Action → JudgeEventLoop
unfolding owner_step push_new_task submit_io complete_io take_io stop_io stop_tasks end_task
    update_pending
step l (pushes id has_callback timeout_ms now) = (push_new_task l id has_callback timeout_ms now).0
step l (submits id timeout_ms now) = (submit_io l id timeout_ms now).0
step l (ends id) = record l { pendings = update_pending id end_task l.pendings }
step l (completes id generation) = complete_io l id generation
step l takes_io = take_io l
step l stops = stop_io l
step l stops_tasks = stop_tasks l
step l (owns i now) = elim (get_elem? l.owners i) [ none ↦ l | some o ↦ owner_step l i now o ]

pub run : JudgeEventLoop → List Action → JudgeEventLoop
unfolding step
run l [] = l
run l (a ∷ rest) = run (step l a) rest
