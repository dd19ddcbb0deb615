-- ===== src/EventLoop/Examples.antt =====
-- event_loop.hpp: one task, whose I/O ends before the owner that started it comes back.
use online_judge.Base.{
  ◌≤◌, ◌≡◌, refl, codes, List, [], ◌∷◌, some, true, false, Text-discrete, tally, get_elem?,
}
use online_judge.EventLoop.{
  JudgeEventLoop, away, holding, Action, pushes, submits, completes, takes_io, owns, run, step,
}
use online_judge.EventLoop.Callbacks.{call_of, push_of, callback_at_most_once}

abbrev loop : JudgeEventLoop
loop = record {
  pendings = [];
  ready_queue = [];
  io_queue = [];
  is_running = true;
  accepting_io = true;
  stop_owners = false;
  owners = away ∷ away ∷ away ∷ [];
  callbacks = [];
}

-- Owner 0 resumes the task, which submits I/O; the I/O ends, and owner 1 resumes the task; owner 2
-- finds its deadline passed; then owner 0 comes back from its resumption.
abbrev race : List Action
race =
    pushes (codes "t") true 100 0
    ∷ owns 0 0
    ∷ submits (codes "t") 50 1
    ∷ takes_io
    ∷ completes (codes "t") 1
    ∷ owns 1 2
    ∷ owns 2 200
    ∷ owns 0 201
    ∷ owns 0 202
    ∷ []

task_gone : (run loop race).pendings ≡ []
unfolding run step Text-discrete
task_gone = refl

still_resumed : get_elem? (run loop race).owners 1 ≡ some (holding (codes "t") false)
unfolding run step Text-discrete
still_resumed = refl

callback_at_most_once_example :
    tally (call_of (codes "t")) (run loop race).callbacks ≤ tally (push_of (codes "t")) race
callback_at_most_once_example = callback_at_most_once (codes "t") loop race refl refl
