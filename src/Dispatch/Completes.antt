-- ===== src/Dispatch/Completes.antt =====
-- AsyncDispatch: what every way of completing a request keeps.
use online_judge.Base.{ℕ, ◌≤◌, ◌≡◌, refl, Text, codes, Bool, true, false, arith, if◌then◌else◌}
use online_judge.Executor.{accepted, queue_full, stopped}
use online_judge.Dispatch.{
  View, Dispatch, Caller, Task, submitting, answered, returned, fresh, queued, gone, fail, finish,
  run_task, invoke, task_after_http, destroy_if_last, release, set_dispatch_failure, run_done,
}

-- Who may hold the completion, and whether it is completed when nobody does.
abbrev pub Holds : Caller → Task → Bool → Type 0
Holds submitting fresh completed = completed ≡ false
Holds (answered accepted) queued completed = completed ≡ false
Holds (answered accepted) gone completed = Unit
Holds (answered queue_full) gone completed = completed ≡ false
Holds (answered stopped) gone completed = completed ≡ false
Holds returned queued completed = completed ≡ false
Holds returned gone completed = completed ≡ true
Holds caller task completed = ⊥

-- The closure was run once if the completion is completed, and not at all otherwise; the callable was
-- invoked at most once, and not while the task waits.
pub record IsOnce (v : View) (d : Dispatch) : Type 0 where
  pub runs_once : d.done_runs ≡ (if d.completed then (if v.has_done then 1 else 0) else 0)
  pub invoked : d.invocations ≤ 1
  pub untouched : d.completed ≡ false → d.invocations ≡ 0

-- What every way of completing keeps: the holders, and the counts.
pub record Completes (v : View) (before d : Dispatch) : Type 0 where
  pub once : IsOnce v d
  pub completes : d.completed ≡ true
  pub same_caller : d.caller ≡ before.caller
  pub same_task : d.task ≡ before.task

pub fail-Completes :
    (v : View) (code : ℕ) (message : Text) (retryable : Bool) (d : Dispatch)
    → IsOnce v d
    → Completes v d (fail v code message retryable d)
unfolding fail run_done set_dispatch_failure
fail-Completes v code message retryable d once = ground arith

pub run_task-Completes :
    (v : View) (d : Dispatch) → IsOnce v d → d.completed ≡ false → Completes v d (run_task v d)
unfolding run_task task_after_http invoke fail finish run_done set_dispatch_failure
run_task-Completes v d once pending = ground arith

pub record IsGood (v : View) (d : Dispatch) : Type 0 where
  pub once : IsOnce v d
  pub holds : Holds d.caller d.task d.completed

pub keeps_at :
    (d : Dispatch) (c : Caller) (t : Task) (b : Bool)
    → d.caller ≡ c
    → d.task ≡ t
    → d.completed ≡ b
    → Holds c t b
    → Holds d.caller d.task d.completed
keeps_at d c t b hc ht hb h = rw (hc, ht, hb) h

-- `Holds`, but for the moment at which the last holder lets go.
abbrev pub Handed : Caller → Task → Bool → Type 0
Handed returned gone completed = Unit
Handed caller task completed = Holds caller task completed

release-IsGood :
    (v : View) (c : Caller) (t : Task) (d : Dispatch)
    → d.caller ≡ c
    → d.task ≡ t
    → IsOnce v d
    → Handed c t d.completed
    → IsGood v (destroy_if_last v c t d)
unfolding destroy_if_last
release-IsGood v returned gone d hc ht once h =
    let f = fail-Completes v 503 (codes "BUSINESS_EXECUTOR_STOPPED") true d once in
    record {
      once = f.once;
      holds =
          keeps_at (fail v 503 (codes "BUSINESS_EXECUTOR_STOPPED") true d) returned gone true
            (ground (arith, f)) (ground (arith, f)) f.completes refl;
    }
release-IsGood v returned fresh d hc ht once h = absurd h
release-IsGood v returned queued d hc ht once h = record {
  once = once;
  holds = keeps_at d returned queued d.completed hc ht refl h;
}
release-IsGood v submitting t d hc ht once h = record {
  once = once;
  holds = keeps_at d submitting t d.completed hc ht refl h;
}
release-IsGood v (answered r) t d hc ht once h = record {
  once = once;
  holds = keeps_at d (answered r) t d.completed hc ht refl h;
}

pub let_go_at :
    (c' : Caller) (t' : Task) {c : Caller} {t : Task} (b : Bool)
    → c ≡ c'
    → t ≡ t'
    → Handed c' t' b
    → Handed c t b
let_go_at c' t' b hc ht h = rw (hc, ht) h

pub let_go :
    (v : View) (d : Dispatch)
    → IsOnce v d
    → Handed d.caller d.task d.completed
    → IsGood v (release v d)
let_go v d once h = release-IsGood v d.caller d.task d refl refl once h
