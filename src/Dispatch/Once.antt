-- ===== src/Dispatch/Once.antt =====
-- AsyncDispatch: how often the closure of a request is run.
use online_judge.Base.{◌≤◌, ◌≡◌, ◌∙◌, refl, Text, codes, List, [], ◌∷◌, true, arith}
use online_judge.Executor.{SubmitResult, accepted, queue_full, stopped}
use online_judge.Dispatch.{
  View, Dispatch, Caller, Task, submitting, answered, returned, fresh, queued, gone, Event, submits,
  returns, runs, drops, fail, run_task, submit_task, after_submit, step_submits, step_returns,
  step_runs, step_drops, step, history, new_dispatch, release,
}
use online_judge.Dispatch.Completes.{
  fail-Completes, run_task-Completes, keeps_at, let_go_at, let_go, Holds, IsOnce, IsGood,
}

step_submits-IsGood :
    (v : View) (r : SubmitResult) (d : Dispatch) → IsGood v d → IsGood v (step_submits r d.caller d)
unfolding step_submits submit_task
step_submits-IsGood v r d good = ground arith

moved :
    {v : View} (d : Dispatch) (c : Caller) (t : Task)
    → IsOnce v d
    → IsOnce v (record d { caller = c; task = t })
moved d c t once = record {
  runs_once = once.runs_once;
  invoked = once.invoked;
  untouched = once.untouched;
}

-- The caller lets go.
abbrev step_end : View → Dispatch → Dispatch
step_end v d = release v (record d { caller = returned })

rejected-IsGood :
    (v : View) (message : Text) (d : Dispatch)
    → IsOnce v d
    → d.task ≡ gone
    → IsGood v (step_end v (fail v 503 message true d))
rejected-IsGood v message d once ht =
    let f = fail-Completes v 503 message true d once in
    let d' = fail v 503 message true d in
    let_go v (record d' { caller = returned }) (moved d' returned d'.task f.once)
      (let_go_at returned gone {c = returned} {t = d'.task} d'.completed refl (f.same_task ∙ ht) tt)

step_returns-IsGood :
    (v : View) (d : Dispatch) (c : Caller) (t : Task)
    → d.caller ≡ c
    → d.task ≡ t
    → IsOnce v d
    → Holds c t d.completed
    → IsGood v (step_returns v c d)
unfolding step_returns after_submit
step_returns-IsGood v d (answered accepted) queued hc ht once h =
    let_go v (record d { caller = returned }) (moved d returned d.task once)
      (let_go_at returned queued {c = returned} {t = d.task} d.completed refl ht h)
step_returns-IsGood v d (answered accepted) gone hc ht once h =
    let_go v (record d { caller = returned }) (moved d returned d.task once)
      (let_go_at returned gone {c = returned} {t = d.task} d.completed refl ht tt)
step_returns-IsGood v d (answered accepted) fresh hc ht once h = absurd h
step_returns-IsGood v d (answered queue_full) gone hc ht once h =
    rejected-IsGood v (codes "BUSINESS_QUEUE_FULL") d once ht
step_returns-IsGood v d (answered stopped) gone hc ht once h =
    rejected-IsGood v (codes "BUSINESS_EXECUTOR_STOPPED") d once ht
step_returns-IsGood v d (answered queue_full) fresh hc ht once h = absurd h
step_returns-IsGood v d (answered queue_full) queued hc ht once h = absurd h
step_returns-IsGood v d (answered stopped) fresh hc ht once h = absurd h
step_returns-IsGood v d (answered stopped) queued hc ht once h = absurd h
step_returns-IsGood v d submitting t hc ht once h = record {
  once = once;
  holds = keeps_at d submitting t d.completed hc ht refl h;
}
step_returns-IsGood v d returned t hc ht once h = record {
  once = once;
  holds = keeps_at d returned t d.completed hc ht refl h;
}

step_runs-IsGood :
    (v : View) (d : Dispatch) (c : Caller) (t : Task)
    → d.caller ≡ c
    → d.task ≡ t
    → IsOnce v d
    → Holds c t d.completed
    → IsGood v (step_runs v t d)
unfolding step_runs
step_runs-IsGood v d (answered accepted) queued hc ht once h =
    let f = run_task-Completes v d once h in
    let d' = run_task v d in
    let_go v (record d' { task = gone }) (moved d' d'.caller gone f.once)
      (let_go_at (answered accepted) gone {c = d'.caller} {t = gone} d'.completed
        (f.same_caller ∙ hc) refl tt)
step_runs-IsGood v d returned queued hc ht once h =
    let f = run_task-Completes v d once h in
    let d' = run_task v d in
    let_go v (record d' { task = gone }) (moved d' d'.caller gone f.once)
      (let_go_at (returned) gone {c = d'.caller} {t = gone} d'.completed (f.same_caller ∙ hc) refl
        tt)
step_runs-IsGood v d submitting queued hc ht once h = absurd h
step_runs-IsGood v d (answered queue_full) queued hc ht once h = absurd h
step_runs-IsGood v d (answered stopped) queued hc ht once h = absurd h
step_runs-IsGood v d c fresh hc ht once h = record {
  once = once;
  holds = keeps_at d c fresh d.completed hc ht refl h;
}
step_runs-IsGood v d c gone hc ht once h = record {
  once = once;
  holds = keeps_at d c gone d.completed hc ht refl h;
}

step_drops-IsGood :
    (v : View) (d : Dispatch) (c : Caller) (t : Task)
    → d.caller ≡ c
    → d.task ≡ t
    → IsOnce v d
    → Holds c t d.completed
    → IsGood v (step_drops v t d)
unfolding step_drops
step_drops-IsGood v d (answered accepted) queued hc ht once h =
    let_go v (record d { task = gone }) (moved d d.caller gone once)
      (let_go_at (answered accepted) gone {c = d.caller} {t = gone} d.completed hc refl tt)
step_drops-IsGood v d returned queued hc ht once h =
    let_go v (record d { task = gone }) (moved d d.caller gone once)
      (let_go_at (returned) gone {c = d.caller} {t = gone} d.completed hc refl tt)
step_drops-IsGood v d submitting queued hc ht once h = absurd h
step_drops-IsGood v d (answered queue_full) queued hc ht once h = absurd h
step_drops-IsGood v d (answered stopped) queued hc ht once h = absurd h
step_drops-IsGood v d c fresh hc ht once h = record {
  once = once;
  holds = keeps_at d c fresh d.completed hc ht refl h;
}
step_drops-IsGood v d c gone hc ht once h = record {
  once = once;
  holds = keeps_at d c gone d.completed hc ht refl h;
}

step-IsGood : (v : View) (e : Event) (d : Dispatch) → IsGood v d → IsGood v (step v e d)
unfolding step
step-IsGood v (submits r) d good = step_submits-IsGood v r d good
step-IsGood v returns d good =
    step_returns-IsGood v d d.caller d.task refl refl good.once good.holds
step-IsGood v runs d good = step_runs-IsGood v d d.caller d.task refl refl good.once good.holds
step-IsGood v drops d good = step_drops-IsGood v d d.caller d.task refl refl good.once good.holds

history-IsGood :
    (v : View) (events : List Event) (d : Dispatch) → IsGood v d → IsGood v (history v events d)
unfolding history
history-IsGood v [] d good = good
history-IsGood v (e ∷ events) d good = history-IsGood v events (step v e d) (step-IsGood v e d good)

new_dispatch-IsGood : (v : View) → IsGood v new_dispatch
new_dispatch-IsGood v = ground arith

-- After any sequence of steps of the caller and the executor, however they interleave: the closure of
-- the request was run at most once and the callable invoked at most once; once the caller has returned
-- and the task is gone, a closure that exists was run exactly once.
pub done_runs_once :
    (v : View) (events : List Event)
    → ((history v events new_dispatch).done_runs ≤ 1)
      × ((history v events new_dispatch).invocations ≤ 1)
      × ((history v events new_dispatch).caller ≡ returned
          → (history v events new_dispatch).task ≡ gone
          → v.has_done ≡ true
          → (history v events new_dispatch).done_runs ≡ 1)
done_runs_once v events =
    let good = history-IsGood v events new_dispatch (new_dispatch-IsGood v) in
    (ground (arith, good), ground (arith, good), λ hc ht hd. ground (arith, good))
