-- ===== src/Dispatch/Examples.antt =====
-- async_dispatch.hpp: examples.
use online_judge.Base.{◌≤◌, ◌≡◌, refl, codes, List, [], ◌∷◌, some, true, false, Text-discrete}
use online_judge.Executor.{accepted}
use online_judge.Dispatch.{
  View, Event, submits, returns, runs, drops, returned, gone, new_dispatch, history, is_protobuf,
}
use online_judge.Dispatch.Once.{done_runs_once}

abbrev view : View
view = record {
  has_controller = true;
  http = some (record { is_post = true; content_type = codes "text/html" });
  is_canceled = false;
  has_status = true;
  setting_throws = false;
  has_done = true;
  callable_throws = false;
}

-- The worker runs the task before the caller returns.
abbrev early : List Event
early = submits accepted ∷ runs ∷ returns ∷ []

wrong_type :
    (history view early new_dispatch).status
    ≡ some
        (record { code = 415; message = codes "PROTOBUF_CONTENT_TYPE_REQUIRED"; retryable = false })
unfolding history online_judge.Dispatch.http_refusal Text-discrete
wrong_type = refl

with_charset : is_protobuf (codes "Application/Proto; charset=x") ≡ true
unfolding is_protobuf Text-discrete
with_charset = refl

dropped_task :
    (history view (submits accepted ∷ returns ∷ drops ∷ []) new_dispatch).status
    ≡ some (record { code = 503; message = codes "BUSINESS_EXECUTOR_STOPPED"; retryable = true })
unfolding history online_judge.Dispatch.http_refusal Text-discrete
dropped_task = refl

done_runs_once_example :
    ((history view early new_dispatch).done_runs ≤ 1)
    × ((history view early new_dispatch).invocations ≤ 1)
    × ((history view early new_dispatch).caller ≡ returned
        → (history view early new_dispatch).task ≡ gone
        → view.has_done ≡ true
        → (history view early new_dispatch).done_runs ≡ 1)
done_runs_once_example = done_runs_once view early
