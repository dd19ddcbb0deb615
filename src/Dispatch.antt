-- ===== src/Dispatch.antt =====
-- Asynchronous dispatch, src/oj_server/include/rpc/async_dispatch.hpp: the task that a request puts on
-- the executor, and the completion that the caller and the task share.
--
-- Each exchange of `completed_` with what its winner does is one atomic step, as is the run of the
-- task; the steps of the caller and of the executor's worker come in any order. The latency timer and
-- the log of a saturated executor are left out.
pub mod Completes
pub mod Once
mod Examples
use online_judge.Base.{
  ℕ, suc, ◌+◌, Text, codes, List, [], ◌∷◌, map, Option, none, some, Bool, true, false, not, ◌&&◌,
  ◌||◌, if◌then◌else◌, ◌==◌, ◌=t◌,
}
use online_judge.Comm.{between}
use online_judge.Executor.{SubmitResult, accepted, queue_full, stopped}

pub record HttpRequest : Type 0 where
  pub is_post : Bool
  pub content_type : Text

-- What the task finds of its request: whether there is a controller, the HTTP request that a brpc
-- controller has, whether it was cancelled, whether the response has a status that can be set, whether
-- setting it throws, whether there is a closure, and whether the callable throws.
pub record View : Type 0 where
  pub has_controller : Bool
  pub http : Option HttpRequest
  pub is_canceled : Bool
  pub has_status : Bool
  pub setting_throws : Bool
  pub has_done : Bool
  pub callable_throws : Bool

-- `StatusResponse`.
pub record Status : Type 0 where
  pub code : ℕ
  pub message : Text
  pub retryable : Bool

-- Who holds the completion: the caller, until `AsyncDispatch` returns, and the task.
pub data Caller : Type 0 where
  submitting : Caller
  answered : SubmitResult → Caller
  returned : Caller

pub data Task : Type 0 where
  fresh : Task
  queued : Task
  gone : Task

-- One request: `completed_`, how often the closure was run and the callable invoked, the status and
-- the failure that were set, the HTTP status, and the two holders.
pub record Dispatch : Type 0 where
  pub completed : Bool
  pub done_runs : ℕ
  pub invocations : ℕ
  pub status : Option Status
  pub failed : Option Text
  pub http_status : Option ℕ
  pub caller : Caller
  pub task : Task

abbrev pub new_dispatch : Dispatch
new_dispatch = record {
  completed = false;
  done_runs = 0;
  invocations = 0;
  status = none;
  failed = none;
  http_status = none;
  caller = submitting;
  task = fresh;
}

abbrev set_failed : View → Text → Dispatch → Dispatch
set_failed v message d = if v.has_controller then record d { failed = some message } else d

-- `SetDispatchFailure`.
pub set_dispatch_failure : View → Status → Dispatch → Dispatch
set_dispatch_failure v status d =
    if v.has_status
    then if v.setting_throws
      then set_failed v (codes "RPC_DISPATCH_FAILURE") d
      else record d { status = some status }
    else set_failed v status.message d

-- `RunDone`.
pub run_done : View → Dispatch → Dispatch
run_done v d = if v.has_done then record d { done_runs = suc d.done_runs } else d

-- `Finish`.
pub finish : View → Dispatch → Dispatch
unfolding run_done
finish v d = if d.completed then d else run_done v (record d { completed = true })

-- `Fail`.
pub fail : View → (code : ℕ) (message : Text) (retryable : Bool) → Dispatch → Dispatch
unfolding run_done set_dispatch_failure
fail v code message retryable d =
    if d.completed
    then d
    else run_done v (
        set_dispatch_failure v (record { code = code; message = message; retryable = retryable })
          (record d { completed = true }))

-- The content type up to its first `;`, in lower case.
abbrev to_lower : ℕ → ℕ
to_lower c = if between b'A' b'Z' c then c + 32 else c

pub media_type : Text → Text
media_type [] = []
media_type (c ∷ cs) = let rest = media_type cs in if c == b';' then [] else to_lower c ∷ rest

pub is_protobuf : Text → Bool
unfolding media_type
is_protobuf content_type =
    let media = media_type content_type in
    media =t codes "application/proto"
    || media =t codes "application/protobuf"
    || media =t codes "application/octet-stream"

-- What the task checks of an HTTP request before it runs: the code of the refusal.
pub http_refusal : Option HttpRequest → Option Status
unfolding is_protobuf
http_refusal none = none
http_refusal (some request) =
    if not request.is_post
    then some (record { code = 405; message = codes "METHOD_NOT_ALLOWED"; retryable = false })
    else if not (is_protobuf request.content_type)
    then some
        (record { code = 415; message = codes "PROTOBUF_CONTENT_TYPE_REQUIRED"; retryable = false })
    else none

-- The end of the task: the callable, with the exception that it may throw.
pub invoke : View → Dispatch → Dispatch
unfolding fail finish
invoke v d =
    let d' = record d { invocations = suc d.invocations } in
    if v.callable_throws then fail v 500 (codes "INTERNAL_ERROR") false d' else finish v d'

pub task_after_http : View → Option Status → Dispatch → Dispatch
unfolding fail invoke
task_after_http v (some refusal) d =
    fail v refusal.code refusal.message refusal.retryable
      (record d { http_status = some refusal.code })
task_after_http v none d =
    if v.has_controller && v.is_canceled
    then fail v 499 (codes "REQUEST_CANCELLED") false d
    else invoke v d

-- The task.
pub run_task : View → Dispatch → Dispatch
unfolding task_after_http
run_task v d = task_after_http v (http_refusal (if v.has_controller then v.http else none)) d

-- `~DispatchCompletion`, when the last holder has let go.
pub destroy_if_last : View → Caller → Task → Dispatch → Dispatch
unfolding fail
destroy_if_last v returned gone d = fail v 503 (codes "BUSINESS_EXECUTOR_STOPPED") true d
destroy_if_last v caller task d = d

abbrev pub release : View → Dispatch → Dispatch
release v d = destroy_if_last v d.caller d.task d

pub data Event : Type 0 where
  submits : SubmitResult → Event
  returns : Event
  runs : Event
  drops : Event

-- `executor.Submit(task)`: the executor keeps the task, or the task is destroyed with the call.
pub submit_task : SubmitResult → Dispatch → Dispatch
submit_task accepted d = record d { caller = answered accepted; task = queued }
submit_task refusal d = record d { caller = answered refusal; task = gone }

-- The rest of `AsyncDispatch`, after `Submit` has answered.
pub after_submit : View → SubmitResult → Dispatch → Dispatch
unfolding fail
after_submit v accepted d = d
after_submit v queue_full d = fail v 503 (codes "BUSINESS_QUEUE_FULL") true d
after_submit v stopped d = fail v 503 (codes "BUSINESS_EXECUTOR_STOPPED") true d

pub step_submits : SubmitResult → Caller → Dispatch → Dispatch
unfolding submit_task
step_submits result submitting d = submit_task result d
step_submits result caller d = d

pub step_returns : View → Caller → Dispatch → Dispatch
unfolding after_submit destroy_if_last
step_returns v (answered result) d =
    let d' = after_submit v result d in release v (record d' { caller = returned })
step_returns v caller d = d

pub step_runs : View → Task → Dispatch → Dispatch
unfolding run_task destroy_if_last
step_runs v queued d = let d' = run_task v d in release v (record d' { task = gone })
step_runs v task d = d

-- The executor destroys the task without running it.
pub step_drops : View → Task → Dispatch → Dispatch
unfolding destroy_if_last
step_drops v queued d = release v (record d { task = gone })
step_drops v task d = d

-- One step; a step that does not start here changes nothing.
pub step : View → Event → Dispatch → Dispatch
unfolding step_submits step_returns step_runs step_drops
step v (submits result) d = step_submits result d.caller d
step v returns d = step_returns v d.caller d
step v runs d = step_runs v d.task d
step v drops d = step_drops v d.task d

pub history : View → List Event → Dispatch → Dispatch
unfolding step
history v [] d = d
history v (e ∷ events) d = history v events (step v e d)
