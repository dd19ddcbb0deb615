-- ===== src/AdminAudit.antt =====
-- The queue of audit records, src/oj_server/src/rpc/admin_audit_worker.cpp.
--
-- The worker's wait is taken apart: it tests its condition with the lock held, and blocks in a step of
-- its own, which gives the lock back. `Stop` takes no lock: it stores `running_` and notifies at any
-- moment, then joins. `Start` stores `running_` first and makes the thread in a second step. `submitted`
-- and `written` are the history: the records that were accepted, and the ends of those that were worked
-- on. The pauses between attempts are left out.
pub mod InHand
pub mod Fifo
mod Examples
use online_judge.Base.{
  ℕ, suc, ◌+◌, Text, List, [], ◌∷◌, ◌++◌, Bool, true, false, not, ◌&&◌, ◌||◌, ltb, leb, length,
  if◌then◌else◌,
}

-- `AdminAuditWorker::Item`, and the `AdminAuditLog` that is made of it.
pub record Item : Type 0 where
  pub request_id : Text
  pub admin_id : ℕ
  pub uid : ℕ
  pub role : Text
  pub action : Text
  pub resource_type : Text
  pub result : Text
  pub payload_text : Text

-- Where the thread stands: none, before its test, after a test that failed (it holds the lock),
-- blocked, working on an item after some failed attempts, or at its end. `aborted` is a program that
-- has assigned to a thread that was not joined.
pub data Thread : Type 0 where
  absent : Thread
  looking : Thread
  testing : Thread
  blocked : Thread
  writing : Item → ℕ → Thread
  exited : Thread
  aborted : Thread → Thread

-- The end of the work on an item: the attempts, and whether it was persisted.
pub record Written : Type 0 where
  pub item : Item
  pub attempts : ℕ
  pub persisted : Bool

pub record AuditWorker : Type 0 where
  pub capacity : ℕ
  pub running : Bool
  pub queue : List Item
  pub thread : Thread
  pub submitted : List Item
  pub written : List Written

-- The constructor.
abbrev pub new_audit_worker : ℕ → AuditWorker
new_audit_worker capacity = record {
  capacity = capacity;
  running = false;
  queue = [];
  thread = absent;
  submitted = [];
  written = [];
}

-- A notification reaches a thread that is blocked.
abbrev pub notify : Thread → Thread
notify blocked = looking
notify thread = thread

abbrev pub is_testing : Thread → Bool
is_testing testing = true
is_testing thread = false

-- `Enqueue`: it cannot have the lock while the worker tests.
pub enqueue : Item → AuditWorker → AuditWorker
enqueue item w =
    if is_testing w.thread || not w.running || leb w.capacity (length w.queue)
    then w
    else record w {
      queue = w.queue ++ (item ∷ []);
      submitted = w.submitted ++ (item ∷ []);
      thread = notify w.thread;
    }

-- `Start`: the exchange, then the thread.
pub start_flag : AuditWorker → AuditWorker
start_flag w = if w.running then w else record w { running = true }

pub spawned : Bool → Thread → AuditWorker → AuditWorker
spawned false thread w = record w { running = false }
spawned true absent w = record w { thread = looking }
spawned true thread w = record w { thread = aborted thread }

-- `Stop`: the store with the notification, then the join.
pub stop_flag : AuditWorker → AuditWorker
stop_flag w = record w { running = false; thread = notify w.thread }

abbrev pub joined_thread : Thread → Thread
joined_thread exited = absent
joined_thread thread = thread

pub join_worker : AuditWorker → AuditWorker
join_worker w = record w { thread = joined_thread w.thread }

-- The lock scope of `Run`, up to the block.
pub look : List Item → Bool → AuditWorker → AuditWorker
look [] true w = record w { thread = testing }
look [] false w = record w { thread = exited }
look (item ∷ queue) running w = record w { thread = writing item 0; queue = queue }

-- One attempt of `InsertAdminAuditLog`, with its answer.
pub attempt : Bool → Item → ℕ → AuditWorker → AuditWorker
attempt persisted item failed w =
    if persisted || leb 2 failed
    then record w {
      thread = looking;
      written =
          w.written ++ (record { item = item; attempts = suc failed; persisted = persisted } ∷ []);
    }
    else record w { thread = writing item (suc failed) }

-- One step of the worker; it also wakes without a notification.
pub audit_worker_step : Bool → Thread → AuditWorker → AuditWorker
unfolding look attempt
audit_worker_step answer looking w = look w.queue w.running w
audit_worker_step answer testing w = record w { thread = blocked }
audit_worker_step answer (writing item failed) w = attempt answer item failed w
audit_worker_step answer thread w = w

pub data Action : Type 0 where
  enqueues : Item → Action
  starts : Action
  spawns : Bool → Action
  stops : Action
  joins : Action
  works : Bool → Action
  wakes : Action

pub audit_step : Action → AuditWorker → AuditWorker
unfolding enqueue start_flag spawned stop_flag join_worker audit_worker_step
audit_step (enqueues item) w = enqueue item w
audit_step starts w = start_flag w
audit_step (spawns ok) w = spawned ok w.thread w
audit_step stops w = stop_flag w
audit_step joins w = join_worker w
audit_step (works answer) w = audit_worker_step answer w.thread w
audit_step wakes w = record w { thread = notify w.thread }

pub run : List Action → AuditWorker → AuditWorker
unfolding audit_step
run [] w = w
run (a ∷ actions) w = run actions (audit_step a w)
