-- ===== src/AdminAudit/Examples.antt =====
-- admin_audit_worker.cpp: examples.
use online_judge.Base.{◌≡◌, refl, codes, false, List, [], ◌∷◌, true}
use online_judge.AdminAudit.InHand.{IsFifo}
use online_judge.AdminAudit.Fifo.{run-IsFifo}
use online_judge.AdminAudit.{
  Item, enqueues, Action, blocked, starts, spawns, stops, works, joins, new_audit_worker, run,
}

-- `Stop` between the worker's test and its block: the notification is lost, and the worker sleeps on.
abbrev lost_wakeup : List Action
lost_wakeup = starts ∷ spawns true ∷ works true ∷ stops ∷ works true ∷ works true ∷ joins ∷ []

sleeps_on : (run lost_wakeup (new_audit_worker 9)).thread ≡ blocked
unfolding run
sleeps_on = refl

abbrev record_of : Item
record_of = record {
  request_id = codes "r1";
  admin_id = 1;
  uid = 7;
  role = codes "admin";
  action = codes "delete";
  resource_type = codes "question";
  result = codes "ok";
  payload_text = [];
}

-- The second attempt succeeds; another record waits.
abbrev retried : List Action
retried =
    starts
    ∷ spawns true
    ∷ enqueues record_of
    ∷ enqueues record_of
    ∷ works true
    ∷ works false
    ∷ works true
    ∷ []

run-IsFifo_example : IsFifo (run retried (new_audit_worker 2))
run-IsFifo_example = run-IsFifo 2 retried
