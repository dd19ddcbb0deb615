-- ===== src/AdminAudit/Fifo.antt =====
-- AdminAuditWorker: the records that were accepted, and what became of them.
use online_judge.Base.{
  ℕ, suc, ◌≤◌, ◌≡◌, refl, ◌∙◌, sym, ap, subst, List, [], ◌∷◌, ◌++◌, Bool, true, false, leb, not,
  ◌||◌, arith, length, length-append, if_elim,
}
use mathlib.Core.List.{append_assoc}
use online_judge.AdminAudit.{
  Item, Thread, absent, looking, testing, blocked, writing, exited, aborted, AuditWorker, Action,
  enqueues, starts, spawns, stops, joins, works, wakes, notify, is_testing, joined_thread, enqueue,
  start_flag, spawned, stop_flag, join_worker, look, attempt, audit_worker_step, audit_step, run,
  new_audit_worker,
}
use online_judge.AdminAudit.InHand.{
  items_of-append, All-append, push_back, in_hand-notify, tried-notify, in_hand, tried, items_of,
  IsFifo,
}

-- The thread moves without its item, and `running` may change.
thread_moves :
    (w : AuditWorker) (t : Thread) (running : Bool)
    → in_hand t ≡ in_hand w.thread
    → tried t ≤ 2
    → IsFifo w
    → IsFifo (record w { thread = t; running = running })
thread_moves w t running same few fifo = record {
  in_order = rw same fifo.in_order;
  bounded = fifo.bounded;
  all_tried = fifo.all_tried;
  trying = few;
}

notify-IsFifo :
    (w : AuditWorker) (running : Bool)
    → IsFifo w
    → IsFifo (record w { thread = notify w.thread; running = running })
notify-IsFifo w running fifo =
    thread_moves w (notify w.thread) running (in_hand-notify w.thread)
      (rw (tried-notify w.thread) fifo.trying) fifo

enqueue-IsFifo : (item : Item) (w : AuditWorker) → IsFifo w → IsFifo (enqueue item w)
unfolding enqueue
enqueue-IsFifo item w fifo =
    if_elim IsFifo (is_testing w.thread || not w.running || leb w.capacity (length w.queue))
      (λ _. fifo)
      (λ room. record {
        in_order = rw (in_hand-notify w.thread) (
            ap (λ r. r ++ (item ∷ [])) fifo.in_order
            ∙ push_back (items_of w.written) (in_hand w.thread) w.queue item);
        bounded = ground (arith, length-append w.queue (item ∷ []), room);
        all_tried = fifo.all_tried;
        trying = rw (tried-notify w.thread) fifo.trying;
      })

abort-IsFifo :
    (t : Thread) (w : AuditWorker)
    → w.thread ≡ t
    → IsFifo w
    → IsFifo (record w { thread = aborted t })
abort-IsFifo t w h fifo =
    thread_moves w (aborted t) w.running (ap in_hand (sym h))
      (subst (λ x. tried x ≤ 2) h fifo.trying) fifo

in_hand-joined : (t : Thread) → in_hand (joined_thread t) ≡ in_hand t
in_hand-joined absent = refl
in_hand-joined looking = refl
in_hand-joined testing = refl
in_hand-joined blocked = refl
in_hand-joined (writing item failed) = refl
in_hand-joined exited = refl
in_hand-joined (aborted t) = refl

tried-joined : (t : Thread) → tried (joined_thread t) ≡ tried t
tried-joined absent = refl
tried-joined looking = refl
tried-joined testing = refl
tried-joined blocked = refl
tried-joined (writing item failed) = refl
tried-joined exited = refl
tried-joined (aborted t) = refl

spawned-IsFifo :
    (ok : Bool) (t : Thread) (w : AuditWorker) → w.thread ≡ t → IsFifo w → IsFifo (spawned ok t w)
unfolding spawned
spawned-IsFifo false t w h fifo = thread_moves w w.thread false refl fifo.trying fifo
spawned-IsFifo true absent w h fifo =
    thread_moves w looking w.running (rw h refl) (omega arith) fifo
spawned-IsFifo true looking w h fifo = abort-IsFifo looking w h fifo
spawned-IsFifo true testing w h fifo = abort-IsFifo testing w h fifo
spawned-IsFifo true blocked w h fifo = abort-IsFifo blocked w h fifo
spawned-IsFifo true (writing item failed) w h fifo = abort-IsFifo (writing item failed) w h fifo
spawned-IsFifo true exited w h fifo = abort-IsFifo exited w h fifo
spawned-IsFifo true (aborted t) w h fifo = abort-IsFifo (aborted t) w h fifo

join-IsFifo : (w : AuditWorker) → IsFifo w → IsFifo (join_worker w)
unfolding join_worker
join-IsFifo w fifo =
    thread_moves w (joined_thread w.thread) w.running (in_hand-joined w.thread)
      (rw (tried-joined w.thread) fifo.trying) fifo

waiting_at :
    (w : AuditWorker) (t : Thread) (q : List Item)
    → w.thread ≡ t
    → w.queue ≡ q
    → in_hand w.thread ++ w.queue ≡ in_hand t ++ q
waiting_at w t q h e = ap (λ x. in_hand x ++ w.queue) h ∙ ap (λ x. in_hand t ++ x) e

look-IsFifo :
    (q : List Item) (running : Bool) (w : AuditWorker)
    → w.thread ≡ looking
    → w.queue ≡ q
    → IsFifo w
    → IsFifo (look q running w)
unfolding look
look-IsFifo [] true w h e fifo = thread_moves w testing w.running (rw h refl) (omega arith) fifo
look-IsFifo [] false w h e fifo = thread_moves w exited w.running (rw h refl) (omega arith) fifo
look-IsFifo (item ∷ q) running w h e fifo = record {
  in_order =
      fifo.in_order ∙ ap (λ r. items_of w.written ++ r) (waiting_at w looking (item ∷ q) h e);
  bounded = let smaller = ap (λ r. length r) e in ground (arith, smaller, fifo.bounded);
  all_tried = fifo.all_tried;
  trying = omega arith;
}

attempt-IsFifo :
    (answer : Bool) (item : Item) (failed : ℕ) (w : AuditWorker)
    → w.thread ≡ writing item failed
    → IsFifo w
    → IsFifo (attempt answer item failed w)
unfolding attempt
attempt-IsFifo answer item failed w h fifo =
    if_elim IsFifo (answer || leb 2 failed)
      (λ ends. record {
        in_order =
            fifo.in_order
            ∙ ap (λ r. items_of w.written ++ r) (waiting_at w (writing item failed) w.queue h refl)
            ∙ sym (append_assoc (items_of w.written) (item ∷ []) w.queue)
            ∙ ap (λ r. r ++ w.queue)
                (sym (
                  items_of-append w.written
                    (record { item = item; attempts = suc failed; persisted = answer })));
        bounded = fifo.bounded;
        all_tried =
            All-append w.written (record { item = item; attempts = suc failed; persisted = answer })
              fifo.all_tried
              (let few = subst (λ t. tried t ≤ 2) h fifo.trying in ground (arith, few, ends));
        trying = omega arith;
      })
      (λ again. record {
        in_order =
            fifo.in_order
            ∙ ap (λ r. items_of w.written ++ r) (waiting_at w (writing item failed) w.queue h refl);
        bounded = fifo.bounded;
        all_tried = fifo.all_tried;
        trying = ground (arith, again);
      })

audit_worker_step-IsFifo :
    (answer : Bool) (t : Thread) (w : AuditWorker)
    → w.thread ≡ t
    → IsFifo w
    → IsFifo (audit_worker_step answer t w)
unfolding audit_worker_step
audit_worker_step-IsFifo answer looking w h fifo = look-IsFifo w.queue w.running w h refl fifo
audit_worker_step-IsFifo answer testing w h fifo =
    thread_moves w blocked w.running (rw h refl) (omega arith) fifo
audit_worker_step-IsFifo answer (writing item failed) w h fifo =
    attempt-IsFifo answer item failed w h fifo
audit_worker_step-IsFifo answer absent w h fifo = fifo
audit_worker_step-IsFifo answer blocked w h fifo = fifo
audit_worker_step-IsFifo answer exited w h fifo = fifo
audit_worker_step-IsFifo answer (aborted t) w h fifo = fifo

step-IsFifo : (a : Action) (w : AuditWorker) → IsFifo w → IsFifo (audit_step a w)
unfolding audit_step start_flag stop_flag
step-IsFifo (enqueues item) w fifo = enqueue-IsFifo item w fifo
step-IsFifo starts w fifo =
    if_elim IsFifo w.running (λ _. fifo) (λ _. thread_moves w w.thread true refl fifo.trying fifo)
step-IsFifo (spawns ok) w fifo = spawned-IsFifo ok w.thread w refl fifo
step-IsFifo stops w fifo = notify-IsFifo w false fifo
step-IsFifo joins w fifo = join-IsFifo w fifo
step-IsFifo (works answer) w fifo = audit_worker_step-IsFifo answer w.thread w refl fifo
step-IsFifo wakes w fifo = notify-IsFifo w w.running fifo

steps-IsFifo : (actions : List Action) (w : AuditWorker) → IsFifo w → IsFifo (run actions w)
unfolding run
steps-IsFifo [] w fifo = fifo
steps-IsFifo (a ∷ actions) w fifo = steps-IsFifo actions (audit_step a w) (step-IsFifo a w fifo)

-- After any sequence of steps of the worker and its callers, from the start: the records that were
-- accepted are, in the order in which they were accepted, those whose work has ended, then the one that
-- is worked on, then those of the queue, which is within its capacity; each that has ended had one to
-- three attempts, and three if it was not persisted.
pub run-IsFifo :
    (capacity : ℕ) (actions : List Action) → IsFifo (run actions (new_audit_worker capacity))
run-IsFifo capacity actions =
    steps-IsFifo actions (new_audit_worker capacity)
      (record { in_order = refl; bounded = omega arith; all_tried = tt; trying = omega arith })
