-- ===== src/AdminAudit/InHand.antt =====
-- AdminAuditWorker: the item that the thread works on, and the ends of the work.
use online_judge.Base.{ℕ, ◌≤◌, ◌≡◌, refl, ◌∙◌, ap, List, [], ◌∷◌, ◌++◌, false, length, All}
use mathlib.Core.List.{append_assoc}
use online_judge.AdminAudit.{
  Item, Thread, absent, looking, testing, blocked, writing, exited, aborted, Written, AuditWorker,
  notify,
}

-- The item that the thread works on.
abbrev pub in_hand : Thread → List Item
in_hand (writing item failed) = item ∷ []
in_hand (aborted thread) = in_hand thread
in_hand thread = []

abbrev pub tried : Thread → ℕ
tried (writing item failed) = failed
tried (aborted thread) = tried thread
tried thread = 0

abbrev pub items_of : List Written → List Item
items_of [] = []
items_of (x ∷ xs) = x.item ∷ items_of xs

-- At most three attempts, and less than three only for an item that was persisted.
pub record IsTried (x : Written) : Type 0 where
  pub some_attempt : 1 ≤ x.attempts
  pub at_most_three : x.attempts ≤ 3
  pub given_up : x.persisted ≡ false → x.attempts ≡ 3

pub record IsFifo (w : AuditWorker) : Type 0 where
  pub in_order : w.submitted ≡ items_of w.written ++ (in_hand w.thread ++ w.queue)
  pub bounded : length w.queue ≤ w.capacity
  pub all_tried : All IsTried w.written
  pub trying : tried w.thread ≤ 2

pub items_of-append :
    (xs : List Written) (x : Written) → items_of (xs ++ (x ∷ [])) ≡ items_of xs ++ (x.item ∷ [])
items_of-append [] x = refl
items_of-append (y ∷ xs) x = ap (λ r. y.item ∷ r) (items_of-append xs x)

pub All-append :
    (xs : List Written) (x : Written) → All IsTried xs → IsTried x → All IsTried (xs ++ (x ∷ []))
All-append [] x all h = (h, tt)
All-append (y ∷ xs) x (here, all) h = (here, All-append xs x all h)

pub push_back :
    (a h q : List Item) (x : Item) → (a ++ (h ++ q)) ++ (x ∷ []) ≡ a ++ (h ++ (q ++ (x ∷ [])))
push_back a h q x = append_assoc a (h ++ q) (x ∷ []) ∙ ap (λ r. a ++ r) (append_assoc h q (x ∷ []))

pub in_hand-notify : (t : Thread) → in_hand (notify t) ≡ in_hand t
in_hand-notify absent = refl
in_hand-notify looking = refl
in_hand-notify testing = refl
in_hand-notify blocked = refl
in_hand-notify (writing item failed) = refl
in_hand-notify exited = refl
in_hand-notify (aborted t) = refl

pub tried-notify : (t : Thread) → tried (notify t) ≡ tried t
tried-notify absent = refl
tried-notify looking = refl
tried-notify testing = refl
tried-notify blocked = refl
tried-notify (writing item failed) = refl
tried-notify exited = refl
tried-notify (aborted t) = refl
