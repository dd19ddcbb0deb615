-- ===== src/Inbox/Examples.antt =====
-- judge_inbox.hpp: one message, two judges.
use online_judge.Base.{
  ◌≤◌, ◌≡◌, ◌≢◌, refl, Text, codes, List, [], ◌∷◌, none, some, true, arith, All,
}
use online_judge.Inbox.{claim_script, complete_script, reply_started, reply_done}
use online_judge.Inbox.Lease.{
  Call, claims, completes, step, run, Throughout, Refused, Replays, Foreign, lease_exclusive,
  owner_completes_for_good,
}
use online_judge.Inbox.Calls.{
  Inbox, Redis, up, lost_reply, started, completed, done, claim, complete, key,
}
use online_judge.Inbox.Calls.RoundTrip.{claim_answer, claim-complete-claim}

abbrev first_claim : Call
first_claim = claims (codes "f") (codes "a") 100 160 10

abbrev others : List Call
others =
    claims (codes "f") (codes "b") 100 160 50
    ∷ completes (codes "f") (codes "b") (codes "r") 900 60
    ∷ []

abbrev latecomers : List Call
latecomers =
    claims (codes "f") (codes "c") 100 160 500 ∷ claims (codes "g") (codes "d") 100 160 600 ∷ []

granted : (claim_script (codes "f") (codes "a") 100 160 10 none).0 ≡ reply_started
unfolding claim_script
granted = refl

foreign : All (Foreign (codes "a") 110) others
foreign = (omega arith, ((omega arith, (λ e. ground arith)), tt))

lease_exclusive_example :
    let held = step none first_claim in (run held others ≡ held) × Throughout Refused held others
lease_exclusive_example =
    lease_exclusive none (codes "f") (codes "a") 100 160 10 others (omega arith) granted foreign

owner_completes_for_good_example :
    let held = run (step none first_claim) others in
    let finished = step held (completes (codes "f") (codes "a") (codes "ok") 1000 70) in
    ((complete_script (codes "f") (codes "a") (codes "ok") 1000 70 held).0 ≡ reply_done)
    × (run finished latecomers ≡ finished)
    × Throughout (Replays (codes "f") (codes "ok")) finished latecomers
owner_completes_for_good_example =
    owner_completes_for_good none (codes "f") (codes "a") (codes "ok") 100 160 10 1000 70 others
      latecomers (omega arith) granted foreign (omega arith) (omega arith, (omega arith, tt))

abbrev inbox : Inbox
inbox = record {
  key_prefix = codes "p:";
  completed_ttl_ms = 1000;
  processing_retention_ms = 60;
  connected = true;
}

abbrev empty_redis : Redis
empty_redis k = none

claim_answer_example :
    let c =
      (claim {R = Text} some inbox lost_reply
        (codes "a")
        10
        empty_redis
        (codes "m")
        (codes "f")
        100).0 in
    (500 ≤ c.retry_after_ms)
    × (c.retry_after_ms ≤ 5000)
    × ((c.outcome ≡ started) → (c.claim_token ≡ codes "a") × (c.claim_token ≢ []))
    × ((c.outcome ≢ started) → c.claim_token ≡ [])
claim_answer_example =
    claim_answer some inbox lost_reply (codes "a") 10 empty_redis (codes "m") (codes "f") 100

claim-complete-claim_example :
    let (c, redis₁) =
      claim {R = Text} some inbox up (codes "a") 10 empty_redis (codes "m") (codes "f") 100 in
    let (f, redis₂) =
      complete inbox up 70 redis₁ (codes "m") (codes "f") c.claim_token (some (codes "ok")) in
    let (c', redis₃) =
      claim {R = Text} some inbox up (codes "b") 500 redis₂ (codes "m") (codes "f") 100 in
    (f ≡ done)
    × (c'.outcome ≡ completed)
    × (c'.existing ≡ some (codes "ok"))
    × (redis₃ (key inbox (codes "m")) ≡ redis₂ (key inbox (codes "m")))
unfolding claim claim_script
claim-complete-claim_example =
    claim-complete-claim some inbox (codes "a") (codes "b") 10 70 500 empty_redis (codes "m")
      (codes "f") (codes "ok") 100 100 (codes "ok") refl refl (omega arith) (omega arith)
      (λ e. ground arith) (omega arith)
