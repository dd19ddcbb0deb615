-- ===== src/Inbox/Calls/RoundTrip.antt =====
-- judge_inbox.hpp: `Claim` and `Complete` as a judge calls them.
use online_judge.Base.{ℕ, ◌+◌, ◌≤◌, ◌<◌, ◌≡◌, ◌≢◌, Text, Option, some, arith, []}
use online_judge.Inbox.{claim_script, complete_script}
use online_judge.Inbox.Calls.{
  Inbox, Redis, Link, up, started, completed, done, claim, complete, key,
}

module _ {R : Type 0} (parse : Text → Option R) where
  -- Every claim, whatever happens on the way to Redis and back, asks for a retry after half a second
  -- to five seconds, and hands out a token exactly when it answers `Started`.
  pub claim_answer :
      (inbox : Inbox) (link : Link) (owner : Text) (now : ℕ) (redis : Redis)
      (message_id fingerprint : Text) (lease_ms : ℕ)
      → let c = (claim parse inbox link owner now redis message_id fingerprint lease_ms).0 in
        (500 ≤ c.retry_after_ms)
        × (c.retry_after_ms ≤ 5000)
        × ((c.outcome ≡ started) → (c.claim_token ≡ owner) × (c.claim_token ≢ []))
        × ((c.outcome ≢ started) → c.claim_token ≡ [])
  unfolding claim
  claim_answer inbox link owner now redis message_id fingerprint lease_ms =
      (ground arith, ground arith, ground arith, ground arith)

  -- A judge that claims a message and is started, and completes it with the token it was given
  -- before its lease ends, stores its result: a claim of the same payload before the result's time
  -- to live is over returns the result as protobuf reads it back, and leaves Redis as it is.
  pub claim-complete-claim :
      (inbox : Inbox) (owner other : Text) (now later again : ℕ) (redis : Redis)
      (message_id fingerprint payload : Text) (lease_ms lease_ms' : ℕ) (r : R)
      → parse payload ≡ some r
      → (claim parse inbox up owner now redis message_id fingerprint lease_ms).0.outcome ≡ started
      → later < now + lease_ms
      → again < later + inbox.completed_ttl_ms
      → other ≢ []
      → 0 < lease_ms'
      → let (c, redis₁) = claim parse inbox up owner now redis message_id fingerprint lease_ms in
        let (f, redis₂) =
          complete inbox up later redis₁ message_id fingerprint c.claim_token (some payload) in
        let (c', redis₃) =
          claim parse inbox up other again redis₂ message_id fingerprint lease_ms' in
        (f ≡ done)
        × (c'.outcome ≡ completed)
        × (c'.existing ≡ some r)
        × (redis₃ (key inbox message_id) ≡ redis₂ (key inbox message_id))
  unfolding claim complete claim_script complete_script
  claim-complete-claim inbox owner other now later again redis message_id fingerprint payload
        lease_ms lease_ms' r p g t a o l =
      (ground arith, ground arith, ground arith, ground arith)
