-- ===== src/Inbox/Calls.antt =====
-- judge_inbox.hpp: `Open`, `Claim` and `Complete` around the two scripts.
pub mod RoundTrip
use online_judge.Base.{
  ℕ, ◌+◌, ◌%◌, ◌^◌, Text, ◌=t◌, List, [], ◌++◌, Option, none, some, Bool, true, false, not, ◌||◌,
  ◌==◌, is_empty, if◌then◌else◌, min, max,
}
use online_judge.Base.Hex.{hex_encode}
use online_judge.Inbox.{
  Entry, ClaimReply, CompleteReply, reply_started, reply_conflict, reply_error, reply_processing,
  reply_completed, reply_done, reply_mismatch, reply_not_owner, claim_script, complete_script,
}

pub data ClaimResult : Type 0 where
  started processing completed conflict error : ClaimResult

pub data CompleteResult : Type 0 where
  done not_owner mismatch failed : CompleteResult

pub record Inbox : Type 0 where
  pub key_prefix : Text
  pub completed_ttl_ms : ℕ
  pub processing_retention_ms : ℕ
  pub connected : Bool

abbrev pub Redis : Type 0
Redis = Text → Option Entry

-- What becomes of one round trip to Redis: the script runs and its reply arrives, or an exception
-- is thrown, before the script ran or after it.
pub data Link : Type 0 where
  up lost_request lost_reply : Link

-- What `Claim` returns and writes through its pointers.
pub record Claimed (R : Type 0) : Type 0 where
  pub outcome : ClaimResult
  pub existing : Option R
  pub claim_token : Text
  pub retry_after_ms : ℕ

-- `Key`.
abbrev pub key : Inbox → Text → Text
key inbox message_id = inbox.key_prefix ++ message_id

abbrev pub write : Text → Option Entry → Redis → Redis
write k slot r j = if j =t k then slot else r j

-- `RandomToken` and `PayloadFingerprint` print bytes that OpenSSL made.
pub random_token : Option (List ℕ) → Text
random_token none = []
random_token (some bytes) = hex_encode bytes

pub payload_fingerprint : (Text → List ℕ) → Text → Text
payload_fingerprint sha256 payload = hex_encode (sha256 payload)

-- `Open` throws on an empty address or prefix, a zero time to live, or a failed ping.
pub open_inbox : Text → Text → ℕ → ℕ → Bool → Option Inbox
open_inbox redis_uri key_prefix completed_ttl_ms processing_retention_ms pong =
    if is_empty redis_uri || is_empty key_prefix || completed_ttl_ms == 0
    then none
    else if not pong
    then none
    else some (record {
      key_prefix = key_prefix;
      completed_ttl_ms = completed_ttl_ms;
      processing_retention_ms = processing_retention_ms;
      connected = true;
    })

abbrev clamp_retry : ℕ → ℕ
clamp_retry remaining = max 500 (min 5000 remaining)

-- Written over the result type `R`, with what protobuf parses.
module _ {R : Type 0} (parse : Text → Option R) where
  abbrev plain : ClaimResult → Claimed R
  plain r = record { outcome = r; existing = none; claim_token = []; retry_after_ms = 1000 }

  parsed : Option R → Claimed R
  parsed none = plain error
  parsed (some r) = record {
    outcome = completed;
    existing = some r;
    claim_token = [];
    retry_after_ms = 1000;
  }

  read_claim : Text → ClaimReply → Claimed R
  unfolding parsed
  read_claim owner reply_started = record {
    outcome = started;
    existing = none;
    claim_token = owner;
    retry_after_ms = 1000;
  }
  read_claim owner (reply_processing remaining) = record {
    outcome = processing;
    existing = none;
    claim_token = [];
    retry_after_ms = clamp_retry remaining;
  }
  read_claim owner (reply_completed none) = plain error
  read_claim owner (reply_completed (some payload)) = parsed (parse payload)
  read_claim owner reply_conflict = plain conflict
  read_claim owner reply_error = plain error

  over_link : Link → Text → Text → Redis → ClaimReply × Option Entry → Claimed R × Redis
  unfolding read_claim
  over_link up owner k redis (reply, slot) = (read_claim owner reply, write k slot redis)
  over_link lost_request owner k redis (reply, slot) = (plain error, redis)
  over_link lost_reply owner k redis (reply, slot) = (plain error, write k slot redis)

  -- `Claim`, with the owner token that `RandomToken` drew and the server's time.
  unfoldable pub claim :
      Inbox
      → Link
      → Text
      → ℕ
      → Redis
      → (message_id fingerprint : Text) (lease_ms : ℕ) → Claimed R × Redis
  unfolding over_link
  claim inbox link owner now redis message_id fingerprint lease_ms =
      if is_empty message_id || is_empty fingerprint || lease_ms == 0 || not inbox.connected
      then (plain error, redis)
      else if is_empty owner
      then (plain error, redis)
      else over_link link owner (key inbox message_id) redis (
          claim_script fingerprint owner lease_ms (lease_ms + inbox.processing_retention_ms) now
            (redis (key inbox message_id)))

abbrev read_complete : CompleteReply → CompleteResult
read_complete reply_done = done
read_complete reply_mismatch = mismatch
read_complete reply_not_owner = not_owner

over_link_complete : Link → Text → Redis → CompleteReply × Option Entry → CompleteResult × Redis
over_link_complete up k redis (reply, slot) = (read_complete reply, write k slot redis)
over_link_complete lost_request k redis (reply, slot) = (failed, redis)
over_link_complete lost_reply k redis (reply, slot) = (failed, write k slot redis)

send_complete : Inbox → Link → ℕ → Redis → Text → Text → Text → Option Text → CompleteResult × Redis
unfolding over_link_complete
send_complete inbox link now redis message_id fingerprint claim_token none = (failed, redis)
send_complete inbox link now redis message_id fingerprint claim_token (some payload) =
    over_link_complete link (key inbox message_id) redis (
      complete_script fingerprint claim_token payload inbox.completed_ttl_ms now
        (redis (key inbox message_id)))

-- `Complete`, with the bytes that `SerializeToString` gave, if it succeeded.
pub complete :
    Inbox
    → Link
    → ℕ
    → Redis
    → (message_id fingerprint claim_token : Text) (payload : Option Text) → CompleteResult × Redis
unfolding send_complete
complete inbox link now redis message_id fingerprint claim_token payload =
    if is_empty message_id || is_empty fingerprint || is_empty claim_token || not inbox.connected
    then (failed, redis)
    else send_complete inbox link now redis message_id fingerprint claim_token payload
