-- ===== src/Inbox.antt =====
-- The idempotency inbox of the judge service: src/judge_service/include/judge_inbox.hpp.
--
-- Redis is the environment: a key holds a hash or nothing, `PEXPIRE` makes it vanish at a time, and
-- a script runs atomically at the server's time. The two scripts are in the source and are
-- translated; every key of the prefix is written by them alone. `HGET` of a field that is missing
-- is `none`. What SHA-256, the random generator and protobuf return are parameters.

pub mod Calls
pub mod Lease
mod Examples
use online_judge.Base.{
  ℕ, ◌+◌, ◌*◌, ◌-◌, ◌%◌, Text, ◌=t◌, Text-discrete, codes, List, [], ◌∷◌, ◌++◌, Option, none, some,
  Bool, true, false, not, ◌&&◌, ◌||◌, ltb, leb, ◌==◌, is_empty, if◌then◌else◌, min, max,
}
use online_judge.Base.Hex.{hex_encode}

-- The hash field `state`; the scripts write the first two only.
pub data EntryState : Type 0 where
  processing completed : EntryState
  other_state : Text → EntryState

-- The hash at a key, with the time at which the key expires.
pub record Entry : Type 0 where
  pub state : EntryState
  pub fingerprint : Option Text
  pub owner : Option Text
  pub lease_until : Option ℕ
  pub result : Option Text
  pub expires_at : ℕ

pub data ClaimReply : Type 0 where
  reply_started reply_conflict reply_error : ClaimReply
  reply_processing : ℕ → ClaimReply
  reply_completed : Option Text → ClaimReply

pub data CompleteReply : Type 0 where
  reply_done reply_mismatch reply_not_owner : CompleteReply

abbrev pub holds : Option Text → Text → Bool
holds none t = false
holds (some s) t = s =t t

abbrev or_zero : Option ℕ → ℕ
or_zero none = 0
or_zero (some n) = n

-- Redis: a key whose time has come is gone.
pub live : ℕ → Option Entry → Option Entry
live now none = none
live now (some e) = if leb e.expires_at now then none else some e

-- The tail of `ClaimScript`: the caller becomes the owner.
take_over : Text → Text → ℕ → ℕ → ℕ → ClaimReply × Option Entry
take_over fingerprint owner lease_ms retention_ms now = (
  reply_started,
  some (record {
    state = processing;
    fingerprint = some fingerprint;
    owner = some owner;
    lease_until = some (now + lease_ms);
    result = none;
    expires_at = now + retention_ms;
  }),
)

claim_found : Text → Text → ℕ → ℕ → ℕ → Entry → EntryState → ClaimReply × Option Entry
unfolding take_over
claim_found fingerprint owner lease_ms retention_ms now e completed =
    (reply_completed e.result, some e)
claim_found fingerprint owner lease_ms retention_ms now e (other_state s) = (reply_error, some e)
claim_found fingerprint owner lease_ms retention_ms now e processing =
    if ltb now (or_zero e.lease_until)
    then (reply_processing (or_zero e.lease_until - now), some e)
    else take_over fingerprint owner lease_ms retention_ms now

claim_live : Text → Text → ℕ → ℕ → ℕ → Option Entry → ClaimReply × Option Entry
unfolding claim_found take_over
claim_live fingerprint owner lease_ms retention_ms now none =
    take_over fingerprint owner lease_ms retention_ms now
claim_live fingerprint owner lease_ms retention_ms now (some e) =
    if not (holds e.fingerprint fingerprint)
    then (reply_conflict, some e)
    else claim_found fingerprint owner lease_ms retention_ms now e e.state

-- `ClaimScript`.
pub claim_script : Text → Text → ℕ → ℕ → ℕ → Option Entry → ClaimReply × Option Entry
unfolding claim_live live
claim_script fingerprint owner lease_ms retention_ms now slot =
    claim_live fingerprint owner lease_ms retention_ms now (live now slot)

complete_found : Text → Text → ℕ → ℕ → Entry → EntryState → CompleteReply × Option Entry
complete_found owner result ttl_ms now e completed =
    if holds e.result result then (reply_done, some e) else (reply_not_owner, some e)
complete_found owner result ttl_ms now e (other_state s) = (reply_not_owner, some e)
complete_found owner result ttl_ms now e processing =
    if not (holds e.owner owner) || leb (or_zero e.lease_until) now
    then (reply_not_owner, some e)
    else (
      reply_done,
      some (record e {
        state = completed;
        result = some result;
        owner = none;
        lease_until = none;
        expires_at = now + ttl_ms;
      }),
    )

complete_live : Text → Text → Text → ℕ → ℕ → Option Entry → CompleteReply × Option Entry
unfolding complete_found
complete_live fingerprint owner result ttl_ms now none = (reply_not_owner, none)
complete_live fingerprint owner result ttl_ms now (some e) =
    if not (holds e.fingerprint fingerprint)
    then (reply_mismatch, some e)
    else complete_found owner result ttl_ms now e e.state

-- `CompleteScript`.
pub complete_script : Text → Text → Text → ℕ → ℕ → Option Entry → CompleteReply × Option Entry
unfolding complete_live live
complete_script fingerprint owner result ttl_ms now slot =
    complete_live fingerprint owner result ttl_ms now (live now slot)
