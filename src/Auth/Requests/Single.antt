-- ===== src/Auth/Requests/Single.antt =====
-- Requests with codes: one code, one change.
use online_judge.Base.{ℕ, ◌+◌, ◌≤◌, ◌≡◌, Text, List, [], ◌∷◌, is_empty, arith, tally, if◌then◌else◌}
use online_judge.Redis.{Redis, Line, Reach}
use online_judge.Auth.Codes.{Answer, ok, Sending, send_email_auth_code, verify_email_auth_code}
use online_judge.Auth.Codes.Limits.{Event, guesses, passes, answers, accepts, code_limits}
use online_judge.Auth.Passwords.{Hashing}
use online_judge.Auth.Requests.{Done, Queries, Request, if_verified, carried_out, request_with_code}

-- A request for the address, with what becomes of its commands, or seconds that pass.
pub data Use : Type 0 where
  requests : Queries → Text → Request → List Reach → Use
  waits : ℕ → Use

-- What the requests did, one after the other.
pub uses : Hashing → Text → List Use → Redis → List Done
uses h email [] redis = []
uses h email (requests q code request reaches ∷ rest) redis =
    let (finished, line) =
      request_with_code h q email code request (record { reaches = reaches; redis = redis }) in
    finished ∷ uses h email rest line.redis
uses h email (waits seconds ∷ rest) redis =
    uses h email rest (record redis { now = redis.now + seconds })

-- Whether a request called anything that changes a user.
abbrev pub changes : Done → ℕ
changes d = if is_empty d.effects then 0 else 1

-- The verifications within the requests.
verifications : List Use → List Event
verifications [] = []
verifications (requests q code request reaches ∷ rest) = guesses code reaches ∷ verifications rest
verifications (waits seconds ∷ rest) = passes seconds ∷ verifications rest

if_verified-accepts : (d : Done) (r : Answer × Line) → changes (if_verified d r).0 ≤ accepts r.0
if_verified-accepts d r = ground arith

if_verified-line : (d : Done) (r : Answer × Line) → (if_verified d r).1 ≡ r.1
if_verified-line d r = ground arith

uses-step :
    (h : Hashing) (email : Text) (rest : List Use) (d : Done) (r : Answer × Line)
    → tally changes (uses h email rest r.1.redis)
      ≤ tally accepts (answers email (verifications rest) r.1.redis)
    → changes (if_verified d r).0 + tally changes (uses h email rest (if_verified d r).1.redis)
      ≤ accepts r.0 + tally accepts (answers email (verifications rest) r.1.redis)
uses-step h email rest d r less =
    rw (if_verified-line d r) (omega (arith, less, if_verified-accepts d r))

uses-accepts :
    (h : Hashing) (email : Text) (us : List Use) (redis : Redis)
    → tally changes (uses h email us redis) ≤ tally accepts (answers email (verifications us) redis)
unfolding uses verifications answers request_with_code
uses-accepts h email [] redis = omega arith
uses-accepts h email (requests q code request reaches ∷ rest) redis =
    uses-step h email rest (carried_out h q email request)
      (verify_email_auth_code email code (record { reaches = reaches; redis = redis }))
      (uses-accepts h email rest
        (verify_email_auth_code email code (record { reaches = reaches; redis = redis })).1.redis)
uses-accepts h email (waits seconds ∷ rest) redis =
    uses-accepts h email rest (record redis { now = redis.now + seconds })

-- After a sending that answered `true`, until the next sending for the address, if the requests come
-- one after the other, each verifying its code before the next begins, then whatever the requests and
-- their codes, whatever time passes and wherever the connection to Redis fails: at most one of the
-- requests to log in or register, to change the password or to delete the account calls anything
-- that changes a user.
pub one_change_per_code :
    (h : Hashing) (email client_ip : Text) (s : Sending) (line : Line) (us : List Use)
    → (send_email_auth_code email client_ip s line).0 ≡ ok
    → tally changes (uses h email us (send_email_auth_code email client_ip s line).1.redis) ≤ 1
one_change_per_code h email client_ip s line us issued =
    let (few, once) = code_limits email client_ip s line (verifications us) issued in
    omega
      (arith, once, uses-accepts h email us (send_email_auth_code email client_ip s line).1.redis)
