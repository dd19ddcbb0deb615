-- ===== src/Auth/Codes/Steps.antt =====
-- control_auth.hpp, `VerifyEmailAuthCode`: the verification of a code, one command of Redis at a time,
-- and any number of verifications whose commands interleave.
pub mod Alone
pub mod Ended
use online_judge.Base.{
  ℕ, ◌+◌, Text, List, [], ◌∷◌, Option, none, some, not, leb, ◌==◌, ◌=t◌, if◌then◌else◌,
}
use online_judge.Redis.{Redis, Line, Reach, command, incr, get_key, del, expire}
use online_judge.Auth.Codes.{
  Answer, ok, code_expired, code_mismatch, attempts_exceeded, redis_error, auth_code_key,
  auth_attempts_key,
}

-- The command that a verification sends next, or its answer.
pub data Stage : Type 0 where
  gets : Stage
  counts : Stage
  expires : (attempts : ℕ) → Stage
  drops : Answer → Stage
  drops_attempts : Answer → Stage
  answered : Answer → Stage

-- What follows a command; its exception ends the call.
abbrev pub moved {ℓ} : {A : Type ℓ} → (A → Stage) → Option A × Line → Stage × Line
moved next (none, line) = (answered redis_error, line)
moved next (some a, line) = (next a, line)

abbrev compared : Text → Option Text → Stage
compared code none = answered code_expired
compared code (some cached_code) = if not (cached_code =t code) then counts else drops ok

abbrev limited : ℕ → Stage
limited attempts = if leb 5 attempts then drops attempts_exceeded else answered code_mismatch

abbrev counted : ℕ → Stage
counted attempts = if attempts == 1 then expires attempts else limited attempts

pub verify_step : (code_key attempts_key code : Text) → Stage → Line → Stage × Line
verify_step code_key attempts_key code gets line =
    moved (compared code) (command (get_key code_key) line)
verify_step code_key attempts_key code counts line = moved counted (incr attempts_key line)
verify_step code_key attempts_key code (expires attempts) line =
    moved (λ _. limited attempts) (command (expire attempts_key 300) line)
verify_step code_key attempts_key code (drops answer) line =
    moved (λ _. drops_attempts answer) (command (del code_key) line)
verify_step code_key attempts_key code (drops_attempts answer) line =
    moved (λ _. answered answer) (command (del attempts_key) line)
verify_step code_key attempts_key code (answered answer) line = (answered answer, line)

-- A verification that is not there yet, or runs with its code.
pub data Call : Type 0 where
  idle : Call
  runs : (code : Text) → Stage → Call

pub record Server : Type 0 where
  pub redis : Redis
  pub calls : ℕ → Call

-- A call begins, a call sends its next command, or seconds pass.
pub data Move : Type 0 where
  begins : (call : ℕ) → (code : Text) → Move
  sends : (call : ℕ) → List Reach → Move
  waits : (seconds : ℕ) → Move

abbrev pub set_call : (ℕ → Call) → ℕ → Call → ℕ → Call
set_call calls n call m = if m == n then call else calls m

begun : Text → Call → Call
begun code idle = runs code gets
begun code (runs c stage) = runs c stage

sent : (email : Text) → ℕ → List Reach → Server → Call → Server
unfolding verify_step auth_code_key auth_attempts_key
sent email n reaches s idle = s
sent email n reaches s (runs code stage) =
    let (stage', line) =
      verify_step (auth_code_key email) (auth_attempts_key email) code stage
        (record { reaches = reaches; redis = s.redis }) in
    record { redis = line.redis; calls = set_call s.calls n (runs code stage') }

pub move : (email : Text) → Server → Move → Server
unfolding begun sent
move email s (begins n code) = record s { calls = set_call s.calls n (begun code (s.calls n)) }
move email s (sends n reaches) = sent email n reaches s (s.calls n)
move email s (waits seconds) = record s { redis = record s.redis { now = s.redis.now + seconds } }

unfoldable pub moves : (email : Text) → Server → List Move → Server
unfolding move
moves email s [] = s
moves email s (m ∷ rest) = moves email (move email s m) rest
