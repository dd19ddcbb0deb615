-- ===== src/Auth/Codes/Limits.antt =====
-- A code between its sending and the next: what the calls for one address can find out.
use online_judge.Base.{ℕ, ◌+◌, ◌≤◌, ◌≡◌, Text, List, [], ◌∷◌, arith, tally}
use online_judge.Redis.{Redis, Line, Reach}
use online_judge.Auth.Codes.{
  Answer, ok, Sending, send_email_auth_code, verify_email_auth_code, check_code, auth_code_key,
  auth_attempts_key,
}
use online_judge.Auth.Codes.Guard.{tells, Guard-later}
use online_judge.Auth.Codes.Guesses.{Guarded, check_code-Spent}
use online_judge.Auth.Codes.Issued.{send-Issued, keys_differ}

-- A verification, with what becomes of its commands, or seconds that pass.
pub data Event : Type 0 where
  guesses : Text → List Reach → Event
  passes : ℕ → Event

-- The answers to the verifications, one after the other.
unfoldable pub answers : Text → List Event → Redis → List Answer
answers email [] redis = []
answers email (guesses code reaches ∷ events) redis =
    let (answer, line) =
      verify_email_auth_code email code (record { reaches = reaches; redis = redis }) in
    answer ∷ answers email events line.redis
answers email (passes seconds ∷ events) redis =
    answers email events (record redis { now = redis.now + seconds })

abbrev pub accepts : Answer → ℕ
accepts ok = 1
accepts answer = 0

accepts-tells : (a : Answer) → accepts a ≤ tells a
accepts-tells a = ground arith

spends :
    (a : Answer) (n left t k : ℕ)
    → tells a + left ≤ n
    → (a ≡ ok → left ≡ 0)
    → t ≤ left
    → k ≤ 1
    → k ≤ left
    → (tells a + t ≤ n) × (accepts a + k ≤ 1) × (accepts a + k ≤ n)
spends a n left t k bounded used few once fewer = ground arith

abbrev EmailGuarded : Text → Redis → ℕ → Type 0
EmailGuarded email redis n =
    Guarded (auth_code_key email) (auth_attempts_key email) (keys_differ email) redis n

answers-tell :
    (email : Text) (events : List Event) (redis : Redis) (n : ℕ)
    → EmailGuarded email redis n
    → (tally tells (answers email events redis) ≤ n)
      × (tally accepts (answers email events redis) ≤ 1)
      × (tally accepts (answers email events redis) ≤ n)
unfolding answers verify_email_auth_code
answers-tell email [] redis n g = (omega arith, omega arith, omega arith)
answers-tell email (guesses code reaches ∷ events) redis n g =
    let spent =
      check_code-Spent (auth_code_key email) (auth_attempts_key email) (keys_differ email) n code
        (record { reaches = reaches; redis = redis }) g in
    let (few, once, fewer) =
      answers-tell email events
        (check_code (auth_code_key email) (auth_attempts_key email) code
          (record { reaches = reaches; redis = redis })).1.redis
        spent.left spent.guarded in
    spends
      (check_code (auth_code_key email) (auth_attempts_key email) code
        (record { reaches = reaches; redis = redis })).0
      n spent.left
      (tally tells (
        answers email events
          (check_code (auth_code_key email) (auth_attempts_key email) code
            (record { reaches = reaches; redis = redis })).1.redis))
      (tally accepts (
        answers email events
          (check_code (auth_code_key email) (auth_attempts_key email) code
            (record { reaches = reaches; redis = redis })).1.redis))
      spent.bounded spent.used few once fewer
answers-tell email (passes seconds ∷ events) redis n g =
    answers-tell email events (record redis { now = redis.now + seconds }) n
      (Guard-later redis.now (redis.now + seconds) (redis.keys (auth_code_key email))
        (redis.keys (auth_attempts_key email)) n (omega arith) g)

-- After a sending that answered `true`, until the next sending for the address, if the verifications
-- come one after the other, each ending before the next begins, then whatever codes are tried,
-- whatever time passes and wherever the connection to Redis fails: at most five verifications answer
-- that the code was right or wrong, and at most one accepts it.
pub code_limits :
    (email client_ip : Text) (s : Sending) (line : Line) (events : List Event)
    → (send_email_auth_code email client_ip s line).0 ≡ ok
    → (tally tells (answers email events (send_email_auth_code email client_ip s line).1.redis) ≤ 5)
      × (tally accepts (answers email events (send_email_auth_code email client_ip s line).1.redis)
          ≤ 1)
code_limits email client_ip s line events h =
    let (few, once, fewer) =
      answers-tell email events (send_email_auth_code email client_ip s line).1.redis 5
        (send-Issued email client_ip s line h) in
    (few, once)
