-- ===== src/Auth/Codes.antt =====
-- control_auth.hpp: the keys, the sending and the verification of codes. The mail, SHA-256 and the
-- random generator are parameters, as are the local date and time; the time does not move within a call.
pub mod Guard
pub mod Guesses
pub mod Issued
pub mod Limits
pub mod Steps
mod Examples
use online_judge.Base.{
  ℕ, suc, ◌+◌, ◌-◌, ◌*◌, max, Text, codes, List, [], ◌∷◌, ◌++◌, Option, none, some, Bool, true,
  false, not, ltb, leb, is_empty, if◌then◌else◌, ◌=t◌, ◌==◌,
}
use online_judge.Redis.{Redis, Line, command, incr, get_key, exists_key, setex, del, expire}

-- What a call answers: `true`, or `false` with its `err_code`.
pub data Answer : Type 0 where
  ok : Answer
  code_expired code_mismatch attempts_exceeded redis_error : Answer
  too_many_requests email_daily_limit ip_daily_limit csprng_failed mail_send_failed : Answer
  same_email email_already_exists update_email_failed load_user_failed : Answer
  weak_password password_hash_failed update_password_failed delete_user_failed : Answer
  register_name_required create_user_failed : Answer

-- `catch (const sw::redis::Error&)`: what follows a command, if it did not throw.
abbrev pub or_redis_error {ℓ} :
    {A : Type ℓ} → (A → Line → Answer × Line) → Option A × Line → Answer × Line
or_redis_error next (none, line) = (redis_error, line)
or_redis_error next (some a, line) = next a line

-- `BuildAuthCodeKey`, `BuildAuthAttemptsKey` and `BuildAuthCooldownKey`.
pub auth_code_key : Text → Text
auth_code_key email = codes "oj:auth:code:" ++ email

pub auth_attempts_key : Text → Text
auth_attempts_key email = codes "oj:auth:attempts:" ++ email

pub auth_cooldown_key : Text → Text
auth_cooldown_key email = codes "oj:auth:cooldown:" ++ email

-- `BuildAuthEmailDailyLimitKey` and `BuildAuthIpDailyLimitKey`, with `CurrentDateTag`.
pub email_daily_limit_key : (date email : Text) → Text
email_daily_limit_key date email = codes "oj:auth:limit:email:" ++ email ++ codes ":" ++ date

pub ip_daily_limit_key : (date ip : Text) → Text
ip_daily_limit_key date ip = codes "oj:auth:limit:ip:" ++ ip ++ codes ":" ++ date

-- `SecondsUntilDayEnd`, at a local time.
pub seconds_until_day_end : (hour minute second : ℕ) → ℕ
seconds_until_day_end hour minute second =
    max 60 ((23 - hour) * 3600 + (59 - minute) * 60 + (60 - second))

-- The two deletions after a code was right, or wrong too often.
pub drop_code : (code_key attempts_key : Text) → Answer → Line → Answer × Line
drop_code code_key attempts_key answer line =
    or_redis_error
      (λ _ line'. or_redis_error (λ _ line''. (answer, line'')) (command (del attempts_key) line'))
      (command (del code_key) line)

-- A wrong code, after INCR and EXPIRE.
pub count_attempt : (code_key attempts_key : Text) → ℕ → Line → Answer × Line
unfolding drop_code
count_attempt code_key attempts_key attempts line =
    if leb 5 attempts
    then drop_code code_key attempts_key attempts_exceeded line
    else (code_mismatch, line)

-- A wrong code, after INCR.
pub start_attempts : (code_key attempts_key : Text) → ℕ → Line → Answer × Line
unfolding count_attempt
start_attempts code_key attempts_key attempts line =
    if attempts == 1
    then or_redis_error (λ _ line'. count_attempt code_key attempts_key attempts line')
        (command (expire attempts_key 300) line)
    else count_attempt code_key attempts_key attempts line

pub compare_code : (code_key attempts_key code : Text) → Option Text → Line → Answer × Line
unfolding start_attempts drop_code
compare_code code_key attempts_key code none line = (code_expired, line)
compare_code code_key attempts_key code (some cached_code) line =
    if not (cached_code =t code)
    then or_redis_error (λ attempts line'. start_attempts code_key attempts_key attempts line')
        (incr attempts_key line)
    else drop_code code_key attempts_key ok line

-- The verification of a code that is kept under the keys.
pub check_code : (code_key attempts_key code : Text) → Line → Answer × Line
unfolding compare_code
check_code code_key attempts_key code line =
    or_redis_error (λ cached line'. compare_code code_key attempts_key code cached line')
      (command (get_key code_key) line)

-- `VerifyEmailAuthCode`.
pub verify_email_auth_code : (email code : Text) → Line → Answer × Line
unfolding check_code auth_code_key auth_attempts_key
verify_email_auth_code email code line =
    check_code (auth_code_key email) (auth_attempts_key email) code line

-- What the outside gives to the sending of a code: the date and the seconds left of the day, the code
-- of `GenerateAuthCode`, and whether the mail was sent.
pub record Sending : Type 0 where
  pub date : Text
  pub seconds_left : ℕ
  pub code : Text
  pub mailed : Bool

-- One of the two daily limits: INCR, EXPIRE for the first of the day, and the comparison.
pub daily_limit :
    (key : Text) (seconds_left limit : ℕ) → Answer → (Line → Answer × Line) → Line → Answer × Line
daily_limit key seconds_left limit refusal next line =
    or_redis_error
      (λ count line'.
        let refuse_or_go =
          λ (line'' : Line). if ltb limit count then (refusal, line'') else next line'' in
        if count == 1
        then or_redis_error (λ _ line''. refuse_or_go line'')
            (command (expire key seconds_left) line')
        else refuse_or_go line')
      (incr key line)

-- After a mail that was not sent.
pub take_back : (code_key attempts_key cooldown_key : Text) → Line → Answer × Line
take_back code_key attempts_key cooldown_key line =
    or_redis_error
      (λ _ line'.
        or_redis_error
          (λ _ line''.
            or_redis_error (λ _ line'''. (mail_send_failed, line'''))
              (command (del cooldown_key) line''))
          (command (del attempts_key) line'))
      (command (del code_key) line)

-- The code is stored, and mailed.
pub store_code : (code_key attempts_key cooldown_key : Text) → Sending → Line → Answer × Line
unfolding take_back
store_code code_key attempts_key cooldown_key s line =
    or_redis_error
      (λ _ line'.
        or_redis_error
          (λ _ line''.
            if not s.mailed
            then take_back code_key attempts_key cooldown_key line''
            else (ok, line''))
          (command (del attempts_key) line'))
      (command (setex code_key 300 s.code) line)

-- The part of `SendEmailAuthCode` behind the limits.
pub issue_code : (email : Text) → Sending → Line → Answer × Line
unfolding store_code auth_code_key auth_attempts_key auth_cooldown_key
issue_code email s line =
    or_redis_error
      (λ _ line'.
        if is_empty s.code
        then or_redis_error (λ _ line''. (csprng_failed, line''))
            (command (del (auth_cooldown_key email)) line')
        else store_code (auth_code_key email) (auth_attempts_key email) (auth_cooldown_key email) s
            line')
      (command (setex (auth_cooldown_key email) 60 (codes "1")) line)

-- `SendEmailAuthCode`.
unfoldable pub send_email_auth_code : (email client_ip : Text) → Sending → Line → Answer × Line
unfolding issue_code daily_limit auth_cooldown_key email_daily_limit_key ip_daily_limit_key
send_email_auth_code email client_ip s line =
    or_redis_error
      (λ cooling line'.
        if cooling
        then (too_many_requests, line')
        else daily_limit (email_daily_limit_key s.date email) s.seconds_left 20 email_daily_limit
            (daily_limit (ip_daily_limit_key s.date client_ip) s.seconds_left 50 ip_daily_limit
              (issue_code email s))
            line')
      (command (exists_key (auth_cooldown_key email)) line)
