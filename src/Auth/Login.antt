-- ===== src/Auth/Login.antt =====
-- control_auth.hpp: the log-in with a password, and the limits on its attempts. The queries of
-- src/oj_server/include/model/model_user.hpp are parameters; the two Lua scripts run atomically. A
-- counter that holds a text stands for one that the script finds invalid.
pub mod Locks
pub mod Lockout
mod Examples
use online_judge.Base.{
  ℕ, zero, suc, ◌+◌, ◌-◌, ◌*◌, ◌^◌, min, Text, codes, List, [], ◌∷◌, ◌++◌, Option, none, some, Bool,
  true, false, not, ◌&&◌, ◌||◌, ltb, leb, ◌==◌, ◌=t◌, is_empty, is_some, length, if◌then◌else◌,
}
use online_judge.Redis.{
  Redis, Entry, Line, command, text, number, find_key, put_key, incremented, expiring, setex, del,
}
use online_judge.Auth.Passwords.{
  Hashing, sha256_hex, verify_password_hash, derive_password_digest, password_algo_tag,
  password_iterations, dollar,
}
use online_judge.Base.Decimal.{to_string}
use online_judge.Base.Int.{ℤ, pos, negsuc}

-- `LoginRateKey`.
pub login_rate_key : Hashing → (scope dimension value suffix : Text) → Text
login_rate_key h scope dimension value suffix =
    codes "oj:auth:password:"
    ++ (scope
        ++ (codes ":"
            ++ (dimension ++ (codes ":" ++ (sha256_hex h value ++ (codes ":" ++ suffix))))))

-- The four keys of one attempt.
pub record RateKeys : Type 0 where
  pub account_attempts : Text
  pub account_lock : Text
  pub ip_attempts : Text
  pub ip_lock : Text

pub rate_keys : Hashing → (scope account client_ip : Text) → RateKeys
rate_keys h scope account client_ip = record {
  account_attempts = login_rate_key h scope (codes "account") account (codes "attempts");
  account_lock = login_rate_key h scope (codes "account") account (codes "lock");
  ip_attempts = login_rate_key h scope (codes "ip") client_ip (codes "attempts");
  ip_lock = login_rate_key h scope (codes "ip") client_ip (codes "lock");
}

-- `kCheckScript`.
abbrev pub check_script : RateKeys → Redis → Bool × Redis
check_script k redis =
    (not (is_some (find_key k.account_lock redis) || is_some (find_key k.ip_lock redis)), redis)

-- `kFailureScript`: `validate`, `record` without and with its lock, and the script. The reply is
-- `none` for an error.
abbrev pub is_counter : Option Entry → Bool
is_counter none = true
is_counter (some entry) = elim entry.value [ number n ↦ true | _ ↦ false ]

pub lock_seconds : (attempts threshold : ℕ) → ℕ
lock_seconds attempts threshold = min 900 (5 * 2 ^ min 6 (attempts - threshold))

abbrev pub lock_if_due : Text → (attempts threshold : ℕ) → Redis → Redis
lock_if_due lock_key attempts threshold redis =
    if leb threshold attempts
    then (setex lock_key (lock_seconds attempts threshold) (codes "1") redis).1
    else redis

abbrev pub started_window : Text → ℕ → Redis → Redis
started_window attempts_key attempts redis =
    if attempts == 1
    then put_key attempts_key (expiring (redis.now + 900) (find_key attempts_key redis)) redis
    else redis

pub record_attempt : (attempts_key lock_key : Text) → ℕ → Option (ℕ × Entry) → Redis → Redis
record_attempt attempts_key lock_key threshold none redis = redis
record_attempt attempts_key lock_key threshold (some (attempts, entry)) redis =
    lock_if_due lock_key attempts threshold
      (started_window attempts_key attempts (put_key attempts_key (some entry) redis))

abbrev pub record_one : (attempts_key lock_key : Text) → ℕ → Redis → Redis
record_one attempts_key lock_key threshold redis =
    record_attempt attempts_key lock_key threshold (incremented (find_key attempts_key redis)) redis

pub failure_script : RateKeys → Redis → Bool × Redis
failure_script k redis =
    if not (is_counter (find_key k.account_attempts redis))
      || not (is_counter (find_key k.ip_attempts redis))
    then (false, redis)
    else (
      true,
      record_one k.ip_attempts k.ip_lock 50 (record_one k.account_attempts k.account_lock 5 redis),
    )

-- The queries of the user model: the address of a user name, the hash and its algorithm of an address,
-- and whether the user of an address loads.
pub record Accounts : Type 0 where
  pub email_of_name : Text → Option Text
  pub password_auth : Text → Option (Text × Text)
  pub loads : Text → Bool

-- What `LoginWithPassword` answers; `logged_in` with the resolved address.
pub data LoginAnswer : Type 0 where
  logged_in : Text → LoginAnswer
  too_many_requests invalid_credentials redis_error load_user_failed : LoginAnswer

pub record Account : Type 0 where
  pub email : Text
  pub password_hash : Text
  pub password_algo : Text

abbrev account_at : Text → Option (Text × Text) → Option Account
account_at email none = none
account_at email (some (hash, algo)) =
    some (record { email = email; password_hash = hash; password_algo = algo })

abbrev or_else : Option Account → Option Account → Option Account
or_else none other = other
or_else (some account) other = some account

abbrev by_name : Accounts → Option Text → Option Account
by_name a none = none
by_name a (some email) = account_at email (a.password_auth email)

-- The look-up by name, and then by address.
pub resolve_account : Accounts → Text → Option Account
resolve_account a email_or_username =
    or_else (by_name a (a.email_of_name email_or_username))
      (account_at email_or_username (a.password_auth email_or_username))

abbrev thirty_two_zeros : Text
thirty_two_zeros = codes "00000000000000000000000000000000"

-- `DummyPasswordHash`.
pub dummy_password_hash : Hashing → Text
dummy_password_hash h =
    thirty_two_zeros
    ++ (dollar
        ++ (to_string password_iterations
            ++ (dollar
                ++ derive_password_digest h (codes "invalid-password") thirty_two_zeros
                    password_iterations)))

-- `has_password`, with the account.
abbrev pub with_password : Option Account → Option Account
with_password none = none
with_password (some account) =
    if not (is_empty account.password_hash) && (account.password_algo =t password_algo_tag)
    then some account
    else none

abbrev stored_hash : Hashing → Option Account → Text
stored_hash h none = dummy_password_hash h
stored_hash h (some account) = account.password_hash

-- The account whose password is right.
pub matching_account : Hashing → Option Account → (password : Text) → Option Account
matching_account h account password =
    let candidate_size_valid = leb (length password) 72 in
    let password_matches =
      verify_password_hash h (if candidate_size_valid then password else codes "invalid-password")
        (stored_hash h account) password_algo_tag in
    if not candidate_size_valid || not password_matches then none else account

abbrev pub after {ℓ} :
    {A : Type ℓ} → (A → Line → LoginAnswer × Line) → Option A × Line → LoginAnswer × Line
after next (none, line) = (redis_error, line)
after next (some a, line) = next a line

-- The end of a log-in: the failure is recorded, or the account's attempts are cleared.
pub judged_login : Accounts → RateKeys → Option Account → Line → LoginAnswer × Line
judged_login a k none line =
    after (λ recorded line'. ((if recorded then invalid_credentials else redis_error), line'))
      (command (failure_script k) line)
judged_login a k (some account) line =
    after
      (λ _ line'.
        after
          (λ _ line''.
            ((if a.loads account.email then logged_in account.email else load_user_failed), line''))
          (command (del k.account_lock) line'))
      (command (del k.account_attempts) line)

-- `LoginWithPassword`; the time of the last log-in that it stores is left out.
pub login_with_password :
    Hashing → Accounts → (email_or_username password client_ip : Text) → Line → LoginAnswer × Line
login_with_password h a email_or_username password client_ip line =
    let k = rate_keys h (codes "user") email_or_username client_ip in
    after
      (λ allowed line'.
        if not allowed
        then (too_many_requests, line')
        else judged_login a k
            (matching_account h (with_password (resolve_account a email_or_username)) password)
            line')
      (command (check_script k) line)

-- `LoginAdminWithIdAndPassword`, `none` for INVALID_ARGUMENT: the hash of the administrator, and whether the user of its account
-- loads. The ends are those of a log-in, with the number as the account.
abbrev pub admin_account : Text → Option Text → Option Account
admin_account account none = none
admin_account account (some hash) =
    some (record { email = account; password_hash = hash; password_algo = password_algo_tag })

abbrev admin_loads : Bool → Accounts
admin_loads user_loads = record {
  email_of_name = λ name. none;
  password_auth = λ email. none;
  loads = λ email. user_loads;
}

pub login_admin :
    Hashing
    → (password_hash : Option Text) → (user_loads : Bool) → (admin_id : ℤ)
    → (password client_ip : Text) → Line
    → Option (LoginAnswer × Line)
login_admin h password_hash user_loads (negsuc n) password client_ip line = none
login_admin h password_hash user_loads (pos n) password client_ip line =
    let account = to_string n in
    let k = rate_keys h (codes "admin") account client_ip in
    let a = admin_loads user_loads in
    if n == 0 || is_empty password
    then none
    else some (
        after
          (λ allowed line'.
            if not allowed
            then (too_many_requests, line')
            else judged_login a k
                (matching_account h (admin_account account password_hash) password) line')
          (command (check_script k) line))
