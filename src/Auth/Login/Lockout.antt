-- ===== src/Auth/Login/Lockout.antt =====
-- The log-in: the lock after failed attempts.
use online_judge.Base.{
  ℕ, ◌+◌, ◌-◌, min, ◌≤◌, ◌<◌, ◌≡◌, refl, ◌∙◌, ◌≢◌, sym, subst, ◌⊎◌, inl, inr, ap, Text, codes,
  Option, none, some, Bool, true, false, not, is_some, arith, if_elim, if◌then◌else◌,
}
use online_judge.Base.Powers.{pow-le, pow-pos}
use online_judge.Redis.{Redis, Entry, Line, command, find_key, unless_over, incremented, del}
use online_judge.Redis.Commands.{command_elim}
use online_judge.Auth.Passwords.{Hashing}
use online_judge.Auth.Login.{
  login_rate_key, RateKeys, rate_keys, check_script, lock_seconds, failure_script, Accounts,
  Account, LoginAnswer, logged_in, too_many_requests, invalid_credentials, redis_error,
  load_user_failed, after, judged_login, matching_account, with_password, resolve_account,
  login_with_password,
}
use online_judge.Auth.Login.Locks.{lock_entry, failure_script-locks}

-- The keys of the two dimensions differ.
key_differs :
    (h : Hashing) (account client_ip suffix : Text)
    → login_rate_key h (codes "user") (codes "ip") client_ip suffix
      ≢ login_rate_key h (codes "user") (codes "account") account (codes "lock")
unfolding login_rate_key
key_differs h account client_ip suffix = λ same. ground arith

judged_login-locks :
    (a : Accounts) (k : RateKeys) (o : Option Account) (line : Line) (attempts : ℕ) (entry : Entry)
    → k.ip_attempts ≢ k.account_lock
    → k.ip_lock ≢ k.account_lock
    → incremented (find_key k.account_attempts line.redis) ≡ some (attempts, entry)
    → 5 ≤ attempts
    → (judged_login a k o line).0 ≡ invalid_credentials
    → (judged_login a k o line).1.redis.keys k.account_lock
      ≡ some (lock_entry line.redis.now attempts)
unfolding judged_login
judged_login-locks a k none line attempts entry d d' h due =
    command_elim
      (λ r. Locked (
        after (λ recorded line'. ((if recorded then invalid_credentials else redis_error), line'))
          r))
      (failure_script k) line
      (λ _. λ e.
        failure_script-locks k line.redis attempts entry d d' h due
          (recorded (failure_script k line.redis).0 e))
      (λ _. λ e. absurd (cc e)) (λ _. λ e. absurd (cc e))
  where
    Locked : LoginAnswer × Line → Type 0
    Locked r =
        r.0 ≡ invalid_credentials
        → r.1.redis.keys k.account_lock ≡ some (lock_entry line.redis.now attempts)

    recorded :
        (b : Bool)
        → (if b then invalid_credentials else redis_error) ≡ invalid_credentials
        → b ≡ true
    recorded true e = refl
    recorded false e = absurd (cc e)
judged_login-locks a k (some account) line attempts entry d d' h due = λ e. absurd (never e)
  where
    Never : LoginAnswer × Line → Type 0
    Never r = r.0 ≢ invalid_credentials

    ends :
        (b : Bool) → (if b then logged_in account.email else load_user_failed) ≢ invalid_credentials
    ends true = λ e. cc e
    ends false = λ e. cc e

    never : Never (judged_login a k (some account) line)
    never =
        command_elim
          (λ r. Never (
            after
              (λ _ line'.
                after
                  (λ _ line''. (
                    (if a.loads account.email then logged_in account.email else load_user_failed),
                    line'',
                  ))
                  (command (del k.account_lock) line'))
              r))
          (del k.account_attempts) line
          (λ reaches.
            command_elim
              (λ r. Never (
                after
                  (λ _ line''. (
                    (if a.loads account.email then logged_in account.email else load_user_failed),
                    line'',
                  ))
                  r))
              (del k.account_lock)
              (record { reaches = reaches; redis = (del k.account_attempts line.redis).1 })
              (λ _. ends (a.loads account.email)) (λ _. λ e. cc e) (λ _. λ e. cc e))
          (λ _. λ e. cc e) (λ _. λ e. cc e)

-- The answer of a log-in that is turned away.
abbrev pub IsRefused : LoginAnswer → Type 0
IsRefused a = (a ≡ too_many_requests) ⊎ (a ≡ redis_error)

-- A log-in of which nothing but the check of the locks is carried out.
abbrev only_checked : Hashing → (account client_ip : Text) → Line → LoginAnswer × Line
only_checked h account client_ip line =
    after (λ _ line'. (too_many_requests, line'))
      (command (check_script (rate_keys h (codes "user") account client_ip)) line)

only_checked-IsRefused :
    (h : Hashing) (account client_ip : Text) (line : Line)
    → IsRefused (only_checked h account client_ip line).0
only_checked-IsRefused h account client_ip line =
    command_elim (λ r. IsRefused (after (λ _ line'. (too_many_requests, line')) r).0)
      (check_script (rate_keys h (codes "user") account client_ip)) line (λ _. inl refl)
      (λ _. inr refl) (λ _. inr refl)

locked-only_checked :
    (h : Hashing) (a : Accounts) (account password client_ip : Text) (line : Line)
    → is_some (
        find_key
          (login_rate_key h (codes "user") (codes "account") account (codes "lock"))
          line.redis)
      ≡ true
    → login_with_password h a account password client_ip line
      ≡ only_checked h account client_ip line
unfolding login_with_password rate_keys
locked-only_checked h a account password client_ip line locked =
    command_elim (λ r. after next r ≡ after (λ _ line'. (too_many_requests, line')) r)
      (check_script k) line
      (λ reaches.
        if_elim
          (λ (r : LoginAnswer × Line). r ≡ (
            too_many_requests,
            record { reaches = reaches; redis = (check_script k line.redis).1 },
          ))
          (not (check_script k line.redis).0) (λ _. refl)
          (λ free. absurd (ground (arith, free, locked))))
      (λ _. refl) (λ _. refl)
  where
    k : RateKeys
    k = rate_keys h (codes "user") account client_ip

    next : Bool → Line → LoginAnswer × Line
    next allowed line' =
        if not allowed
        then (too_many_requests, line')
        else judged_login a k
            (matching_account h (with_password (resolve_account a account)) password) line'

login-locks :
    (h : Hashing) (a : Accounts) (account password client_ip : Text) (line : Line) (attempts : ℕ)
    (entry : Entry)
    → incremented (
        find_key
          (login_rate_key h (codes "user") (codes "account") account (codes "attempts"))
          line.redis)
      ≡ some (attempts, entry)
    → 5 ≤ attempts
    → (login_with_password h a account password client_ip line).0 ≡ invalid_credentials
    → (login_with_password h a account password client_ip line).1.redis.keys
        (login_rate_key h (codes "user") (codes "account") account (codes "lock"))
      ≡ some (lock_entry line.redis.now attempts)
unfolding login_with_password rate_keys
login-locks h a account password client_ip line attempts entry counted due =
    command_elim (λ r. Locked (after next r)) (check_script k) line
      (λ reaches.
        if_elim Locked (not (check_script k line.redis).0) (λ _. λ e. absurd (cc e))
          (λ _.
            judged_login-locks a k
              (matching_account h (with_password (resolve_account a account)) password)
              (record { reaches = reaches; redis = line.redis }) attempts entry
              (key_differs h account client_ip (codes "attempts"))
              (key_differs h account client_ip (codes "lock")) counted due))
      (λ _. λ e. absurd (cc e)) (λ _. λ e. absurd (cc e))
  where
    k : RateKeys
    k = rate_keys h (codes "user") account client_ip

    next : Bool → Line → LoginAnswer × Line
    next allowed line' =
        if not allowed
        then (too_many_requests, line')
        else judged_login a k
            (matching_account h (with_password (resolve_account a account)) password) line'

    Locked : LoginAnswer × Line → Type 0
    Locked r =
        r.0 ≡ invalid_credentials
        → r.1.redis.keys k.account_lock ≡ some (lock_entry line.redis.now attempts)

lock_seconds-bounds :
    (attempts : ℕ) → (5 ≤ lock_seconds attempts 5) × (lock_seconds attempts 5 ≤ 320)
unfolding lock_seconds
lock_seconds-bounds attempts =
    omega (arith, pow-le (min 6 (attempts - 5)) 6 (omega arith), pow-pos (min 6 (attempts - 5)))

-- When a log-in is answered with INVALID_CREDENTIALS and the failure is the fifth or a later one of the
-- window of the account as it was typed, then for the 5 to 320 seconds of `lock_seconds`, if nothing
-- else happens to Redis, a log-in with the account typed in the same way, from any address, is
-- answered with TOO_MANY_REQUESTS, or with an error of Redis, and no password is looked at: the
-- answer and what becomes of Redis are the same whatever password is given, the right one or
-- another, and whatever the accounts hold.
pub login_lockout :
    (h : Hashing) (a : Accounts) (account password client_ip : Text) (line : Line)
    (attempts later : ℕ) (entry : Entry) (a' a'' : Accounts)
    (password' password'' client_ip' : Text) (line' : Line)
    → incremented (
        find_key
          (login_rate_key h (codes "user") (codes "account") account (codes "attempts"))
          line.redis)
      ≡ some (attempts, entry)
    → 5 ≤ attempts
    → (login_with_password h a account password client_ip line).0 ≡ invalid_credentials
    → later < line.redis.now + lock_seconds attempts 5
    → line'.redis
      ≡ record (login_with_password h a account password client_ip line).1.redis { now = later }
    → IsRefused (login_with_password h a' account password' client_ip' line').0
      × (login_with_password h a' account password' client_ip' line'
          ≡ login_with_password h a'' account password'' client_ip' line')
      × (5 ≤ lock_seconds attempts 5)
      × (lock_seconds attempts 5 ≤ 320)
login_lockout h a account password client_ip line attempts later entry a' a'' password' password''
      client_ip' line' counted due refused early same =
    let (least, most) = lock_seconds-bounds attempts in
    let checked : (b : Accounts) (p : Text)
        → login_with_password h b account p client_ip' line'
          ≡ only_checked h account client_ip' line' =
      λ b p. locked-only_checked h b account p client_ip' line' (ap found same ∙ locked) in
    (
      subst (λ (r : LoginAnswer × Line). IsRefused r.0) (sym (checked a' password'))
          (only_checked-IsRefused h account client_ip' line'),
      checked a' password' ∙ sym (checked a'' password''),
      least,
      most,
    )
  where
    lock_key : Text
    lock_key = login_rate_key h (codes "user") (codes "account") account (codes "lock")

    found : Redis → Bool
    found redis = is_some (find_key lock_key redis)

    final : Redis
    final = (login_with_password h a account password client_ip line).1.redis

    alive : is_some (unless_over later (some (lock_entry line.redis.now attempts))) ≡ true
    alive = ground (arith, early)

    locked : is_some (unless_over later (final.keys lock_key)) ≡ true
    locked =
        ap (λ o. is_some (unless_over later o))
          (login-locks h a account password client_ip line attempts entry counted due refused)
        ∙ alive
