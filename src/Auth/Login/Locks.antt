-- ===== src/Auth/Login/Locks.antt =====
-- The log-in: what the scripts leave in Redis.
use online_judge.Base.{
  ℕ, ◌+◌, ◌≤◌, ◌≡◌, refl, ◌∙◌, ◌≢◌, ap, Text, codes, Option, none, some, Bool, true, not, ◌||◌, leb,
  ◌==◌, arith, if_elim,
}
use online_judge.Redis.{Redis, Entry, text, find_key, put_key, incremented}
use online_judge.Redis.Commands.{put_key-same, put_key-other}
use online_judge.Auth.Login.{
  RateKeys, is_counter, lock_seconds, lock_if_due, started_window, record_attempt, record_one,
  failure_script,
}

started_window-other :
    (attempts_key other : Text) (attempts : ℕ) (redis : Redis)
    → attempts_key ≢ other
    → (started_window attempts_key attempts redis).keys other ≡ redis.keys other
started_window-other attempts_key other attempts redis differ =
    if_elim (λ (r : Redis). r.keys other ≡ redis.keys other) (attempts == 1)
      (λ _. put_key-other attempts_key other _ redis differ) (λ _. refl)

lock_if_due-other :
    (lock_key other : Text) (attempts threshold : ℕ) (redis : Redis)
    → lock_key ≢ other
    → (lock_if_due lock_key attempts threshold redis).keys other ≡ redis.keys other
lock_if_due-other lock_key other attempts threshold redis differ =
    if_elim (λ (r : Redis). r.keys other ≡ redis.keys other) (leb threshold attempts)
      (λ _. put_key-other lock_key other _ redis differ) (λ _. refl)

record_attempt-other :
    (attempts_key lock_key other : Text) (threshold : ℕ) (o : Option (ℕ × Entry)) (redis : Redis)
    → attempts_key ≢ other
    → lock_key ≢ other
    → (record_attempt attempts_key lock_key threshold o redis).keys other ≡ redis.keys other
unfolding record_attempt
record_attempt-other attempts_key lock_key other threshold none redis d d' = refl
record_attempt-other attempts_key lock_key other threshold (some (attempts, entry)) redis d d' =
    lock_if_due-other lock_key other attempts threshold
      (started_window attempts_key attempts (put_key attempts_key (some entry) redis)) d'
    ∙ started_window-other attempts_key other attempts (put_key attempts_key (some entry) redis) d
    ∙ put_key-other attempts_key other (some entry) redis d

-- The entry of a lock that was set at `now` for `attempts`.
abbrev pub lock_entry : (now attempts : ℕ) → Entry
lock_entry now attempts = record {
  value = text (codes "1");
  deadline = some (now + lock_seconds attempts 5);
}

started_window-now :
    (attempts_key : Text) (attempts : ℕ) (redis : Redis)
    → (started_window attempts_key attempts redis).now ≡ redis.now
started_window-now attempts_key attempts redis =
    if_elim (λ (r : Redis). r.now ≡ redis.now) (attempts == 1) (λ _. refl) (λ _. refl)

lock_if_due-now :
    (lock_key : Text) (attempts threshold : ℕ) (redis : Redis)
    → (lock_if_due lock_key attempts threshold redis).now ≡ redis.now
lock_if_due-now lock_key attempts threshold redis =
    if_elim (λ (r : Redis). r.now ≡ redis.now) (leb threshold attempts) (λ _. refl) (λ _. refl)

lock_if_due-same :
    (lock_key : Text) (attempts : ℕ) (redis : Redis)
    → 5 ≤ attempts
    → (lock_if_due lock_key attempts 5 redis).keys lock_key ≡ some (lock_entry redis.now attempts)
lock_if_due-same lock_key attempts redis due =
    if_elim (λ (r : Redis). r.keys lock_key ≡ some (lock_entry redis.now attempts)) (leb 5 attempts)
      (λ _. put_key-same lock_key (some (lock_entry redis.now attempts)) redis)
      (λ early. absurd (ground (arith, early, due)))

record_attempt-locks :
    (attempts_key lock_key : Text) (attempts : ℕ) (entry : Entry) (redis : Redis)
    → 5 ≤ attempts
    → (record_attempt attempts_key lock_key 5 (some (attempts, entry)) redis).keys lock_key
      ≡ some (lock_entry redis.now attempts)
unfolding record_attempt
record_attempt-locks attempts_key lock_key attempts entry redis due =
    lock_if_due-same lock_key attempts
      (started_window attempts_key attempts (put_key attempts_key (some entry) redis)) due
    ∙ ap (λ now. some (lock_entry now attempts))
        (started_window-now attempts_key attempts (put_key attempts_key (some entry) redis))

-- The lock of the account, after the script has recorded a failure that is the fifth or a later one.
pub failure_script-locks :
    (k : RateKeys) (redis : Redis) (attempts : ℕ) (entry : Entry)
    → k.ip_attempts ≢ k.account_lock
    → k.ip_lock ≢ k.account_lock
    → incremented (find_key k.account_attempts redis) ≡ some (attempts, entry)
    → 5 ≤ attempts
    → (failure_script k redis).0 ≡ true
    → (failure_script k redis).1.keys k.account_lock ≡ some (lock_entry redis.now attempts)
unfolding failure_script
failure_script-locks k redis attempts entry d d' h due =
    if_elim
      (λ (r : Bool × Redis).
        r.0 ≡ true → r.1.keys k.account_lock ≡ some (lock_entry redis.now attempts))
      (not (is_counter (find_key k.account_attempts redis))
        || not (is_counter (find_key k.ip_attempts redis)))
      (λ _. λ e. absurd (cc e))
      (λ _. λ _.
        record_attempt-other k.ip_attempts k.ip_lock k.account_lock 50 _
          (record_one k.account_attempts k.account_lock 5 redis) d d'
        ∙ ap (λ o. (record_attempt k.account_attempts k.account_lock 5 o redis).keys k.account_lock)
            h
        ∙ record_attempt-locks k.account_attempts k.account_lock attempts entry redis due)
