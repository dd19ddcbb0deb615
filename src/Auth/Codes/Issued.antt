-- ===== src/Auth/Codes/Issued.antt =====
-- A code from its sending to its end: the calls for one address, with time passing between them.
use online_judge.Base.{
  ℕ, ◌+◌, ◌≡◌, sym, ◌∙◌, ◌≢◌, Text, List, Option, none, some, not, arith, if_elim, if◌then◌else◌,
  ltb, ◌==◌, is_empty, codes,
}
use online_judge.Redis.{
  Redis, Entry, text, Line, Reach, command, incr, incr_found, incremented, find_key, setex, del,
  expire, put_key, exists_key,
}
use online_judge.Redis.Commands.{put_key-same, put_key-other, command_elim}
use online_judge.Auth.Codes.{
  Answer, ok, email_daily_limit, ip_daily_limit, or_redis_error, Sending, store_code, take_back,
  issue_code, daily_limit, send_email_auth_code, auth_code_key, auth_attempts_key,
  auth_cooldown_key, email_daily_limit_key, ip_daily_limit_key,
}
use online_judge.Auth.Codes.Guard.{Guard}

pub keys_differ : (email : Text) → auth_code_key email ≢ auth_attempts_key email
unfolding auth_code_key auth_attempts_key
keys_differ email = λ same. ground arith

-- After a call that answered `true`, five answers are left.
abbrev pub Issued : Text → Text → Answer × Line → Type 0
Issued code_key attempts_key r =
    r.0 ≡ ok → Guard r.1.redis.now (r.1.redis.keys code_key) (r.1.redis.keys attempts_key) 5

fresh-Guard :
    (now : ℕ) (code : Text) (stored attempts : Option Entry)
    → stored ≡ some (record { value = text code; deadline = some (now + 300) })
    → attempts ≡ none
    → Guard now stored attempts 5
fresh-Guard now code stored attempts h k = rw (h, k) (omega arith, λ _. omega arith)

module _ (code_key attempts_key : Text) (differ : code_key ≢ attempts_key) where
  refused-Issued : (a : Answer) (line : Line) → (a ≢ ok) → Issued code_key attempts_key (a, line)
  refused-Issued a line refusal = λ e. absurd (refusal e)

  -- A command whose exception is answered with REDIS_ERROR.
  after-Issued {ℓ} :
      {A : Type ℓ} (next : A → Line → Answer × Line) (f : Redis → A × Redis) (line : Line)
      → ((reaches : List Reach)
          → Issued code_key attempts_key
              (next (f line.redis).0 (record { reaches = reaches; redis = (f line.redis).1 })))
      → Issued code_key attempts_key (or_redis_error next (command f line))
  after-Issued next f line run =
      command_elim (λ r. Issued code_key attempts_key (or_redis_error next r)) f line run
        (λ _. λ e. absurd (cc e)) (λ _. λ e. absurd (cc e))

  take_back-Issued :
      (cooldown_key : Text) (line : Line)
      → Issued code_key attempts_key (take_back code_key attempts_key cooldown_key line)
  unfolding take_back
  take_back-Issued cooldown_key line = after-Issued _ (del code_key) line (λ _.
      after-Issued _ (del attempts_key) _
        (λ _. after-Issued _ (del cooldown_key) _ (λ _. λ e. absurd (cc e))))

  store_code-Issued :
      (cooldown_key : Text) (s : Sending) (line : Line)
      → Issued code_key attempts_key (store_code code_key attempts_key cooldown_key s line)
  unfolding store_code
  store_code-Issued cooldown_key s line = after-Issued _ (setex code_key 300 s.code) line (λ _.
      after-Issued _ (del attempts_key) _ (λ _.
        if_elim (Issued code_key attempts_key) (not s.mailed) (λ _. take_back-Issued cooldown_key _)
          (λ _. λ _.
            fresh-Guard line.redis.now s.code ((del attempts_key stored).1.keys code_key)
              ((del attempts_key stored).1.keys attempts_key)
              (put_key-other attempts_key code_key none stored (λ same. differ (sym same))
                ∙ put_key-same code_key _ line.redis)
              (put_key-same attempts_key none stored))))
    where
      stored : Redis
      stored = (setex code_key 300 s.code line.redis).1

  daily_limit-Issued :
      (key : Text) (seconds_left limit : ℕ) (refusal : Answer) (next : Line → Answer × Line)
      (line : Line)
      → refusal ≢ ok
      → ((line' : Line) → Issued code_key attempts_key (next line'))
      → Issued code_key attempts_key (daily_limit key seconds_left limit refusal next line)
  unfolding daily_limit incr
  daily_limit-Issued key seconds_left limit refusal next line refuses goes =
      counted (incremented (find_key key line.redis))
    where
      after : ℕ → Line → Answer × Line
      after count line' = if ltb limit count then (refusal, line') else next line'

      after-Issued' : (count : ℕ) (line' : Line) → Issued code_key attempts_key (after count line')
      after-Issued' count line' =
          if_elim (Issued code_key attempts_key) (ltb limit count) (λ _. λ e. absurd (refuses e))
            (λ _. goes line')

      started : ℕ → Line → Answer × Line
      started count line' =
          if count == 1
          then or_redis_error (λ _ line''. after count line'')
              (command (expire key seconds_left) line')
          else after count line'

      started-Issued :
          (count : ℕ) (line' : Line) → Issued code_key attempts_key (started count line')
      started-Issued count line' =
          if_elim (Issued code_key attempts_key) (count == 1)
            (λ _.
              after-Issued (λ _ line''. after count line'') (expire key seconds_left) line'
                (λ reaches.
                  after-Issued' count (record {
                    reaches = reaches;
                    redis = (expire key seconds_left line'.redis).1;
                  })))
            (λ _. after-Issued' count line')

      counted :
          (o : Option (ℕ × Entry))
          → Issued code_key attempts_key (or_redis_error started (incr_found key o line))
      counted none = λ e. absurd (cc e)
      counted (some (count, entry)) =
          after-Issued started (λ redis. (count, put_key key (some entry) redis)) line
            (λ reaches.
              started-Issued count
                (record { reaches = reaches; redis = put_key key (some entry) line.redis }))

issue_code-Issued :
    (email : Text) (s : Sending) (line : Line)
    → Issued (auth_code_key email) (auth_attempts_key email) (issue_code email s line)
unfolding issue_code
issue_code-Issued email s line =
    after-Issued (auth_code_key email) (auth_attempts_key email) (keys_differ email) _
      (setex (auth_cooldown_key email) 60 (codes "1")) line
      (λ _.
        if_elim (Issued (auth_code_key email) (auth_attempts_key email)) (is_empty s.code)
          (λ _.
            after-Issued (auth_code_key email) (auth_attempts_key email) (keys_differ email) _
              (del (auth_cooldown_key email)) _ (λ _. λ e. absurd (cc e)))
          (λ _.
            store_code-Issued (auth_code_key email) (auth_attempts_key email) (keys_differ email)
              (auth_cooldown_key email) s _))

pub send-Issued :
    (email client_ip : Text) (s : Sending) (line : Line)
    → Issued
        (auth_code_key email)
        (auth_attempts_key email)
        (send_email_auth_code email client_ip s line)
unfolding send_email_auth_code
send-Issued email client_ip s line =
    after-Issued (auth_code_key email) (auth_attempts_key email) (keys_differ email) _
      (exists_key (auth_cooldown_key email)) line
      (λ _.
        if_elim (Issued (auth_code_key email) (auth_attempts_key email))
          (exists_key (auth_cooldown_key email) line.redis).0 (λ _. λ e. absurd (cc e))
          (λ _.
            daily_limit-Issued (auth_code_key email) (auth_attempts_key email) (keys_differ email)
              (email_daily_limit_key s.date email) s.seconds_left 20 email_daily_limit _ _
              (λ e. cc e)
              (λ line'.
                daily_limit-Issued (auth_code_key email) (auth_attempts_key email)
                  (keys_differ email) (ip_daily_limit_key s.date client_ip) s.seconds_left 50
                  ip_daily_limit _ line' (λ e. cc e) (issue_code-Issued email s))))
