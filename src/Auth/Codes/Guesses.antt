-- ===== src/Auth/Codes/Guesses.antt =====
-- The verification of codes: how often a code can be tried, and that it is used once.
use online_judge.Base.{
  ℕ, ◌+◌, ◌-◌, ◌≤◌, ◌≡◌, refl, ◌≢◌, ◌∙◌, sym, Text, Option, none, some, false, not, leb, ◌==◌, ◌=t◌,
  arith, if_elim,
}
use online_judge.Redis.{
  Redis, Entry, Line, command, incr, incr_found, incremented, expiring, unless_over, put_key,
  find_key, text_of, get_key, del, expire,
}
use online_judge.Redis.Commands.{put_key-same, put_key-other, command_elim}
use online_judge.Auth.Codes.{
  Answer, ok, attempts_exceeded, redis_error, or_redis_error, drop_code, count_attempt,
  start_attempts, compare_code, check_code,
}
use online_judge.Auth.Codes.Guard.{
  Guard-expire, Guard-incremented, Guard-live, Guard-counted, tells, Guard,
}

module _ (code_key attempts_key : Text) (differ : code_key ≢ attempts_key) where
  -- The guard of the two keys, at the time of the server.
  abbrev pub Guarded : Redis → ℕ → Type 0
  Guarded redis n = Guard redis.now (redis.keys code_key) (redis.keys attempts_key) n

  -- An answer that tells takes one of the `n`; after the code was accepted none is left.
  pub record Spent (n : ℕ) (r : Answer × Line) : Type 0 where
    pub left : ℕ
    pub guarded : Guarded r.1.redis left
    pub bounded : tells r.0 + left ≤ n
    pub used : r.0 ≡ ok → left ≡ 0

  gone-Spent :
      (n : ℕ) (a : Answer) (line : Line)
      → line.redis.keys code_key ≡ none
      → tells a ≤ n
      → Spent n (a, line)
  gone-Spent n a line gone few = record {
    left = 0;
    guarded = rw gone tt;
    bounded = omega arith;
    used = λ _. refl;
  }

  failed-Spent : (n : ℕ) (line : Line) → Guarded line.redis n → Spent n (redis_error, line)
  failed-Spent n line g = record {
    left = n;
    guarded = g;
    bounded = omega arith;
    used = λ e. absurd (cc e);
  }

  attempts_stored :
      (redis : Redis) (e : Option Entry) (n : ℕ)
      → Guard redis.now (redis.keys code_key) e n
      → Guarded (put_key attempts_key e redis) n
  attempts_stored redis e n g =
      rw
        (
          put_key-same attempts_key e redis,
          put_key-other attempts_key code_key e redis (λ same. differ (sym same)),
        )
        g

  twice_gone :
      (redis : Redis)
      → (put_key attempts_key none (put_key code_key none redis)).keys code_key ≡ none
  twice_gone redis =
      put_key-other attempts_key code_key none (put_key code_key none redis)
        (λ same. differ (sym same))
      ∙ put_key-same code_key none redis

  drop_code-Spent :
      (n : ℕ) (a : Answer) (line : Line)
      → tells a ≤ n
      → Guarded line.redis n
      → Spent n (drop_code code_key attempts_key a line)
  unfolding drop_code
  drop_code-Spent n a line few g =
      command_elim
        (λ r. Spent n (
          or_redis_error
            (λ _ line'. or_redis_error (λ _ line''. (a, line'')) (command (del attempts_key) line'))
            r))
        (del code_key) line
        (λ reaches.
          command_elim (λ r. Spent n (or_redis_error (λ _ line''. (a, line'')) r))
            (del attempts_key) _ (λ _. gone-Spent n a _ (twice_gone line.redis) few)
            (λ _. gone-Spent n redis_error _ (put_key-same code_key none line.redis) (omega arith))
            (λ _. gone-Spent n redis_error _ (twice_gone line.redis) (omega arith)))
        (λ _. failed-Spent n _ g)
        (λ _. gone-Spent n redis_error _ (put_key-same code_key none line.redis) (omega arith))

  -- After the attempt was counted: `tried` is the counter.
  count_attempt-Spent :
      (n tried : ℕ) (line : Line)
      → 1 ≤ n
      → Guarded line.redis n
      → (leb 5 tried ≡ false → Guarded line.redis (n - 1))
      → Spent n (count_attempt code_key attempts_key tried line)
  unfolding count_attempt
  count_attempt-Spent n tried line some_left g less =
      if_elim (Spent n) (leb 5 tried) (λ _. drop_code-Spent n attempts_exceeded line some_left g)
        (λ few. record {
          left = n - 1;
          guarded = less few;
          bounded = omega arith;
          used = λ e. absurd (cc e);
        })

  start_attempts-Spent :
      (n tried : ℕ) (line : Line)
      → 1 ≤ n
      → Guarded line.redis n
      → (leb 5 tried ≡ false → Guarded line.redis (n - 1))
      → Spent n (start_attempts code_key attempts_key tried line)
  unfolding start_attempts
  start_attempts-Spent n tried line some_left g less =
      if_elim (Spent n) (tried == 1)
        (λ _.
          command_elim
            (λ r.
              Spent n
                (or_redis_error (λ _ line'. count_attempt code_key attempts_key tried line') r))
            (expire attempts_key 300) line
            (λ _.
              count_attempt-Spent n tried _ some_left (expired n g)
                (λ few. expired (n - 1) (less few)))
            (λ _. failed-Spent n _ g) (λ _. failed-Spent n _ (expired n g)))
        (λ _. count_attempt-Spent n tried line some_left g less)
    where
      expired : (m : ℕ) → Guarded line.redis m → Guarded (expire attempts_key 300 line.redis).1 m
      expired m h =
          attempts_stored line.redis
            (expiring (line.redis.now + 300)
              (unless_over line.redis.now (line.redis.keys attempts_key)))
            m
            (Guard-expire line.redis.now (line.redis.keys code_key) (line.redis.keys attempts_key) m
              h)

  incr-Spent :
      (n : ℕ) (line : Line)
      → 1 ≤ n
      → Guarded line.redis n
      → Spent n (
          or_redis_error
            (λ tried line'. start_attempts code_key attempts_key tried line')
            (incr attempts_key line))
  unfolding incr
  incr-Spent n line some_left g =
      counted (incremented (unless_over line.redis.now (line.redis.keys attempts_key))) refl
    where
      next : ℕ → Line → Answer × Line
      next tried line' = start_attempts code_key attempts_key tried line'

      counted :
          (o : Option (ℕ × Entry))
          → incremented (unless_over line.redis.now (line.redis.keys attempts_key)) ≡ o
          → Spent n (or_redis_error next (incr_found attempts_key o line))
      counted none h = failed-Spent n line g
      counted (some (tried, e)) h =
          command_elim (λ r. Spent n (or_redis_error next r))
            (λ redis. (tried, put_key attempts_key (some e) redis)) line
            (λ _. start_attempts-Spent n tried _ some_left stored (λ few.
              attempts_stored line.redis (some e) (n - 1) (
                Guard-counted line.redis.now (line.redis.keys code_key)
                  (line.redis.keys attempts_key) n tried e h few g)))
            (λ _. failed-Spent n _ g) (λ _. failed-Spent n _ stored)
        where
          stored : Guarded (put_key attempts_key (some e) line.redis) n
          stored = attempts_stored line.redis (some e) n (
              Guard-incremented line.redis.now (line.redis.keys code_key)
                (line.redis.keys attempts_key) n tried e h g)

  compare-Spent :
      (n : ℕ) (code : Text) (o : Option Text) (line : Line)
      → text_of (find_key code_key line.redis) ≡ o
      → Guarded line.redis n
      → Spent n (compare_code code_key attempts_key code o line)
  unfolding compare_code
  compare-Spent n code none line h g = record {
    left = n;
    guarded = g;
    bounded = omega arith;
    used = λ e. absurd (cc e);
  }
  compare-Spent n code (some cached) line h g =
      if_elim (Spent n) (not (cached =t code)) (λ _. incr-Spent n line some_left g)
        (λ _. drop_code-Spent n ok line some_left g)
    where
      some_left : 1 ≤ n
      some_left =
          Guard-live line.redis.now (line.redis.keys code_key) (line.redis.keys attempts_key) n
            cached h g

  pub check_code-Spent :
      (n : ℕ) (code : Text) (line : Line)
      → Guarded line.redis n
      → Spent n (check_code code_key attempts_key code line)
  unfolding check_code
  check_code-Spent n code line g =
      command_elim
        (λ r.
          Spent n (
            or_redis_error (λ cached line'. compare_code code_key attempts_key code cached line')
              r))
        (get_key code_key) line
        (λ reaches.
          compare-Spent n code (text_of (find_key code_key line.redis))
            (record { reaches = reaches; redis = line.redis }) refl g)
        (λ _. failed-Spent n _ g) (λ _. failed-Spent n _ g)
