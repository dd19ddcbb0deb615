-- ===== src/Session/Revoked.antt =====
-- SessionManager: a session that was destroyed.
use online_judge.Base.{
  ℕ, ◌≡◌, refl, ap, ◌∙◌, ◌≢◌, Text, codes, List, [], ◌∷◌, Option, none, some, drop, ltb, ◌-◌, arith,
  if_elim, ◌=t◌, Text-discrete,
}
use online_judge.Redis.{
  Redis, Line, Reach, command, hmset, hgetall, expire, find_key, fields_of, unless_over,
}
use online_judge.Redis.Commands.{put_key-other, command_elim}
use online_judge.Base.Decimal.{to_string}
use online_judge.Session.{
  hash_of, parse_positive, Session, Manager, session_key, put_session, set_session_to_redis,
  parse_session, renew_session, get_session_from_redis, get_local, got_session, get_session,
  then_else, session_expire_seconds, accessed,
}

-- Neither Redis nor the map has the session.
pub record Gone (id : Text) (m : Manager) : Type 0 where
  pub no_key : m.line.redis.keys (session_key id) ≡ none
  pub no_entry : m.sessions id ≡ none

pub key_differs : (a b : Text) → a ≢ b → session_key a ≢ session_key b
unfolding session_key
key_differs a b differ = λ same. differ (ap (drop 24) same)

pub put_session-none :
    (id other : Text) (sessions : Text → Option Session)
    → sessions id ≡ none
    → put_session other none sessions id ≡ none
put_session-none id other sessions h =
    if_elim (λ (o : Option Session). o ≡ none) (other =t id) (λ _. refl) (λ _. h)

pub put_session-other :
    (id other : Text) (s : Option Session) (sessions : Text → Option Session)
    → other ≢ id
    → put_session other s sessions id ≡ sessions id
unfolding Text-discrete
put_session-other id other s sessions differ = elim (Text-discrete other id) [
  | yes same ↦ absurd (differ same)
  | no _ ↦ ground (arith, differ)
]

-- The key is still absent after a call.
abbrev pub Absent {ℓ} : {B : Type ℓ} → Text → B × Line → Type 0
Absent key r = r.1.redis.keys key ≡ none

command-Absent {ℓ} :
    {A : Type ℓ} (key : Text) (f : Redis → A × Redis) (line : Line)
    → line.redis.keys key ≡ none
    → (f line.redis).1.keys key ≡ none
    → Absent key (command f line)
command-Absent key f line h k = command_elim (λ r. Absent key r) f line (λ _. k) (λ _. h) (λ _. k)

then_else-Absent {ℓ κ} :
    {A : Type ℓ} {B : Type κ} (key : Text) (next : A → Line → Option B × Line)
    (f : Redis → A × Redis) (line : Line)
    → line.redis.keys key ≡ none
    → (f line.redis).1.keys key ≡ none
    → ((reaches : List Reach)
        → Absent key
            (next (f line.redis).0 (record { reaches = reaches; redis = (f line.redis).1 })))
    → Absent key (then_else next (command f line))
then_else-Absent key next f line h k goes =
    command_elim (λ r. Absent key (then_else next r)) f line goes (λ _. h) (λ _. k)

module _ (id : Text) where
  -- The commands about the key of another session.
  hmset-Absent :
      (key : Text) (fields : List (Text × Text)) (redis : Redis)
      → key ≢ session_key id
      → redis.keys (session_key id) ≡ none
      → (hmset key fields redis).1.keys (session_key id) ≡ none
  hmset-Absent key fields redis differ h = put_key-other key (session_key id) _ redis differ ∙ h

  expire-Absent :
      (key : Text) (seconds : ℕ) (redis : Redis)
      → key ≢ session_key id
      → redis.keys (session_key id) ≡ none
      → (expire key seconds redis).1.keys (session_key id) ≡ none
  expire-Absent key seconds redis differ h = put_key-other key (session_key id) _ redis differ ∙ h

  renew_session-Absent :
      (other : Text) (time : ℕ) (o : Option Session) (line : Line)
      → session_key other ≢ session_key id
      → line.redis.keys (session_key id) ≡ none
      → Absent (session_key id) (renew_session other time o line)
  unfolding renew_session
  renew_session-Absent other time none line differ h = h
  renew_session-Absent other time (some s) line differ h =
      then_else-Absent (session_key id) next (hmset (session_key other) fields) line h stored
        (λ reaches.
          then_else-Absent (session_key id) last (expire (session_key other) session_expire_seconds)
            (record { reaches = reaches; redis = redis' }) stored again (λ _. again))
    where
      fields : List (Text × Text)
      fields = (codes "last_access_time", to_string time) ∷ []

      redis' : Redis
      redis' = (hmset (session_key other) fields line.redis).1

      last : Unit {0} → Line → Option (Option Session) × Line
      last _ line'' = (some (some (accessed time s)), line'')

      next : Unit {0} → Line → Option (Option Session) × Line
      next _ line' =
          then_else last (command (expire (session_key other) session_expire_seconds) line')

      stored : redis'.keys (session_key id) ≡ none
      stored = hmset-Absent (session_key other) fields line.redis differ h

      again :
          (expire (session_key other) session_expire_seconds redis').1.keys (session_key id) ≡ none
      again = expire-Absent (session_key other) session_expire_seconds redis' differ stored

  pub set_session-Absent :
      (s : Session) (line : Line)
      → session_key s.session_id ≢ session_key id
      → line.redis.keys (session_key id) ≡ none
      → Absent (session_key id) (set_session_to_redis s line)
  unfolding set_session_to_redis
  set_session-Absent s line differ h =
      then_else-Absent (session_key id) next (hmset key (hash_of s)) line h stored (λ reaches.
        command-Absent (session_key id) (expire key session_expire_seconds)
          (record { reaches = reaches; redis = redis' }) stored
          (expire-Absent key session_expire_seconds redis' differ stored))
    where
      key : Text
      key = session_key s.session_id

      redis' : Redis
      redis' = (hmset key (hash_of s) line.redis).1

      next : Unit {0} → Line → Option (Unit {0}) × Line
      next _ line' = command (expire key session_expire_seconds) line'

      stored : redis'.keys (session_key id) ≡ none
      stored = hmset-Absent key (hash_of s) line.redis differ h

  get_local-Gone :
      (other : Text) (time : ℕ) (o : Option Session) (m : Manager)
      → other ≢ id
      → Gone id m
      → Gone id (get_local other time o m).1
  unfolding get_local
  get_local-Gone other time none m differ gone = gone
  get_local-Gone other time (some s) m differ gone =
      if_elim (λ (r : Option Session × Manager). Gone id r.1)
        (ltb session_expire_seconds (time - s.last_access_time))
        (λ _. record {
          no_key = gone.no_key;
          no_entry = put_session-none id other m.sessions gone.no_entry;
        })
        (λ _. record {
          no_key = gone.no_key;
          no_entry =
              put_session-other id other (some (accessed time s)) m.sessions differ ∙ gone.no_entry;
        })

  got_session-Gone :
      (other : Text) (time : ℕ) (m : Manager) (r : Option (Option Session) × Line)
      → other ≢ id
      → m.sessions id ≡ none
      → Absent (session_key id) r
      → Gone id (got_session other time m r).1
  unfolding got_session
  got_session-Gone other time m (none, line) differ h absent =
      get_local-Gone other time (m.sessions other) (record { sessions = m.sessions; line = line })
        differ (record { no_key = absent; no_entry = h })
  got_session-Gone other time m (some none, line) differ h absent = record {
    no_key = absent;
    no_entry = put_session-none id other m.sessions h;
  }
  got_session-Gone other time m (some (some s), line) differ h absent = record {
    no_key = absent;
    no_entry = h;
  }

  pub get_other-Gone :
      (other : Text) (time : ℕ) (m : Manager)
      → other ≢ id
      → Gone id m
      → Gone id (get_session other time m).1
  unfolding get_session get_session_from_redis
  get_other-Gone other time m differ gone =
      got_session-Gone other time m (get_session_from_redis other time m.line) differ gone.no_entry
        (then_else-Absent (session_key id) next (hgetall (session_key other)) m.line gone.no_key
          gone.no_key
          (λ reaches.
            renew_session-Absent other time (parse_session other fields)
              (record { reaches = reaches; redis = m.line.redis }) (key_differs other id differ)
              gone.no_key))
    where
      fields : List (Text × Text)
      fields = fields_of (find_key (session_key other) m.line.redis)

      next : List (Text × Text) → Line → Option (Option Session) × Line
      next found line' = renew_session other time (parse_session other found) line'

  nothing_parsed : parse_session id [] ≡ none
  unfolding parse_session parse_positive
  nothing_parsed = refl

  -- A look-up of the session itself.
  abbrev pub Missed : Option Session × Manager → Type 0
  Missed r = Gone id r.1 × (r.0 ≡ none)

  local_look :
      (time : ℕ) (m : Manager) (line : Line)
      → m.sessions id ≡ none
      → line.redis.keys (session_key id) ≡ none
      → Missed (got_session id time m (none, line))
  unfolding got_session get_local
  local_look time m line h absent =
      rw (h, got_session, get_local) (record { no_key = absent; no_entry = h }, refl)

  redis_look :
      (time : ℕ) (m : Manager) (line : Line)
      → m.sessions id ≡ none
      → line.redis.keys (session_key id) ≡ none
      → Missed (
          got_session id time m (
            renew_session id time
              (parse_session id
                (fields_of (unless_over line.redis.now (line.redis.keys (session_key id)))))
              line))
  unfolding got_session renew_session
  redis_look time m line h absent =
      rw (absent, nothing_parsed, renew_session, got_session)
        (record { no_key = absent; no_entry = put_session-none id id m.sessions h }, refl)

  pub get_same-Gone : (time : ℕ) (m : Manager) → Gone id m → Missed (get_session id time m)
  unfolding get_session get_session_from_redis
  get_same-Gone time m gone =
      command_elim (λ r. Missed (got_session id time m (then_else next r)))
        (hgetall (session_key id)) m.line
        (λ reaches.
          redis_look time m (record { reaches = reaches; redis = m.line.redis }) gone.no_entry
            gone.no_key)
        (λ reaches.
          local_look time m (record { reaches = reaches; redis = m.line.redis }) gone.no_entry
            gone.no_key)
        (λ reaches.
          local_look time m (record { reaches = reaches; redis = m.line.redis }) gone.no_entry
            gone.no_key)
    where
      next : List (Text × Text) → Line → Option (Option Session) × Line
      next found line' = renew_session id time (parse_session id found) line'
