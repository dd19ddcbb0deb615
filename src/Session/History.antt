-- ===== src/Session/History.antt =====
-- SessionManager: what its callers see of a session after it was destroyed.
use online_judge.Base.{
  ℕ, ◌+◌, ◌≡◌, refl, ◌∙◌, sym, subst, ◌≢◌, Text, List, [], ◌∷◌, Option, none, some, true, is_empty,
  is_some, arith, All, if_elim, if◌then◌else◌, ◌=t◌, Text-discrete,
}
use online_judge.Redis.{Redis, Line, Reach, del, put_key}
use online_judge.Redis.Commands.{put_key-same, command_elim}
use online_judge.Session.{
  Session, Manager, session_key, put_session, generate_session_id, new_session, created,
  set_session_to_redis, create_session, get_session, destroy_session,
}
use online_judge.Session.Revoked.{
  Gone, key_differs, put_session-none, put_session-other, Absent, set_session-Absent,
  get_other-Gone, get_same-Gone,
}

-- A call, with what it reads of the clock and the random generator; a change of what becomes of the next
-- commands; or seconds that pass for Redis.
pub data Call : Type 0 where
  gets : (id : Text) (time : ℕ) → Call
  destroys : Text → Call
  creates : Option (List ℕ) → (user_id : ℕ) → (email : Text) → (time : ℕ) → Call
  breaks : List Reach → Call
  waits : ℕ → Call

abbrev pub hit : Text → Text → Option Session → ℕ
hit id other none = 0
hit id other (some s) = if other =t id then 1 else 0

-- How many look-ups of the session find it.
pub found : Text → List Call → Manager → ℕ
found id [] m = 0
found id (gets other time ∷ calls) m =
    let (answer, m') = get_session other time m in hit id other answer + found id calls m'
found id (destroys other ∷ calls) m = found id calls (destroy_session other m).1
found id (creates random user_id email time ∷ calls) m =
    found id calls (create_session random user_id email time m).1
found id (breaks reaches ∷ calls) m =
    found id calls (record m { line = record { reaches = reaches; redis = m.line.redis } })
found id (waits seconds ∷ calls) m = found id calls (record m {
  line = record {
    reaches = m.line.reaches;
    redis = record { now = m.line.redis.now + seconds; keys = m.line.redis.keys };
  };
})

-- The random generator does not draw the identifier of the session again.
abbrev pub IsOther : Text → Call → Type 0
IsOther id (creates random user_id email time) = generate_session_id random ≢ id
IsOther id call = Unit

put_key-none :
    (key other : Text) (redis : Redis)
    → redis.keys key ≡ none
    → (put_key other none redis).keys key ≡ none
put_key-none key other redis h = if_elim (λ o. o ≡ none) (other =t key) (λ _. refl) (λ _. h)

destroy-Gone : (id other : Text) (m : Manager) → Gone id m → Gone id (destroy_session other m).1
unfolding destroy_session
destroy-Gone id other m gone = record {
  no_key =
      command_elim (λ r. Absent (session_key id) r) (del (session_key other)) m.line
        (λ _. put_key-none (session_key id) (session_key other) m.line.redis gone.no_key)
        (λ _. gone.no_key)
        (λ _. put_key-none (session_key id) (session_key other) m.line.redis gone.no_key);
  no_entry = put_session-none id other m.sessions gone.no_entry;
}

created-Gone :
    (id : Text) (s : Session) (m : Manager) (r : Option (Unit {0}) × Line)
    → s.session_id ≢ id
    → m.sessions id ≡ none
    → Absent (session_key id) r
    → Gone id (created s m r)
created-Gone id s m (none, line) differ h absent = record {
  no_key = absent;
  no_entry = put_session-other id s.session_id (some s) m.sessions differ ∙ h;
}
created-Gone id s m (some _, line) differ h absent = record { no_key = absent; no_entry = h }

create-Gone :
    (id : Text) (random : Option (List ℕ)) (user_id : ℕ) (email : Text) (time : ℕ) (m : Manager)
    → generate_session_id random ≢ id
    → Gone id m
    → Gone id (create_session random user_id email time m).1
unfolding create_session
create-Gone id random user_id email time m differ gone =
    if_elim (λ (r : Text × Manager). Gone id r.1) (is_empty new) (λ _. gone)
      (λ _.
        created-Gone id s m (set_session_to_redis s m.line) differ gone.no_entry
          (set_session-Absent id s m.line (key_differs new id differ) gone.no_key))
  where
    new : Text
    new = generate_session_id random

    s : Session
    s = new_session new user_id email time

hit-none : (id other : Text) (o : Option Session) → o ≡ none → hit id other o ≡ 0
hit-none id other none h = refl
hit-none id other (some s) h = cc

hit-other : (id other : Text) (o : Option Session) → other ≢ id → hit id other o ≡ 0
hit-other id other none differ = refl
hit-other id other (some s) differ =
    if_elim (λ n. n ≡ 0) (other =t id) (λ same. absurd (ground (arith, same, differ))) (λ _. refl)

get-Gone :
    (id other : Text) (time : ℕ) (m : Manager)
    → Gone id m
    → Gone id (get_session other time m).1 × (hit id other (get_session other time m).0 ≡ 0)
get-Gone id other time m gone = elim (Text-discrete other id) [
  | yes same ↦
      subst (λ x. Gone id (get_session x time m).1 × (hit id x (get_session x time m).0 ≡ 0))
        (sym same)
        (let (kept, missed) = get_same-Gone id time m gone in
          (kept, hit-none id id (get_session id time m).0 missed))
  | no differ ↦ (
    get_other-Gone id other time m differ gone,
    hit-other id other (get_session other time m).0 differ,
  )
]

found-none :
    (id : Text) (calls : List Call) (m : Manager)
    → All (IsOther id) calls
    → Gone id m
    → found id calls m ≡ 0
unfolding found
found-none id [] m others gone = refl
found-none id (gets other time ∷ calls) m (here, others) gone =
    let (kept, missed) = get-Gone id other time m gone in
    omega (arith, missed, found-none id calls (get_session other time m).1 others kept)
found-none id (destroys other ∷ calls) m (here, others) gone =
    found-none id calls (destroy_session other m).1 others (destroy-Gone id other m gone)
found-none id (creates random user_id email time ∷ calls) m (here, others) gone =
    found-none id calls (create_session random user_id email time m).1 others
      (create-Gone id random user_id email time m here gone)
found-none id (breaks reaches ∷ calls) m (here, others) gone =
    found-none id calls (record m { line = record { reaches = reaches; redis = m.line.redis } })
      others (record { no_key = gone.no_key; no_entry = gone.no_entry })
found-none id (waits seconds ∷ calls) m (here, others) gone =
    found-none id calls
      (record m {
        line = record {
          reaches = m.line.reaches;
          redis = record { now = m.line.redis.now + seconds; keys = m.line.redis.keys };
        };
      })
      others (record { no_key = gone.no_key; no_entry = gone.no_entry })

put_session-same :
    (id : Text) (sessions : Text → Option Session) → put_session id none sessions id ≡ none
unfolding Text-discrete
put_session-same id sessions = elim (Text-discrete id id) [
  | yes same ↦ ground (arith, same)
  | no other ↦ absurd (other refl)
]

destroyed-Gone :
    (id : Text) (m : Manager) → (destroy_session id m).0 ≡ true → Gone id (destroy_session id m).1
unfolding destroy_session
destroyed-Gone id m destroyed = record {
  no_key =
      command_elim
        (λ (r : Option (Unit {0}) × Line). is_some r.0 ≡ true → Absent (session_key id) r)
        (del (session_key id)) m.line (λ _. λ _. put_key-same (session_key id) none m.line.redis)
        (λ _. λ e. absurd (cc e)) (λ _. λ e. absurd (cc e)) destroyed;
  no_entry = put_session-same id m.sessions;
}

-- Once DestroySession has answered true for a session, no later GetSession for it answers true, whatever
-- calls follow for whatever sessions, whatever time passes and wherever the connection to Redis fails,
-- as long as the random generator does not draw its identifier again.
pub destroyed_for_good :
    (id : Text) (m : Manager) (calls : List Call)
    → (destroy_session id m).0 ≡ true
    → All (IsOther id) calls
    → found id calls (destroy_session id m).1 ≡ 0
destroyed_for_good id m calls destroyed others =
    found-none id calls (destroy_session id m).1 others (destroyed-Gone id m destroyed)
