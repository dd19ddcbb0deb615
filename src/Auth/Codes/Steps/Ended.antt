-- ===== src/Auth/Codes/Steps/Ended.antt =====
-- Verifications whose commands interleave: what an accepted code means for the calls after it.
use online_judge.Base.{
  ℕ, ◌≡◌, ◌≢◌, sym, ◌∙◌, subst, ◌⊎◌, inl, inr, Text, List, [], ◌∷◌, Option, none, some, Bool-cases,
  ◌==◌, arith, if_elim, leb, not, ◌=t◌,
}
use online_judge.Redis.{Redis, Entry, Line, Reach, incr, incr_found, get_key, del, expire, put_key}
use online_judge.Redis.Commands.{put_key-same, put_key-other, command_elim}
use online_judge.Auth.Codes.{ok, code_expired, redis_error, auth_code_key, auth_attempts_key}
use online_judge.Auth.Codes.Issued.{keys_differ}
use online_judge.Auth.Codes.Steps.{
  Stage, gets, counts, expires, drops, drops_attempts, answered, moved, compared, limited, counted,
  verify_step, Call, idle, runs, Server, Move, begins, sends, waits, set_call, begun, sent, move,
  moves,
}

-- The code was right, or tried too often, and has been deleted.
abbrev HasDropped : Stage → Type 0
HasDropped (drops_attempts a) = Unit
HasDropped (answered ok) = Unit
HasDropped _ = ⊥

-- What a verification can be that found no code.
abbrev FindsNothing : Stage → Type 0
FindsNothing gets = Unit
FindsNothing (answered code_expired) = Unit
FindsNothing (answered redis_error) = Unit
FindsNothing _ = ⊥

module _ (code_key attempts_key : Text) (differ : code_key ≢ attempts_key) where
  abbrev Gone : Redis → Type 0
  Gone redis = redis.keys code_key ≡ none

  -- What a step leaves: a code that is gone stays away, and a deleted code is gone.
  abbrev Leaves : Redis → Stage × Line → Type 0
  Leaves redis (stage, line) = (Gone redis → Gone line.redis) × (HasDropped stage → Gone line.redis)

  other-Gone :
      (entry : Option Entry) (redis : Redis) → Gone redis → Gone (put_key attempts_key entry redis)
  other-Gone entry redis g =
      put_key-other attempts_key code_key entry redis (λ same. differ (sym same)) ∙ g

  compared-HasDropped : (code : Text) (o : Option Text) → ¬ HasDropped (compared code o)
  compared-HasDropped code none = λ d. d
  compared-HasDropped code (some cached) =
      if_elim (λ s. ¬ HasDropped s) (not (cached =t code)) (λ _. λ d. d) (λ _. λ d. d)

  limited-HasDropped : (n : ℕ) → ¬ HasDropped (limited n)
  limited-HasDropped n = if_elim (λ s. ¬ HasDropped s) (leb 5 n) (λ _. λ d. d) (λ _. λ d. d)

  counted-HasDropped : (n : ℕ) → ¬ HasDropped (counted n)
  counted-HasDropped n =
      if_elim (λ s. ¬ HasDropped s) (n == 1) (λ _. λ d. d) (λ _. limited-HasDropped n)

  incr-Leaves :
      (line : Line) (o : Option (ℕ × Entry))
      → Leaves line.redis (moved counted (incr_found attempts_key o line))
  incr-Leaves line none = (λ g. g, λ d. absurd d)
  incr-Leaves line (some (n, entry)) =
      command_elim (λ r. Leaves line.redis (moved counted r))
        (λ redis. (n, put_key attempts_key (some entry) redis)) line
        (λ _. (other-Gone (some entry) line.redis, λ d. absurd (counted-HasDropped n d)))
        (λ _. (λ g. g, λ d. absurd d)) (λ _. (other-Gone (some entry) line.redis, λ d. absurd d))

  step-Leaves :
      (code : Text) (stage : Stage) (line : Line)
      → (HasDropped stage → Gone line.redis)
      → Leaves line.redis (verify_step code_key attempts_key code stage line)
  unfolding verify_step incr
  step-Leaves code gets line h =
      command_elim (λ r. Leaves line.redis (moved (compared code) r)) (get_key code_key) line
        (λ _. (λ g. g, λ d. absurd (compared-HasDropped code _ d))) (λ _. (λ g. g, λ d. absurd d))
        (λ _. (λ g. g, λ d. absurd d))
  step-Leaves code counts line h = incr-Leaves line _
  step-Leaves code (expires n) line h =
      command_elim (λ r. Leaves line.redis (moved (λ _. limited n) r)) (expire attempts_key 300)
        line (λ _. (other-Gone _ line.redis, λ d. absurd (limited-HasDropped n d)))
        (λ _. (λ g. g, λ d. absurd d)) (λ _. (other-Gone _ line.redis, λ d. absurd d))
  step-Leaves code (drops a) line h =
      command_elim (λ r. Leaves line.redis (moved (λ _. drops_attempts a) r)) (del code_key) line
        (λ _.
          (λ _. put_key-same code_key none line.redis, λ _. put_key-same code_key none line.redis))
        (λ _. (λ g. g, λ d. absurd d))
        (λ _. (λ _. put_key-same code_key none line.redis, λ d. absurd d))
  step-Leaves code (drops_attempts a) line h =
      command_elim (λ r. Leaves line.redis (moved (λ _. answered a) r)) (del attempts_key) line
        (λ _. (other-Gone none line.redis, λ _. other-Gone none line.redis (h tt)))
        (λ _. (λ g. g, λ d. absurd d)) (λ _. (other-Gone none line.redis, λ d. absurd d))
  step-Leaves code (answered a) line h = (λ g. g, h)

  step-FindsNothing :
      (code : Text) (stage : Stage) (line : Line)
      → Gone line.redis
      → FindsNothing stage
      → FindsNothing (verify_step code_key attempts_key code stage line).0
  unfolding verify_step
  step-FindsNothing code gets line g f =
      command_elim (λ r. FindsNothing (moved (compared code) r).0) (get_key code_key) line
        (λ _. rw g tt) (λ _. tt) (λ _. tt)
  step-FindsNothing code counts line g f = absurd f
  step-FindsNothing code (expires n) line g f = absurd f
  step-FindsNothing code (drops a) line g f = absurd f
  step-FindsNothing code (drops_attempts a) line g f = absurd f
  step-FindsNothing code (answered a) line g f = f

abbrev CallDropped : Call → Type 0
CallDropped idle = ⊥
CallDropped (runs code stage) = HasDropped stage

-- The call has not begun, has not looked for a code yet, or has found none.
abbrev pub FoundNothing : Call → Type 0
FoundNothing idle = Unit
FoundNothing (runs code stage) = FindsNothing stage

abbrev IsGone : Text → Server → Type 0
IsGone email s = s.redis.keys (auth_code_key email) ≡ none

abbrev Drops : Text → Server → Type 0
Drops email s = (n : ℕ) → CallDropped (s.calls n) → IsGone email s

set_call-cases :
    (calls : ℕ → Call) (n : ℕ) (call : Call) (m : ℕ)
    → (set_call calls n call m ≡ call) ⊎ (set_call calls n call m ≡ calls m)
set_call-cases calls n call m = ground arith

set_call-holds {ℓ} :
    (P : Call → Type ℓ) (calls : ℕ → Call) (n : ℕ) (call : Call) (m : ℕ)
    → P call
    → P (calls m)
    → P (set_call calls n call m)
set_call-holds P calls n call m p q = elim (set_call-cases calls n call m) [
  | inl new ↦ subst P (sym new) p
  | inr old ↦ subst P (sym old) q
]

begun-CallDropped : (code : Text) (call : Call) → CallDropped (begun code call) → CallDropped call
unfolding begun
begun-CallDropped code idle d = d
begun-CallDropped code (runs c stage) d = d

begun-FoundNothing :
    (code : Text) (call : Call) → FoundNothing call → FoundNothing (begun code call)
unfolding begun
begun-FoundNothing code idle f = tt
begun-FoundNothing code (runs c stage) f = f

module _ (email : Text) where
  sent-Drops :
      (n : ℕ) (reaches : List Reach) (s : Server) (call : Call)
      → (CallDropped call → IsGone email s)
      → Drops email s
      → Drops email (sent email n reaches s call)
        × (IsGone email s → IsGone email (sent email n reaches s call))
  unfolding sent
  sent-Drops n reaches s idle h held = (held, λ g. g)
  sent-Drops n reaches s (runs code stage) h held =
      let line : Line = record { reaches = reaches; redis = s.redis } in
      let (stays, dropped) =
        step-Leaves (auth_code_key email) (auth_attempts_key email) (keys_differ email) code stage
          line h in
      (
        λ m.
            set_call-holds
              (λ call. CallDropped call → IsGone email (sent email n reaches s (runs code stage)))
              s.calls n _ m dropped (λ d. stays (held m d)),
        stays,
      )

  move-Drops :
      (s : Server) (mv : Move)
      → Drops email s
      → Drops email (move email s mv) × (IsGone email s → IsGone email (move email s mv))
  unfolding move
  move-Drops s (begins n code) held = (
    λ m.
        set_call-holds (λ call. CallDropped call → IsGone email s) s.calls n _ m
          (λ d. held n (begun-CallDropped code (s.calls n) d)) (held m),
    λ g. g,
  )
  move-Drops s (sends n reaches) held = sent-Drops n reaches s (s.calls n) (held n) held
  move-Drops s (waits seconds) held = (held, λ g. g)

  sent-FoundNothing :
      (n m : ℕ) (reaches : List Reach) (s : Server) (call : Call)
      → IsGone email s
      → (n ≡ m → FoundNothing call)
      → FoundNothing (s.calls m)
      → FoundNothing ((sent email n reaches s call).calls m)
  unfolding sent
  sent-FoundNothing n m reaches s idle g f q = q
  sent-FoundNothing n m reaches s (runs code stage) g f q = elim (Bool-cases (m == n)) [
    | inl same ↦ rw same (
        step-FindsNothing (auth_code_key email) (auth_attempts_key email) (keys_differ email) code
          stage (record { reaches = reaches; redis = s.redis }) g (f (ground (arith, same))))
    | inr other ↦ rw other q
  ]

  move-FoundNothing :
      (s : Server) (mv : Move) (m : ℕ)
      → IsGone email s
      → FoundNothing (s.calls m)
      → FoundNothing ((move email s mv).calls m)
  unfolding move
  move-FoundNothing s (begins n code) m g q = elim (Bool-cases (m == n)) [
    | inl same ↦ rw same (
        begun-FoundNothing code (s.calls n)
          (subst (λ x. FoundNothing (s.calls x)) (ground (arith, same)) q))
    | inr other ↦ rw other q
  ]
  move-FoundNothing s (sends n reaches) m g q =
      sent-FoundNothing n m reaches s (s.calls n) g
        (λ e. subst (λ x. FoundNothing (s.calls x)) (sym e) q) q
  move-FoundNothing s (waits seconds) m g q = q

  moves-Drops :
      (s : Server) (history : List Move) → Drops email s → Drops email (moves email s history)
  unfolding moves
  moves-Drops s [] held = held
  moves-Drops s (mv ∷ rest) held = moves-Drops (move email s mv) rest (move-Drops s mv held).0

  moves-FoundNothing :
      (s : Server) (history : List Move) (m : ℕ)
      → Drops email s
      → IsGone email s
      → FoundNothing (s.calls m)
      → FoundNothing ((moves email s history).calls m)
  unfolding moves
  moves-FoundNothing s [] m held g q = q
  moves-FoundNothing s (mv ∷ rest) m held g q =
      let (later, stays) = move-Drops s mv held in
      moves-FoundNothing (move email s mv) rest m later (stays g) (move-FoundNothing s mv m g q)

-- From any state of Redis, until the next sending for the address, with any number of verifications
-- whose commands interleave in any way and may fail: when one of them has answered that the code was
-- right, every verification that begins after that answer finds no code, and so accepts none.
pub accepted_once_over :
    (email : Text) (redis : Redis) (before after : List Move) (n m : ℕ) (code : Text)
    → (moves email (record { redis = redis; calls = λ i. idle }) before).calls n
      ≡ runs code (answered ok)
    → (moves email (record { redis = redis; calls = λ i. idle }) before).calls m ≡ idle
    → FoundNothing (
        (moves email (moves email (record { redis = redis; calls = λ i. idle }) before) after).calls
          m)
accepted_once_over email redis before after n m code accepted unbegun =
    let s : Server = moves email (record { redis = redis; calls = λ i. idle }) before in
    let held : Drops email s =
      moves-Drops email (record { redis = redis; calls = λ i. idle }) before (λ i d. absurd d) in
    moves-FoundNothing email s after m held (held n (subst CallDropped (sym accepted) tt))
      (subst FoundNothing (sym unbegun) tt)
