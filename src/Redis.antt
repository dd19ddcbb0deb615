-- ===== src/Redis.antt =====
-- The commands of Redis that the business server sends through sw::redis, as Redis documents them, and
-- the connection that they are sent over: a command may throw before or after the server has run it.
-- Keys hold a text, a counter or a hash, and may have a moment at which they expire.
pub mod Commands
use online_judge.Base.{
  ℕ, suc, ◌+◌, Text, List, [], ◌∷◌, Option, none, some, Bool, true, false, leb, is_some,
  if◌then◌else◌, ◌=t◌,
}

pub data Value : Type 0 where
  text : Text → Value
  number : ℕ → Value
  hash : List (Text × Text) → Value

pub record Entry : Type 0 where
  pub value : Value
  pub deadline : Option ℕ

pub record Redis : Type 0 where
  pub now : ℕ
  pub keys : Text → Option Entry

abbrev pub is_over : ℕ → Option ℕ → Bool
is_over now none = false
is_over now (some deadline) = leb deadline now

abbrev pub unless_over : ℕ → Option Entry → Option Entry
unless_over now none = none
unless_over now (some entry) = if is_over now entry.deadline then none else some entry

abbrev pub find_key : Text → Redis → Option Entry
find_key key redis = unless_over redis.now (redis.keys key)

abbrev pub put_key : Text → Option Entry → Redis → Redis
put_key key entry redis = record redis {
  keys = λ other. if key =t other then entry else redis.keys other;
}

-- What GET answers; the replies to GET of a counter are not used.
abbrev pub text_of : Option Entry → Option Text
text_of none = none
text_of (some entry) = elim entry.value [ text t ↦ some t | _ ↦ none ]

abbrev pub get_key : Text → Redis → Option Text × Redis
get_key key redis = (text_of (find_key key redis), redis)

abbrev pub exists_key : Text → Redis → Bool × Redis
exists_key key redis = (is_some (find_key key redis), redis)

abbrev pub setex : Text → ℕ → Text → Redis → Unit {0} × Redis
setex key seconds t redis = (
  tt,
  put_key key (some (record { value = text t; deadline = some (redis.now + seconds) })) redis,
)

abbrev pub del : Text → Redis → Unit {0} × Redis
del key redis = (tt, put_key key none redis)

-- INCR starts an absent counter at 1 and keeps the expiry of one that is there; anything else is no counter.
abbrev pub incremented : Option Entry → Option (ℕ × Entry)
incremented none = some (1, record { value = number 1; deadline = none })
incremented (some entry) = elim entry.value [
  | number n ↦ some (suc n, record entry { value = number (suc n) })
  | _ ↦ none
]

abbrev pub expiring : ℕ → Option Entry → Option Entry
expiring deadline none = none
expiring deadline (some entry) = some (record entry { deadline = some deadline })

abbrev pub expire : Text → ℕ → Redis → Unit {0} × Redis
expire key seconds redis =
    (tt, put_key key (expiring (redis.now + seconds) (find_key key redis)) redis)

-- HGETALL: no fields for a key that is absent; of a value that is no hash, the fields are not used.
abbrev pub fields_of : Option Entry → List (Text × Text)
fields_of none = []
fields_of (some entry) = elim entry.value [ hash fields ↦ fields | _ ↦ [] ]

abbrev pub hgetall : Text → Redis → List (Text × Text) × Redis
hgetall key redis = (fields_of (find_key key redis), redis)

-- HSET of one field, or of several one after the other (HMSET), keeps the expiry.
abbrev pub set_field : Text → Text → List (Text × Text) → List (Text × Text)
set_field name value [] = (name, value) ∷ []
set_field name value ((other, old) ∷ fields) =
    let rest = set_field name value fields in
    if other =t name then (name, value) ∷ fields else (other, old) ∷ rest

abbrev set_fields : List (Text × Text) → List (Text × Text) → List (Text × Text)
set_fields [] fields = fields
set_fields ((name, value) ∷ more) fields = set_fields more (set_field name value fields)

abbrev deadline_of : Option Entry → Option ℕ
deadline_of none = none
deadline_of (some entry) = entry.deadline

abbrev pub hmset : Text → List (Text × Text) → Redis → Unit {0} × Redis
hmset key new redis =
    let found = find_key key redis in
    (
      tt,
      put_key key
          (some (record {
            value = hash (set_fields new (fields_of found));
            deadline = deadline_of found;
          }))
          redis,
    )

-- What becomes of a command on the way.
pub data Reach : Type 0 where
  reached : Reach
  request_lost : Reach
  reply_lost : Reach

-- The connection: what becomes of the next commands (all later ones are reached), and the server.
pub record Line : Type 0 where
  pub reaches : List Reach
  pub redis : Redis

abbrev next_reach : List Reach → Reach
next_reach [] = reached
next_reach (r ∷ rs) = r

abbrev later : List Reach → List Reach
later [] = []
later (r ∷ rs) = rs

abbrev pub perform {ℓ} : {A : Type ℓ} → (Redis → A × Redis) → Reach → Line → Option A × Line
perform f reached line = (some (f line.redis).0, record line { redis = (f line.redis).1 })
perform f request_lost line = (none, line)
perform f reply_lost line = (none, record line { redis = (f line.redis).1 })

-- A command: its reply, or `none` for what it throws.
unfoldable pub command {ℓ} : {A : Type ℓ} → (Redis → A × Redis) → Line → Option A × Line
command f line = perform f (next_reach line.reaches) (record line { reaches = later line.reaches })

abbrev pub incr_found : Text → Option (ℕ × Entry) → Line → Option ℕ × Line
incr_found key none line = (none, line)
incr_found key (some (n, entry)) line = command (λ redis. (n, put_key key (some entry) redis)) line

-- INCR throws as well when the key holds no counter.
unfoldable pub incr : Text → Line → Option ℕ × Line
unfolding command
incr key line = incr_found key (incremented (find_key key line.redis)) line
