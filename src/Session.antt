-- ===== src/Session.antt =====
-- The sessions of users, src/oj_server/include/oj_session.hpp: a hash in Redis for each session, and a
-- map of the process for the time in which Redis does not answer. `time` and the random generator are
-- parameters; the lock of each call makes it one step.
pub mod Revoked
pub mod History
pub mod Cookie
mod Examples
use online_judge.Base.{
  ℕ, suc, ◌+◌, ◌-◌, ◌*◌, Text, codes, List, [], ◌∷◌, ◌++◌, Option, none, some, Bool, true, false,
  not, ◌&&◌, ◌||◌, ltb, leb, ◌==◌, ◌=t◌, is_empty, is_some, length, if◌then◌else◌,
}
use online_judge.Base.Hex.{hex_encode}
use online_judge.Base.Decimal.{to_string}
use online_judge.Comm.{is_digit, all_of}
use online_judge.Redis.{Redis, Line, command, hmset, hgetall, expire, del}

pub record Session : Type 0 where
  pub session_id : Text
  pub user_id : ℕ
  pub email : Text
  pub create_time : ℕ
  pub last_access_time : ℕ

-- `SessionManager`.
pub record Manager : Type 0 where
  pub sessions : Text → Option Session
  pub line : Line

abbrev pub session_expire_seconds : ℕ
session_expire_seconds = 604800

-- `BuildSessionKey`.
pub session_key : Text → Text
session_key session_id = codes "oj:prod:v1:session:user:" ++ session_id

abbrev pub put_session : Text → Option Session → (Text → Option Session) → Text → Option Session
put_session id entry sessions other = if id =t other then entry else sessions other

-- `GenerateSessionId`, for what `RAND_bytes` gives.
pub generate_session_id : Option (List ℕ) → Text
generate_session_id none = []
generate_session_id (some bytes) = hex_encode bytes

abbrev pub hash_of : Session → List (Text × Text)
hash_of s =
    (codes "session_id", s.session_id)
    ∷ (codes "user_id", to_string s.user_id)
    ∷ (codes "email", s.email)
    ∷ (codes "create_time", to_string s.create_time)
    ∷ (codes "last_access_time", to_string s.last_access_time)
    ∷ []

-- A call that may throw: the value, or `none`.
abbrev pub then_else {ℓ κ} :
    {A : Type ℓ} {B : Type κ} → (A → Line → Option B × Line) → Option A × Line → Option B × Line
then_else next (none, line) = (none, line)
then_else next (some a, line) = next a line

-- `SetSessionToRedis`.
pub set_session_to_redis : Session → Line → Option (Unit {0}) × Line
set_session_to_redis s line =
    then_else (λ _ line'. command (expire (session_key s.session_id) session_expire_seconds) line')
      (command (hmset (session_key s.session_id) (hash_of s)) line)

abbrev pub created : Session → Manager → Option (Unit {0}) × Line → Manager
created s m (none, line) = record {
  sessions = put_session s.session_id (some s) m.sessions;
  line = line;
}
created s m (some _, line) = record m { line = line }

abbrev pub new_session : (id : Text) → (user_id : ℕ) → (email : Text) → (time : ℕ) → Session
new_session id user_id email time = record {
  session_id = id;
  user_id = user_id;
  email = email;
  create_time = time;
  last_access_time = time;
}

-- `CreateSession`; the identifier is empty when the random generator fails.
pub create_session :
    Option (List ℕ) → (user_id : ℕ) → (email : Text) → (time : ℕ) → Manager → Text × Manager
create_session random user_id email time m =
    let id = generate_session_id random in
    let s = new_session id user_id email time in
    if is_empty id then ([], m) else (id, created s m (set_session_to_redis s m.line))

abbrev pub find_field : Text → List (Text × Text) → Option Text
find_field name [] = none
find_field name ((other, value) ∷ fields) =
    let rest = find_field name fields in if other =t name then some value else rest

abbrev pub digits_value : ℕ → Text → ℕ
digits_value read [] = read
digits_value read (c ∷ cs) = digits_value (10 * read + (c - b'0')) cs

-- `ParseInteger`, for the numbers that pass the tests after it: the negative ones do not.
pub parse_positive : (limit : ℕ) → Option Text → Option ℕ
parse_positive limit none = none
parse_positive limit (some encoded) =
    let value = digits_value 0 encoded in
    if is_empty encoded || not (all_of is_digit encoded) || ltb limit value || value == 0
    then none
    else some value

abbrev valid_email : Option Text → Option Text
valid_email none = none
valid_email (some email) = if is_empty email || ltb 320 (length email) then none else some email

abbrev has_id : Text → Option Text → Bool
has_id id none = false
has_id id (some stored) = stored =t id

abbrev checked : Text → Bool → Option ℕ → Option Text → Option ℕ → Option ℕ → Option Session
checked id true (some user_id) (some email) (some create_time) (some last_access_time) =
    if ltb last_access_time create_time
    then none
    else some (record {
      session_id = id;
      user_id = user_id;
      email = email;
      create_time = create_time;
      last_access_time = last_access_time;
    })
checked id ok user_id email create_time last_access_time = none

-- The tests of `GetSessionFromRedis` on the fields of a hash.
pub parse_session : Text → List (Text × Text) → Option Session
parse_session id fields =
    checked id (length fields == 5 && has_id id (find_field (codes "session_id") fields))
      (parse_positive 2147483647 (find_field (codes "user_id") fields))
      (valid_email (find_field (codes "email") fields))
      (parse_positive 9223372036854775807 (find_field (codes "create_time") fields))
      (parse_positive 9223372036854775807 (find_field (codes "last_access_time") fields))

abbrev pub accessed : ℕ → Session → Session
accessed time s = record s { last_access_time = time }

-- The renewal of a session that is found.
pub renew_session : Text → (time : ℕ) → Option Session → Line → Option (Option Session) × Line
renew_session id time none line = (some none, line)
renew_session id time (some s) line =
    then_else
      (λ _ line'.
        then_else (λ _ line''. (some (some (accessed time s)), line''))
          (command (expire (session_key id) session_expire_seconds) line'))
      (command (hmset (session_key id) ((codes "last_access_time", to_string time) ∷ [])) line)

-- `GetSessionFromRedis`: `none` for an exception, `some none` for `false`.
pub get_session_from_redis : Text → (time : ℕ) → Line → Option (Option Session) × Line
get_session_from_redis id time line =
    then_else (λ fields line'. renew_session id time (parse_session id fields) line')
      (command (hgetall (session_key id)) line)

-- The look-up in the map of the process.
pub get_local : Text → (time : ℕ) → Option Session → Manager → Option Session × Manager
get_local id time none m = (none, m)
get_local id time (some s) m =
    if ltb session_expire_seconds (time - s.last_access_time)
    then (none, record m { sessions = put_session id none m.sessions })
    else (
      some (accessed time s),
      record m { sessions = put_session id (some (accessed time s)) m.sessions },
    )

pub got_session :
    Text → (time : ℕ) → Manager → Option (Option Session) × Line → Option Session × Manager
got_session id time m (none, line) = get_local id time (m.sessions id) (record m { line = line })
got_session id time m (some none, line) =
    (none, record { sessions = put_session id none m.sessions; line = line })
got_session id time m (some (some s), line) = (some s, record m { line = line })

-- `GetSession`.
pub get_session : Text → (time : ℕ) → Manager → Option Session × Manager
get_session id time m = got_session id time m (get_session_from_redis id time m.line)

-- `DestroySession`.
pub destroy_session : Text → Manager → Bool × Manager
destroy_session id m =
    let (reply, line) = command (del (session_key id)) m.line in
    (is_some reply, record { sessions = put_session id none m.sessions; line = line })
