-- ===== src/Redis/Commands.antt =====
-- The commands of Redis: the key that a command is about, the other keys, and what a connection makes
-- of a command.
use online_judge.Base.{◌≡◌, refl, ◌≢◌, Text, List, Option, none, some, Text-discrete, arith}
use online_judge.Redis.{
  Entry, Redis, Line, put_key, command, perform, Reach, reached, request_lost, reply_lost,
}

pub put_key-same :
    (key : Text) (entry : Option Entry) (redis : Redis) → (put_key key entry redis).keys key ≡ entry
unfolding Text-discrete
put_key-same key entry redis = elim (Text-discrete key key) [
  | yes same ↦ ground (arith, same)
  | no other ↦ absurd (other refl)
]

pub put_key-other :
    (key other : Text) (entry : Option Entry) (redis : Redis)
    → key ≢ other
    → (put_key key entry redis).keys other ≡ redis.keys other
unfolding Text-discrete
put_key-other key other entry redis differ = elim (Text-discrete key other) [
  | yes same ↦ absurd (differ same)
  | no _ ↦ ground (arith, differ)
]

perform_elim {ℓ κ} :
    {A : Type ℓ} (P : Option A × Line → Type κ) (f : Redis → A × Redis) (reach : Reach)
    (line : Line)
    → P (some (f line.redis).0, record line { redis = (f line.redis).1 })
    → P (none, line)
    → P (none, record line { redis = (f line.redis).1 })
    → P (perform f reach line)
perform_elim P f reached line run lost unknown = run
perform_elim P f request_lost line run lost unknown = lost
perform_elim P f reply_lost line run lost unknown = unknown

-- What holds of a reply with the server's new state, of an exception with the state before, and of an
-- exception with the new state, holds of a command.
pub command_elim {ℓ κ} :
    {A : Type ℓ} (P : Option A × Line → Type κ) (f : Redis → A × Redis) (line : Line)
    → ((reaches : List Reach)
        → P (some (f line.redis).0, record { reaches = reaches; redis = (f line.redis).1 }))
    → ((reaches : List Reach) → P (none, record { reaches = reaches; redis = line.redis }))
    → ((reaches : List Reach) → P (none, record { reaches = reaches; redis = (f line.redis).1 }))
    → P (command f line)
unfolding command
command_elim P f line run lost unknown = perform_elim P f _ _ (run _) (lost _) (unknown _)
