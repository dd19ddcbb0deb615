-- ===== src/Outbox/History/Counts.antt =====
-- model_submission.hpp: how often any operations hand a message of the outbox out.
use online_judge.Base.{ℕ, ◌+◌, ◌≤◌, Text, Option, none, some, tally}
use online_judge.Outbox.{Env}
use online_judge.Outbox.Claims.Attempts.{IsSoundAt, attempts, is_message}
use online_judge.Outbox.History.{Operation, Look, Store, step, forgotten_by}

module _ (env : Env) where
  abbrev LookIsSound : Option Look → Type 0
  LookIsSound none = Unit
  LookIsSound (some look) = IsSoundAt look.message_id look.found

  -- Every row is sound, and so is every row that a call has read.
  IsSoundStore : Store → Type 0
  IsSoundStore s =
      ((j : Text) → IsSoundAt j (s.database.outbox j)) × ((n : ℕ) → LookIsSound (s.looked n))

  -- What an operation does: the rows stay sound, and what it hands out is counted or forgotten.
  abbrev Accounts : Text → Store → Operation → Type 0
  Accounts k s op =
      IsSoundAt k ((step env s op).0.database.outbox k)
      × (attempts (s.database.outbox k) + tally (is_message k) (step env s op).1
          ≤ attempts ((step env s op).0.database.outbox k) + forgotten_by env k s op)
