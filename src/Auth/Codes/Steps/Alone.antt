-- ===== src/Auth/Codes/Steps/Alone.antt =====
-- A verification whose commands nothing comes between.
use online_judge.Base.{ℕ, zero, suc, Text}
use online_judge.Redis.{Line}
use online_judge.Auth.Codes.{Answer}
use online_judge.Auth.Codes.Steps.{Stage, answered, verify_step}

module _ (code_key attempts_key code : Text) where
  pub verify_steps : ℕ → Stage × Line → Stage × Line
  verify_steps zero (stage, line) = (stage, line)
  verify_steps (suc n) (stage, line) =
      verify_steps n (verify_step code_key attempts_key code stage line)

  abbrev ended : Answer × Line → Stage × Line
  ended (answer, line) = (answered answer, line)
