-- ===== src/Auth/Codes/Examples.antt =====
-- control_auth.hpp: a code that is sent and guessed.
use online_judge.Base.{◌≤◌, ◌≡◌, refl, Text, codes, List, [], ◌∷◌, none, true, tally, Text-discrete}
use online_judge.Redis.{Redis, Line, reply_lost, command, incr}
use online_judge.Auth.Codes.{ok, Sending, send_email_auth_code}
use online_judge.Auth.Codes.Guard.{tells}
use online_judge.Auth.Codes.Limits.{Event, guesses, passes, answers, accepts, code_limits}
use online_judge.Auth.Codes.Steps
use online_judge.Auth.Codes.Steps.{answered, runs, Server, Move, begins, sends, moves}
use online_judge.Auth.Codes.Steps.Ended.{FoundNothing, accepted_once_over}

abbrev address : Text
address = codes "a@b.cc"

abbrev sending : Sending
sending = record {
  date = codes "20260101";
  seconds_left = 100;
  code = codes "123456";
  mailed = true;
}

abbrev idle : Line
idle = record { reaches = []; redis = record { now = 1000; keys = λ key. none } }

sent : (send_email_auth_code address (codes "10.0.0.1") sending idle).0 ≡ ok
unfolding send_email_auth_code command incr Text-discrete
sent = refl

-- A wrong code, the right one while the reply to the first command is lost, and the right one twice.
abbrev tries : List Event
tries =
    guesses (codes "000000") []
    ∷ passes 10
    ∷ guesses (codes "123456") (reply_lost ∷ [])
    ∷ guesses (codes "123456") []
    ∷ guesses (codes "123456") []
    ∷ []

code_limits_example :
    (tally tells (
        answers address tries
          (send_email_auth_code address (codes "10.0.0.1") sending idle).1.redis)
      ≤ 5)
    × (tally accepts (
          answers address tries
            (send_email_auth_code address (codes "10.0.0.1") sending idle).1.redis)
        ≤ 1)
code_limits_example = code_limits address (codes "10.0.0.1") sending idle tries sent

-- The state of Redis after the sending.
abbrev issued : Redis
issued = (send_email_auth_code address (codes "10.0.0.1") sending idle).1.redis

abbrev server : Server
server = record { redis = issued; calls = λ n. Steps.idle }

-- Two verifications read the code before either of them deletes it.
abbrev together : List Move
together =
    begins 0 (codes "123456")
    ∷ begins 1 (codes "123456")
    ∷ sends 0 []
    ∷ sends 1 []
    ∷ sends 0 []
    ∷ sends 0 []
    ∷ sends 1 []
    ∷ sends 1 []
    ∷ []

first_accepted : (moves address server together).calls 0 ≡ runs (codes "123456") (answered ok)
unfolding moves send_email_auth_code command incr Text-discrete
first_accepted = refl

second_accepted : (moves address server together).calls 1 ≡ runs (codes "123456") (answered ok)
unfolding moves send_email_auth_code command incr Text-discrete
second_accepted = refl

third_unbegun : (moves address server together).calls 2 ≡ Steps.idle
unfolding moves send_email_auth_code command incr Text-discrete
third_unbegun = refl

abbrev third : List Move
third = begins 2 (codes "123456") ∷ sends 2 [] ∷ []

accepted_once_over_example :
    FoundNothing ((moves address (moves address server together) third).calls 2)
accepted_once_over_example =
    accepted_once_over address issued together third 0 2 (codes "123456") first_accepted
      third_unbegun

abbrev code_line : Line
code_line = record { reaches = []; redis = issued }
