-- ===== src/Auth/Requests/Examples.antt =====
-- control_auth.hpp: two requests with one code.
use online_judge.Base.{
  ◌≤◌, ◌≡◌, refl, Text, codes, List, [], ◌∷◌, none, some, true, tally, Text-discrete,
}
use online_judge.Base.Decimal.{to_string, digits_before}
use online_judge.Comm.{trim_space}
use online_judge.Redis.{Line, command, incr}
use online_judge.Auth.Codes.{Sending, ok, send_email_auth_code}
use online_judge.Auth.Passwords.{Hashing}
use online_judge.Auth.Requests.{Queries, deletes_account, changes_password, build_default_user_name}
use online_judge.Auth.Requests.Single.{Use, requests, waits, uses, changes, one_change_per_code}

abbrev address : Text
address = codes "a@b.cc"

abbrev sending : Sending
sending = record {
  date = codes "20260101";
  seconds_left = 100;
  code = codes "123456";
  mailed = true;
}

abbrev idle : Line
idle = record { reaches = []; redis = record { now = 1000; keys = λ key. none } }

sent : (send_email_auth_code address (codes "10.0.0.1") sending idle).0 ≡ ok
unfolding send_email_auth_code command incr Text-discrete
sent = refl

abbrev hashing : Hashing
hashing = record { sha256 = λ input. input; pepper = [] }

abbrev fine : Queries
fine = record {
  user_exists = true;
  user_created = true;
  password_set = true;
  user_loaded = true;
  email_updated = true;
  user_deleted = true;
  salt = some (1 ∷ []);
  seconds = 1700000042;
}

default_name : build_default_user_name address [] 1700000042 ≡ codes "a_42"
unfolding build_default_user_name trim_space to_string digits_before
default_name = refl

abbrev twice : List Use
twice =
    requests fine (codes "123456") deletes_account []
    ∷ waits 5
    ∷ requests fine (codes "123456") (changes_password (codes "secret12")) []
    ∷ []

one_change_per_code_example :
    tally changes (
      uses hashing address twice
        (send_email_auth_code address (codes "10.0.0.1") sending idle).1.redis)
    ≤ 1
one_change_per_code_example =
    one_change_per_code hashing address (codes "10.0.0.1") sending idle twice sent
