-- ===== src/Auth/Login/Examples.antt =====
-- control_auth.hpp: the fifth failed log-in.
use online_judge.Base.{
  ◌+◌, ◌≤◌, ◌<◌, ◌≡◌, refl, Text, codes, [], some, none, true, ◌=t◌, Text-discrete, arith,
  if◌then◌else◌,
}
use online_judge.Base.Hex.{hex_encode}
use online_judge.Redis.{Line, number, command, incremented, find_key}
use online_judge.Auth.Passwords.{Hashing, sha256_hex}
use online_judge.Auth.Login.{
  Accounts, invalid_credentials, login_with_password, login_rate_key, rate_keys, judged_login,
  matching_account, failure_script, record_attempt, lock_seconds, resolve_account,
}
use online_judge.Auth.Login.Lockout.{IsRefused, login_lockout}

abbrev hashing : Hashing
hashing = record { sha256 = λ input. input; pepper = [] }

abbrev nobody : Accounts
nobody = record {
  email_of_name = λ name. none;
  password_auth = λ email. none;
  loads = λ email. true;
}

abbrev attempts_key : Text
attempts_key =
    login_rate_key hashing (codes "user") (codes "account") (codes "bob") (codes "attempts")

-- Four failures are counted.
abbrev four : Line
four = record {
  reaches = [];
  redis = record {
    now = 100;
    keys = λ key.
        if key =t attempts_key
        then some (record { value = number 4; deadline = some 900 })
        else none;
  };
}

-- A password that is too long.
abbrev long_password : Text
long_password =
    codes "aaaaaaaaaaaaaaaaaaaaaaaaaaaaaaaaaaaaaaaaaaaaaaaaaaaaaaaaaaaaaaaaaaaaaaaaaaaaaaaa"

abbrev ip : Text
ip = codes "10.0.0.1"

fifth :
    (login_with_password hashing nobody (codes "bob") long_password ip four).0 ≡ invalid_credentials
unfolding login_with_password login_rate_key rate_keys judged_login matching_account failure_script
    record_attempt lock_seconds resolve_account command Text-discrete hex_encode sha256_hex
fifth = refl

counted :
    incremented (find_key attempts_key four.redis)
    ≡ some (5, record { value = number 5; deadline = some 900 })
unfolding login_rate_key Text-discrete hex_encode sha256_hex
counted = refl

abbrev retried : Line
retried = record {
  reaches = [];
  redis = record (login_with_password hashing nobody (codes "bob") long_password ip four).1.redis {
    now = 104;
  };
}

soon : 104 < four.redis.now + lock_seconds 5 5
unfolding lock_seconds
soon = omega arith

login_lockout_example :
    IsRefused (login_with_password hashing nobody (codes "bob") (codes "secret12") ip retried).0
    × (login_with_password hashing nobody (codes "bob") (codes "secret12") ip retried
        ≡ login_with_password hashing nobody (codes "bob") long_password ip retried)
    × (5 ≤ lock_seconds 5 5)
    × (lock_seconds 5 5 ≤ 320)
login_lockout_example =
    login_lockout hashing nobody (codes "bob") long_password ip four 5 104
      (record { value = number 5; deadline = some 900 }) nobody nobody (codes "secret12")
      long_password ip retried counted (omega arith) fifth soon refl
