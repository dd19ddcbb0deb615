-- ===== src/Auth/Requests.antt =====
-- control_auth.hpp: the requests that a code authorizes. The queries of
-- src/oj_server/include/model/model_user.hpp answer as parameters; the calls that change a user are the
-- effects of a request.
pub mod Single
mod Examples
use online_judge.Base.{
  ℕ, zero, suc, ◌%◌, Text, codes, List, [], ◌∷◌, ◌++◌, Option, none, some, Bool, true, false, not,
  ltb, ◌==◌, ◌=t◌, is_empty, length, if◌then◌else◌,
}
use online_judge.Base.Decimal.{to_string}
use online_judge.Comm.{trim_space}
use online_judge.Redis.{Line, command, exists_key, setex}
use online_judge.Auth.Codes.{
  Answer, ok, same_email, email_already_exists, update_email_failed, load_user_failed,
  weak_password, password_hash_failed, update_password_failed, delete_user_failed,
  register_name_required, create_user_failed, too_many_requests, csprng_failed, email_daily_limit,
  ip_daily_limit, or_redis_error, verify_email_auth_code, check_code, daily_limit, store_code,
  email_daily_limit_key, ip_daily_limit_key, Sending,
}
use online_judge.Auth.Passwords.{
  Hashing, sha256_hex, is_password_strong_enough, build_password_hash, password_algo_tag,
}

pub data Effect : Type 0 where
  creates_user : (name email : Text) → Effect
  sets_password : (email hash algo : Text) → Effect
  updates_last_login : Text → Effect
  updates_email : (old_email new_email : Text) → Effect
  deletes_user : Text → Effect

-- The answers of the queries to one request: CheckUser, CreateUser, SetUserPassword, GetUser,
-- UpdateUserEmail and DeleteUserByEmail; with the salt of a new hash and the clock's seconds.
pub record Queries : Type 0 where
  pub user_exists : Bool
  pub user_created : Bool
  pub password_set : Bool
  pub user_loaded : Bool
  pub email_updated : Bool
  pub user_deleted : Bool
  pub salt : Option (List ℕ)
  pub seconds : ℕ

pub record Done : Type 0 where
  pub answer : Answer
  pub effects : List Effect

abbrev answers_only : Answer → Done
answers_only a = record { answer = a; effects = [] }

abbrev before_at : Text → Text
before_at [] = []
before_at (c ∷ cs) = let rest = before_at cs in if c == b'@' then [] else c ∷ rest

-- `resize` to at most `n` bytes.
abbrev resized : ℕ → Text → Text
resized zero s = []
resized (suc n) [] = []
resized (suc n) (c ∷ s) = c ∷ resized n s

-- `BuildDefaultUserName`.
pub build_default_user_name : (email optional_name : Text) → (seconds : ℕ) → Text
build_default_user_name email optional_name seconds =
    let name = trim_space optional_name in
    let prefix = before_at email in
    if not (is_empty name)
    then resized 64 name
    else resized 32 (if is_empty prefix then codes "user" else prefix)
      ++ codes "_"
      ++ to_string (seconds % 100000)

-- `SetPasswordForUser`.
pub set_password_for_user : Hashing → Queries → (email password : Text) → Done
set_password_for_user h q email password =
    let password_hash = build_password_hash h q.salt password in
    if not (is_password_strong_enough password)
    then answers_only weak_password
    else if is_empty password_hash
    then answers_only password_hash_failed
    else record {
      answer = if q.password_set then ok else update_password_failed;
      effects = sets_password email password_hash password_algo_tag ∷ [];
    }

abbrev login_end : Queries → Text → List Effect → Done
login_end q email effects = record {
  answer = if q.user_loaded then ok else load_user_failed;
  effects = effects ++ (updates_last_login email ∷ []);
}

-- The registration within `VerifyEmailAuthCodeAndLogin`, after CreateUser.
abbrev registered : Hashing → Queries → (email password name : Text) → Done
registered h q email password name =
    let created = creates_user name email in
    let password_hash = build_password_hash h q.salt password in
    let set = sets_password email password_hash password_algo_tag in
    if not q.user_created
    then record { answer = create_user_failed; effects = created ∷ [] }
    else if is_empty password_hash
    then record { answer = password_hash_failed; effects = created ∷ [] }
    else if not q.password_set
    then record { answer = update_password_failed; effects = created ∷ set ∷ [] }
    else login_end q email (created ∷ set ∷ [])

-- `VerifyEmailAuthCodeAndLogin`, after the code was right.
pub login_or_register : Hashing → Queries → (email optional_name optional_password : Text) → Done
login_or_register h q email optional_name optional_password =
    let trimmed_name = trim_space optional_name in
    if q.user_exists
    then login_end q email []
    else if is_empty trimmed_name
    then answers_only register_name_required
    else if not (is_password_strong_enough optional_password)
    then answers_only weak_password
    else registered h q email optional_password
        (build_default_user_name email trimmed_name q.seconds)

-- `DeleteAccountWithCode`, after the code was right.
abbrev delete_account : Queries → Text → Done
delete_account q email = record {
  answer = if q.user_deleted then ok else delete_user_failed;
  effects = deletes_user email ∷ [];
}

-- What follows the verification: its answer, if that is not `true`.
abbrev pub if_verified : Done → Answer × Line → Done × Line
if_verified done (ok, line) = (done, line)
if_verified done (answer, line) = (answers_only answer, line)

-- `VerifyEmailAuthCodeAndLogin`, `ChangePasswordWithCode` and `DeleteAccountWithCode`.
pub data Request : Type 0 where
  logs_in : (optional_name optional_password : Text) → Request
  changes_password : Text → Request
  deletes_account : Request

abbrev pub carried_out : Hashing → Queries → Text → Request → Done
carried_out h q email (logs_in name password) = login_or_register h q email name password
carried_out h q email (changes_password password) = set_password_for_user h q email password
carried_out h q email deletes_account = delete_account q email

pub request_with_code : Hashing → Queries → (email code : Text) → Request → Line → Done × Line
request_with_code h q email code request line =
    if_verified (carried_out h q email request) (verify_email_auth_code email code line)

-- `BuildEmailChangeCodeKey`, `BuildEmailChangeAttemptsKey`, and the key of the cooldown.
pub email_change_key : Hashing → ℕ → (new_email suffix : Text) → Text
email_change_key h uid new_email suffix =
    codes "oj:auth:change-email:"
    ++ (to_string uid ++ (codes ":" ++ (sha256_hex h new_email ++ (codes ":" ++ suffix))))

pub email_change_cooldown_key : Hashing → ℕ → Text → Text
email_change_cooldown_key h uid new_email =
    codes "oj:auth:change-email:cooldown:"
    ++ (to_string uid ++ (codes ":" ++ sha256_hex h new_email))

-- The part of `SendEmailChangeCode` behind the limits.
pub issue_change_code : Hashing → (uid : ℕ) → (new_email : Text) → Sending → Line → Answer × Line
issue_change_code h uid new_email s line =
    if is_empty s.code
    then (csprng_failed, line)
    else or_redis_error
        (λ _ line'.
          store_code (email_change_key h uid new_email (codes "code"))
            (email_change_key h uid new_email (codes "attempts"))
            (email_change_cooldown_key h uid new_email) s line')
        (command (setex (email_change_cooldown_key h uid new_email) 60 (codes "1")) line)

-- `SendEmailChangeCode`.
pub send_email_change_code :
    Hashing
    → Queries
    → (uid : ℕ) → (email new_email client_ip : Text) → Sending
    → Line
    → Answer × Line
send_email_change_code h q uid email new_email client_ip s line =
    if new_email =t email
    then (same_email, line)
    else if q.user_exists
    then (email_already_exists, line)
    else or_redis_error
        (λ cooling line'.
          if cooling
          then (too_many_requests, line')
          else daily_limit (email_daily_limit_key s.date new_email) s.seconds_left 20
              email_daily_limit
              (daily_limit (ip_daily_limit_key s.date client_ip) s.seconds_left 50 ip_daily_limit
                (issue_change_code h uid new_email s))
              line')
        (command (exists_key (email_change_cooldown_key h uid new_email)) line)

-- `ChangeEmailWithCode`, after the code was right.
pub change_email : Queries → (email new_email : Text) → Done
change_email q email new_email =
    if q.user_exists then answers_only email_already_exists else record {
      answer =
          if not q.email_updated
          then update_email_failed
          else if q.user_loaded
          then ok
          else load_user_failed;
      effects = updates_email email new_email ∷ [];
    }

-- `ChangeEmailWithCode`.
pub change_email_with_code :
    Hashing → Queries → (uid : ℕ) → (email new_email code : Text) → Line → Done × Line
change_email_with_code h q uid email new_email code line =
    if new_email =t email
    then (answers_only same_email, line)
    else if_verified (change_email q email new_email) (
        check_code (email_change_key h uid new_email (codes "code"))
          (email_change_key h uid new_email (codes "attempts")) code line)
