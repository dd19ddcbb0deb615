-- ===== src/Auth/Passwords.antt =====
-- control_auth.hpp: authentication codes, and passwords with their hashes. SHA-256, the random generator
-- and the pepper of the environment are parameters.
pub mod RoundTrip
mod Examples
use online_judge.Base.{
  ℕ, zero, suc, ◌+◌, ◌-◌, ◌*◌, ◌%◌, ◌≡◌, Text, codes, List, [], ◌∷◌, ◌++◌, Option, none, some, Bool,
  true, false, not, ◌&&◌, ◌||◌, ltb, leb, ◌==◌, ◌=t◌, is_empty, length, if◌then◌else◌,
}
use online_judge.Base.Int.{ℤ, pos, negsuc}
use online_judge.Base.Hex.{hex_encode}
use online_judge.Base.Decimal.{to_string, digits_before}
use online_judge.Comm.{between, is_digit, skip_spaces}
use online_judge.Comm.Split.{split_string}

-- `oss.width(6)` with the fill `'0'`.
abbrev zeros : ℕ → Text
zeros zero = []
zeros (suc n) = b'0' ∷ zeros n

abbrev pub pad_left : ℕ → Text → Text
pad_left width shown = zeros (width - length shown) ++ shown

-- `GenerateAuthCode`, for the words that `RAND_bytes` draws one after the other: `none` for a call that
-- fails; `none` as the result when the words of the list are all rejected.
pub generate_auth_code : List (Option ℕ) → Option Text
unfolding to_string
generate_auth_code [] = none
generate_auth_code (none ∷ draws) = some []
generate_auth_code (some random_value ∷ draws) =
    let rest = generate_auth_code draws in
    if leb 4294000000 random_value
    then rest
    else some (pad_left 6 (to_string (random_value % 1000000)))

-- The loop of `IsPasswordStrongEnough`.
pub has_class : (ℕ → Bool) → Text → Bool
has_class p [] = false
has_class p (c ∷ cs) = p c || has_class p cs

abbrev is_alpha : ℕ → Bool
is_alpha c = between b'A' b'Z' c || between b'a' b'z' c

-- `IsPasswordStrongEnough`.
pub is_password_strong_enough : Text → Bool
unfolding has_class
is_password_strong_enough password =
    if ltb (length password) 8 || ltb 72 (length password)
    then false
    else has_class is_alpha password && has_class is_digit password

abbrev pub password_algo_tag : Text
password_algo_tag = codes "sha256_iter_v1"

abbrev pub password_iterations : ℕ
password_iterations = 120000

-- SHA-256 and the pepper.
pub record Hashing : Type 0 where
  pub sha256 : Text → List ℕ
  pub pepper : Text

-- `Sha256Hex`.
unfoldable pub sha256_hex : Hashing → Text → Text
sha256_hex h input = hex_encode (h.sha256 input)

-- The loop of `DerivePasswordDigest`, for the rounds that are left.
pub derive_rounds : Hashing → (salt : Text) → (rounds : ℕ) → (digest : Text) → Text
unfolding sha256_hex
derive_rounds h salt zero digest = digest
derive_rounds h salt (suc rounds) digest =
    derive_rounds h salt rounds
      (sha256_hex h (digest ++ codes ":" ++ salt ++ codes ":" ++ h.pepper))

-- `DerivePasswordDigest`.
pub derive_password_digest : Hashing → (password salt : Text) → (iterations : ℕ) → Text
unfolding derive_rounds
derive_password_digest h password salt iterations =
    derive_rounds h salt (iterations - 1)
      (sha256_hex h (salt ++ codes ":" ++ password ++ codes ":" ++ h.pepper))

-- `GenerateSaltHex(16)`, for what `RAND_bytes` gives.
pub generate_salt_hex : Option (List ℕ) → Text
generate_salt_hex none = []
generate_salt_hex (some raw) = hex_encode raw

abbrev pub dollar : Text
dollar = codes "$"

-- `BuildPasswordHash`.
pub build_password_hash : Hashing → Option (List ℕ) → Text → Text
build_password_hash h raw password =
    let salt = generate_salt_hex raw in
    let digest = derive_password_digest h password salt password_iterations in
    if is_empty salt || is_empty digest
    then []
    else salt ++ (dollar ++ (to_string password_iterations ++ (dollar ++ digest)))

-- The digits at the front of a text, after those that were read.
abbrev pub read_digits : ℕ → Text → ℕ
read_digits read [] = read
read_digits read (c ∷ cs) =
    let rest = read_digits (10 * read + (c - b'0')) cs in if is_digit c then rest else read

abbrev starts_with_digit : Text → Bool
starts_with_digit [] = false
starts_with_digit (c ∷ cs) = is_digit c

abbrev negated : ℕ → ℤ
negated zero = pos 0
negated (suc n) = negsuc n

-- `std::stoi`, `none` for what it throws: after white space and a sign, the digits up to another byte.
abbrev signed : Text → Option ℤ
signed [] = none
signed (c ∷ cs) =
    if c == b'-'
    then (if not (starts_with_digit cs) || ltb 2147483648 (read_digits 0 cs)
        then none
        else some (negated (read_digits 0 cs)))
    else let digits = if c == b'+' then cs else c ∷ cs in
      if not (starts_with_digit digits) || ltb 2147483647 (read_digits 0 digits)
      then none
      else some (pos (read_digits 0 digits))

unfoldable pub stoi : Text → Option ℤ
stoi s = signed (skip_spaces s)

abbrev is_iterations : Option ℤ → Bool
is_iterations (some (pos n)) = n == password_iterations
is_iterations other = false

-- The parts of a stored hash.
pub verify_parts : Hashing → Text → List Text → Bool
verify_parts h password (salt ∷ iterations ∷ digest ∷ []) =
    if not (is_iterations (stoi iterations)) || not (length salt == 32) || not (length digest == 64)
    then false
    else derive_password_digest h password salt password_iterations =t digest
verify_parts h password parts = false

-- `SplitString(stored_hash, "$", &parts)`; the fuel is enough by the length.
abbrev pub parts_of : Option (List Text) → List Text
parts_of none = []
parts_of (some parts) = parts

-- `VerifyPasswordHash`.
pub verify_password_hash : Hashing → (password stored_hash algo : Text) → Bool
verify_password_hash h password stored_hash algo =
    if not (algo =t password_algo_tag)
    then false
    else verify_parts h password
        (parts_of (split_string (suc (length stored_hash)) dollar stored_hash))

-- `BuildSecurePasswordHash`, with the password hash or the error code.
pub data Secured : Type 0 where
  secured : Text → Secured
  weak : Secured
  failed : Secured

pub build_secure_password_hash : Hashing → Option (List ℕ) → Text → Secured
build_secure_password_hash h raw password =
    if not (is_password_strong_enough password)
    then weak
    else let hash = build_password_hash h raw password in
      if is_empty hash then failed else secured hash
