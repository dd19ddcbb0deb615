-- ===== src/Comm.antt =====
-- The string utilities of src/comm/comm.hpp. The character classes are those of the "C" locale.
pub mod UrlEncode
pub mod Trimmed
pub mod Split
mod Examples
use online_judge.Base.{
  ℕ, ◌+◌, ◌*◌, ◌/◌, ◌%◌, Text, List, [], ◌∷◌, Bool, true, false, not, ◌&&◌, ◌||◌, ltb, leb, ◌==◌,
  is_empty, length, if◌then◌else◌,
}

abbrev pub between : ℕ → ℕ → ℕ → Bool
between a b c = leb a c && leb c b

abbrev pub is_digit : ℕ → Bool
is_digit c = between b'0' b'9' c

abbrev pub is_alnum : ℕ → Bool
is_alnum c = is_digit c || between b'A' b'Z' c || between b'a' b'z' c

-- `std::isspace`.
abbrev pub is_space : ℕ → Bool
is_space c = c == 32 || between 9 13 c

-- `RemoveAllWhitespace`.
pub remove_all_whitespace : Text → Text
remove_all_whitespace [] = []
remove_all_whitespace (c ∷ cs) =
    let rest = remove_all_whitespace cs in
    if not (c == 32) && not (c == 10) && not (c == 13) && not (c == 9) then c ∷ rest else rest

-- The loops of `Trim`: from the front, and from the back.
unfoldable pub skip_spaces : Text → Text
skip_spaces [] = []
skip_spaces (c ∷ cs) = let rest = skip_spaces cs in if is_space c then rest else c ∷ cs

pub drop_spaces : Text → Text
drop_spaces [] = []
drop_spaces (c ∷ cs) =
    let rest = drop_spaces cs in if is_empty rest && is_space c then [] else c ∷ rest

-- `Trim`.
pub trim : Text → Text
unfolding skip_spaces drop_spaces
trim s = drop_spaces (skip_spaces s)

-- `TrimSpace`.
unfoldable pub trim_space : Text → Text
unfolding skip_spaces drop_spaces
trim_space input = drop_spaces (skip_spaces input)

unfoldable pub all_of : (ℕ → Bool) → Text → Bool
all_of p [] = true
all_of p (c ∷ cs) = p c && all_of p cs

-- `IsValidAuthCode`.
pub is_valid_auth_code : Text → Bool
unfolding all_of
is_valid_auth_code code = if not (length code == 6) then false else all_of is_digit code

-- The bytes that `url_encode` keeps.
abbrev pub is_unreserved : ℕ → Bool
is_unreserved c = is_alnum c || c == b'-' || c == b'_' || c == b'.' || c == b'~'

-- A digit under `std::uppercase << std::hex`.
abbrev pub upper_hex : ℕ → ℕ
upper_hex n = if ltb n 10 then 48 + n else 55 + n

-- `HttpUtil::url_encode`.
pub url_encode : Text → Text
url_encode [] = []
url_encode (c ∷ cs) =
    let rest = url_encode cs in
    if is_unreserved c then c ∷ rest else b'%' ∷ upper_hex (c / 16) ∷ upper_hex (c % 16) ∷ rest
