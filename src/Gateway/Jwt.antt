-- ===== src/Gateway/Jwt.antt =====
-- The authentication of src/gateway/src/jwt_middleware.cpp. `JWTManager::Verify` rests on jwt-cpp and
-- is a parameter.
mod Examples
use online_judge.Base.{
  starts_with, ℕ, suc, ◌+◌, Text, codes, List, [], ◌∷◌, ◌++◌, Option, none, some, Bool, true, false,
  not, ◌&&◌, is_empty, length, drop, if◌then◌else◌, ◌==◌,
}
use online_judge.Base.Int.{ℤ}

-- `ns_jwt::Claims`.
pub record Claims : Type 0 where
  pub user_id : ℕ
  pub email : Text
  pub role : ℤ
  pub jti : Text
  pub exp : ℤ

-- What follows the first place where `s.find(search)` finds its text.
pub after_first : Text → Text → Option Text
after_first search [] = if is_empty search then some [] else none
after_first search (c ∷ cs) =
    let rest = after_first search cs in
    if starts_with search (c ∷ cs) then some (drop (length search) (c ∷ cs)) else rest

-- `s.substr(0, s.find(';'))`.
pub until_semicolon : Text → Text
until_semicolon [] = []
until_semicolon (c ∷ cs) = let rest = until_semicolon cs in if c == b';' then [] else c ∷ rest

abbrev value_or_empty : Option Text → Text
value_or_empty none = []
value_or_empty (some rest) = until_semicolon rest

-- `ExtractCookie`.
pub extract_cookie : (cookie key : Text) → Text
unfolding after_first until_semicolon
extract_cookie cookie key = value_or_empty (after_first (key ++ codes "=") cookie)

-- `ExtractBearerToken`.
pub extract_bearer_token : Text → Text
extract_bearer_token auth_header =
    if not (starts_with (codes "Bearer ") auth_header) then [] else drop 7 auth_header

-- The token that `Authenticate` verifies: that of the header, or else that of the cookie.
pub token_of : (auth_header cookie : Text) → Text
unfolding extract_bearer_token extract_cookie
token_of auth_header cookie =
    let token = if not (is_empty auth_header) then extract_bearer_token auth_header else [] in
    if is_empty token && not (is_empty cookie)
    then extract_cookie cookie (codes "oj_session_id")
    else token

-- `Authenticate`.
pub authenticate : (Text → Option Claims) → (auth_header cookie : Text) → Option Claims
unfolding token_of
authenticate verify auth_header cookie =
    let token = token_of auth_header cookie in if is_empty token then none else verify token
