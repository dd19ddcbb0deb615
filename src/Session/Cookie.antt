-- ===== src/Session/Cookie.antt =====
-- oj_session.hpp, `ParseCookie`.
use online_judge.Base.{
  ℕ, ◌≡◌, refl, Text, codes, List, [], ◌∷◌, Option, none, some, ◌&&◌, ◌==◌, ◌=t◌, Text-discrete,
  is_empty, if◌then◌else◌,
}

abbrev grow_first : ℕ → List Text → List Text
grow_first c [] = (c ∷ []) ∷ []
grow_first c (token ∷ tokens) = (c ∷ token) ∷ tokens

-- The tokens between the semicolons.
pub cookie_tokens : Text → List Text
cookie_tokens [] = []
cookie_tokens (c ∷ cs) =
    let rest = cookie_tokens cs in if c == b';' then [] ∷ rest else grow_first c rest

-- `find_first_not_of(' ')` and `find_last_not_of(' ')`.
pub skip_blanks : Text → Text
skip_blanks [] = []
skip_blanks (c ∷ cs) = let rest = skip_blanks cs in if c == b' ' then rest else c ∷ cs

pub drop_blanks : Text → Text
drop_blanks [] = []
drop_blanks (c ∷ cs) =
    let rest = drop_blanks cs in if is_empty rest && (c == b' ') then [] else c ∷ rest

abbrev name_grown : ℕ → Option (Text × Text) → Option (Text × Text)
name_grown c none = none
name_grown c (some (name, value)) = some (c ∷ name, value)

-- The name and the value around the first `=`.
pub name_value : Text → Option (Text × Text)
name_value [] = none
name_value (c ∷ cs) =
    let rest = name_value cs in if c == b'=' then some ([], cs) else name_grown c rest

abbrev value_if_named : Text → Option (Text × Text) → Option Text
value_if_named key none = none
value_if_named key (some (name, value)) = if name =t key then some value else none

abbrev first_of : Option Text → Option Text → Option Text
first_of none other = other
first_of (some value) other = some value

-- The loop of `ParseCookie`.
pub cookie_value : Text → List Text → Option Text
unfolding skip_blanks drop_blanks name_value
cookie_value key [] = none
cookie_value key (token ∷ tokens) =
    first_of (value_if_named key (name_value (drop_blanks (skip_blanks token))))
      (cookie_value key tokens)

-- `ParseCookie`.
pub parse_cookie : Text → Option Text
unfolding cookie_tokens cookie_value
parse_cookie cookie_header = cookie_value (codes "oj_session_id") (cookie_tokens cookie_header)

-- A cookie whose name only ends in the key is passed over.
exact_name : parse_cookie (codes "xoj_session_id=evil; oj_session_id=good ") ≡ some (codes "good")
unfolding parse_cookie Text-discrete
exact_name = refl
