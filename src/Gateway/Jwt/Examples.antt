-- ===== src/Gateway/Jwt/Examples.antt =====
-- jwt_middleware.cpp: an example.
use online_judge.Base.{◌≡◌, refl, codes}
use online_judge.Gateway.Jwt.{extract_cookie, after_first, until_semicolon}

-- A cookie whose name only ends in the key is taken.
cookie_by_suffix :
    extract_cookie (codes "xoj_session_id=evil; oj_session_id=good") (codes "oj_session_id")
    ≡ codes "evil"
unfolding extract_cookie after_first until_semicolon
cookie_by_suffix = refl
