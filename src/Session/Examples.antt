-- ===== src/Session/Examples.antt =====
-- oj_session.hpp: a session that is created, found and destroyed.
use online_judge.Base.{
  ℕ, ◌≡◌, ◌≢◌, refl, codes, List, [], ◌∷◌, Option, none, some, true, Text-discrete, arith,
}
use online_judge.Base.Hex.{hex_encode}
use online_judge.Base.Decimal.{to_string, digits_before}
use online_judge.Redis.{command, request_lost}
use online_judge.Session.{
  Manager, create_session, get_session, destroy_session, session_key, generate_session_id,
  set_session_to_redis, got_session, get_session_from_redis, renew_session, parse_session,
  parse_positive,
}
use online_judge.Session.History.{Call, gets, creates, breaks, found, destroyed_for_good}

abbrev empty_manager : Manager
empty_manager = record {
  sessions = λ id. none;
  line = record { reaches = []; redis = record { now = 1000; keys = λ key. none } };
}

abbrev random_of : ℕ → Option (List ℕ)
random_of n = some (n ∷ 255 ∷ [])

logged_in : Manager
unfolding create_session
logged_in = (create_session (random_of 10) 7 (codes "a@b.cc") 1000 empty_manager).1

session_found :
    (get_session (codes "0aff") 1060 logged_in).0
    ≡ some (record {
      session_id = codes "0aff";
      user_id = 7;
      email = codes "a@b.cc";
      create_time = 1000;
      last_access_time = 1060;
    })
unfolding logged_in get_session generate_session_id set_session_to_redis got_session
    get_session_from_redis renew_session parse_session parse_positive session_key hex_encode
    to_string digits_before command Text-discrete online_judge.Comm.all_of
session_found = refl

destroyed : (destroy_session (codes "0aff") logged_in).0 ≡ true
unfolding logged_in destroy_session generate_session_id set_session_to_redis session_key hex_encode
    to_string digits_before command Text-discrete
destroyed = refl

-- A look-up, the creation of another session, and a look-up while Redis does not answer.
abbrev afterwards : List Call
afterwards =
    gets (codes "0aff") 1070
    ∷ creates (random_of 11) 7 (codes "a@b.cc") 1080
    ∷ breaks (request_lost ∷ [])
    ∷ gets (codes "0aff") 1090
    ∷ []

other_drawn : generate_session_id (random_of 11) ≢ codes "0aff"
unfolding generate_session_id hex_encode
other_drawn = λ same. ground arith

destroyed_for_good_example :
    found (codes "0aff") afterwards (destroy_session (codes "0aff") logged_in).1 ≡ 0
destroyed_for_good_example =
    destroyed_for_good (codes "0aff") logged_in afterwards destroyed
      (tt, (other_drawn, (tt, (tt, tt))))
