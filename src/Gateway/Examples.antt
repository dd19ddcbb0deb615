-- ===== src/Gateway/Examples.antt =====
-- The gateway: examples.
use online_judge.Base.{ℕ, ◌+◌, ◌*◌, ◌≤◌, Text, codes, List, [], ◌∷◌, some, true, arith, ◌<◌, ◌⊎◌}
use online_judge.Base.Int.{pos}
use online_judge.Gateway.RateLimiter.{RateLimiter, bucket_or_new}
use online_judge.Gateway.RateLimiter.Window.{Arrival, allowed_for, Within, allowed_for-bound}
use online_judge.Gateway.Router.Examples.{rotate, lines, user_path}
use online_judge.Gateway.Service.{World, Request, new_gateway, default_method}
use online_judge.Gateway.Service.Access.{CallsAllowed, default_method-calls}

abbrev client : Text
client = codes "10.0.0.1:5000"

abbrev arrives : ℕ → Arrival
arrives now = record { now = now; cleanup_now = now; key = client }

-- Two requests at the end of one window, and two at the start of the next.
abbrev burst : List Arrival
burst = arrives 119000 ∷ arrives 119500 ∷ arrives 119600 ∷ arrives 178000 ∷ []

abbrev limiter : RateLimiter
limiter = record {
  max_requests = 2;
  window_s = 60;
  last_cleanup = 1000;
  buckets = λ key. some (record { count = 1; window_start = 60000 });
}

arrives-Within : (now : ℕ) → 119000 ≤ now → now < 179000 → Within 119000 60 (arrives now)
arrives-Within now h k = record { after = h; before = omega arith; cleanup_before = omega arith }

abbrev request : Request
request = record {
  method = codes "GET";
  path = user_path;
  headers = record { name = codes "Authorization"; value = codes "Bearer t" } ∷ [];
  body = [];
}

abbrev world : World
world = record {
  now = 5000;
  cleanup_now = 5000;
  verify = λ token.
      some (record { user_id = 7; email = codes "a@b.cc"; role = pos 0; jti = []; exp = pos 9 });
  channel_init = λ service. true;
  backend = λ service sent. some (codes "{}");
}

default_method-calls_example :
    CallsAllowed world client request
      (new_gateway rotate (some lines) 0)
      (default_method world client request (new_gateway rotate (some lines) 0)).calls
default_method-calls_example =
    default_method-calls world client request (new_gateway rotate (some lines) 0)

allowed_for-bound_example :
    (allowed_for client burst limiter ≤ 2 * limiter.max_requests)
    × ((119000 < (bucket_or_new (limiter.buckets client)).window_start + 1000 * limiter.window_s)
        ⊎ (allowed_for client burst limiter ≤ limiter.max_requests))
allowed_for-bound_example = allowed_for-bound client 119000 burst limiter (omega arith) (
  arrives-Within 119000 (omega arith) (omega arith),
  (
    arrives-Within 119500 (omega arith) (omega arith),
    (
      arrives-Within 119600 (omega arith) (omega arith),
      (arrives-Within 178000 (omega arith) (omega arith), tt),
    ),
  ),
)
