-- ===== src/Gateway/Service.antt =====
-- The handler of src/gateway/main.cpp, `default_method` with `ForwardToBackend`. Controllers and
-- channels of brpc are parameters: whether a channel comes up, and what a call on it returns.
pub mod Access
use online_judge.Base.{
  ℕ, Text, codes, List, [], ◌∷◌, Option, none, some, Bool, true, false, ◌&&◌, ◌||◌, not,
  if◌then◌else◌, ◌=t◌,
}
use online_judge.Base.Int.{ℤ, is_positive}
use online_judge.Base.Decimal.{to_string}
use online_judge.Gateway.RateLimiter.{RateLimiter, allow, new_rate_limiter}
use online_judge.Gateway.Router.{RouteEntry, match_route, load_from_file}
use online_judge.Gateway.Jwt.{Claims, authenticate}

pub record Header : Type 0 where
  pub name : Text
  pub value : Text

pub record Request : Type 0 where
  pub method : Text
  pub path : Text
  pub headers : List Header
  pub body : Text

pub record Response : Type 0 where
  pub status : ℕ
  pub headers : List Header
  pub content_type : Text
  pub body : Text

-- `GatewayServiceImpl`. A channel is known by the name of its service.
pub record Gateway : Type 0 where
  pub routes : List RouteEntry
  pub limiter : RateLimiter
  pub channels : Text → Bool

-- What the outside gives to one request.
pub record World : Type 0 where
  pub now : ℕ
  pub cleanup_now : ℕ
  pub verify : Text → Option Claims
  pub channel_init : Text → Bool
  pub backend : Text → Request → Option Text

-- The end of one request: its response, the calls of backends with their services, and the gateway.
pub record Handled : Type 0 where
  pub response : Response
  pub calls : List (Text × Request)
  pub gateway : Gateway

-- `LoadDefaultRoutes`.
abbrev business : (Text × Bool × Bool) → RouteEntry
business (prefix, auth, admin) = record {
  path_prefix = prefix;
  backend_service = codes "business";
  backend_method = [];
  require_auth = auth;
  require_admin = admin;
}

abbrev pub default_routes : List RouteEntry
default_routes =
    business (codes "/api/auth", false, false)
    ∷ business (codes "/api/user", true, false)
    ∷ business (codes "/api/question", false, false)
    ∷ business (codes "/api/solution", false, false)
    ∷ business (codes "/api/comment", true, false)
    ∷ business (codes "/api/admin", true, true)
    ∷ record (business (codes "/api/judge", true, false)) { backend_service = codes "judge" }
    ∷ []

-- The constructor of `GatewayServiceImpl`.
pub new_gateway : (List RouteEntry → List RouteEntry) → Option (List Text) → ℕ → Gateway
new_gateway sort file now =
    let (routes, loaded) = load_from_file sort file in
    record {
      routes = if loaded then routes else default_routes;
      limiter = new_rate_limiter 100 60 now;
      channels = λ service. false;
    }

-- `GetHeader`; a header that is absent reads as the empty text.
pub header_or_empty : Text → List Header → Text
header_or_empty name [] = []
header_or_empty name (h ∷ headers) =
    let rest = header_or_empty name headers in if h.name =t name then h.value else rest

abbrev pub set_header : Text → Text → List Header → List Header
set_header name value headers = record { name = name; value = value } ∷ headers

abbrev pub json : ℕ → Text → Response
json status body = record {
  status = status;
  headers = [];
  content_type = codes "application/json";
  body = body;
}

abbrev pub failure : ℕ → Text → Response
failure status code = json status code

abbrev allow_origin : List Header
allow_origin = set_header (codes "Access-Control-Allow-Origin") (codes "*") []

abbrev preflight : Response
preflight = record {
  status = 200;
  headers = set_header (codes "Access-Control-Allow-Headers") (codes "Content-Type,Authorization") (
      set_header (codes "Access-Control-Allow-Methods") (codes "GET,POST,PUT,DELETE,OPTIONS")
        allow_origin);
  content_type = [];
  body = [];
}

abbrev pub rate_limited : Text
rate_limited = codes "{\"success\":false,\"error_code\":\"RATE_LIMITED\"}"

abbrev pub unauthorized : Text
unauthorized = codes "{\"success\":false,\"error_code\":\"UNAUTHORIZED\"}"

abbrev pub forbidden : Text
forbidden = codes "{\"success\":false,\"error_code\":\"FORBIDDEN\"}"

abbrev pub not_found : Text
not_found = codes "{\"success\":false,\"error_code\":\"NOT_FOUND\"}"

abbrev pub unreachable : Text
unreachable = codes "{\"success\":false,\"error_code\":\"BACKEND_UNREACHABLE\"}"

abbrev pub backend_error : Text
backend_error = codes "{\"success\":false,\"error_code\":\"BACKEND_ERROR\"}"

abbrev pub pong : Text
pong = codes "{\"status\":\"ok\",\"version\":\"0.1.0\"}"

abbrev answered : Option Text → Response
answered none = json 200 backend_error
answered (some body) = json 200 body

-- What `ForwardToBackend` writes into the backend's controller.
abbrev pub backend_request : Request → Request
backend_request request = record {
  method = request.method;
  path = request.path;
  headers = [];
  body = request.body;
}

-- `ForwardToBackend`. A channel that came up once stays in the map.
pub forward_to_backend : World → Request → Text → Gateway → Handled
forward_to_backend w request service gateway =
    if request.method =t codes "OPTIONS"
    then record { response = preflight; calls = []; gateway = gateway }
    else if not (gateway.channels service || w.channel_init service)
    then record { response = json 200 unreachable; calls = []; gateway = gateway }
    else let call = backend_request request in
      record {
        response = record (answered (w.backend service call)) {
          headers = set_header (codes "Access-Control-Allow-Origin") (codes "*") [];
        };
        calls = (service, call) ∷ [];
        gateway = record gateway {
          channels = λ name. if service =t name then true else gateway.channels name;
        };
      }

abbrev answer_with : Gateway → Response → Handled
answer_with gateway response = record { response = response; calls = []; gateway = gateway }

-- `InjectUserIdToHeader`.
abbrev pub with_user : Claims → Request → Request
with_user claims request = record request {
  headers = set_header (codes "X-User-Id") (to_string claims.user_id) request.headers;
}

-- The part of `default_method` behind `require_auth`, with the claims that `Authenticate` returned:
-- the user's number goes into the headers of the request.
pub authorized : World → Request → RouteEntry → Gateway → Option Claims → Handled
authorized w request route gateway none = answer_with gateway (failure 401 unauthorized)
authorized w request route gateway (some claims) =
    if route.require_admin && not (is_positive claims.role)
    then answer_with gateway (failure 403 forbidden)
    else forward_to_backend w (with_user claims request) route.backend_service gateway

-- The claims of the request's headers.
pub claims_of : World → Request → Option Claims
unfolding header_or_empty
claims_of w request =
    authenticate w.verify (header_or_empty (codes "Authorization") request.headers)
      (header_or_empty (codes "Cookie") request.headers)

-- The part of `default_method` behind `Match`.
pub routed : World → Request → Gateway → Option RouteEntry → Handled
routed w request gateway none = answer_with gateway (failure 404 not_found)
routed w request gateway (some route) =
    if route.require_auth
    then authorized w request route gateway (claims_of w request)
    else forward_to_backend w request route.backend_service gateway

-- The part of `default_method` behind the rate limit.
pub dispatched : World → Request → Gateway → Handled
dispatched w request gateway =
    if request.path =t codes "/api/ping"
    then answer_with gateway (json 200 pong)
    else routed w request gateway (match_route request.path gateway.routes)

-- `default_method`, for a client at `client_ip`.
pub default_method : World → Text → Request → Gateway → Handled
default_method w client_ip request gateway =
    let (allowed, limiter) = allow w.now w.cleanup_now client_ip gateway.limiter in
    let gateway' = record gateway { limiter = limiter } in
    if not allowed
    then answer_with gateway' (failure 429 rate_limited)
    else dispatched w request gateway'
