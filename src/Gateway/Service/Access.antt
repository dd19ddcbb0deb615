-- ===== src/Gateway/Service/Access.antt =====
-- `default_method`: which requests reach a backend.
use online_judge.Base.{
  ◌≡◌, refl, Text, codes, List, [], ◌∷◌, Option, none, some, true, false, arith, All, ◌||◌, ◌&&◌,
  not, length, ◌≤◌, if_elim, ◌=t◌,
}
use online_judge.Base.Int.{is_positive}
use online_judge.Gateway.RateLimiter.{allow}
use online_judge.Gateway.Router.{RouteEntry, match_route}
use online_judge.Gateway.Jwt.{Claims}
use online_judge.Gateway.Service.{
  World, Request, with_user, Gateway, Handled, default_method, dispatched, routed, authorized,
  claims_of, forward_to_backend, backend_request,
}

-- What a route asks of the claims of the request.
abbrev pub Permits : RouteEntry → Option Claims → Type 0
Permits route none = route.require_auth ≡ false
Permits route (some claims) =
    route.require_auth ≡ true → route.require_admin ≡ true → is_positive claims.role ≡ true

-- The call of a backend that a request may cause by a route.
pub record IsCallBy (w : World) (request : Request) (route : RouteEntry) (call : Text × Request)
    : Type 0 where
  pub service : call.0 ≡ route.backend_service
  pub method : call.1.method ≡ request.method
  pub path : call.1.path ≡ request.path
  pub body : call.1.body ≡ request.body
  pub headers : call.1.headers ≡ []
  pub permitted : Permits route (claims_of w request)

-- At most one call, and that by the route.
abbrev CallsOf : World → Request → RouteEntry → Handled → Type 0
CallsOf w request route handled =
    All (IsCallBy w request route) handled.calls × (length handled.calls ≤ 1)

forward-calls :
    (w : World) (request : Request) (route : RouteEntry) (gateway : Gateway) (sent : Request)
    → sent.method ≡ request.method
    → sent.path ≡ request.path
    → sent.body ≡ request.body
    → Permits route (claims_of w request)
    → CallsOf w request route (forward_to_backend w sent route.backend_service gateway)
unfolding forward_to_backend
forward-calls w request route gateway sent m p b permits =
    if_elim (CallsOf w request route) (sent.method =t codes "OPTIONS") (λ _. (tt, omega arith))
      (λ _.
        if_elim (CallsOf w request route)
          (not (gateway.channels route.backend_service || w.channel_init route.backend_service))
          (λ _. (tt, omega arith)) (λ _. ((by_route, tt), omega arith)))
  where
    by_route : IsCallBy w request route (route.backend_service, backend_request sent)
    by_route = record {
      service = refl;
      method = m;
      path = p;
      body = b;
      headers = refl;
      permitted = permits;
    }

free-Permits :
    (route : RouteEntry) (o : Option Claims) → route.require_auth ≡ false → Permits route o
free-Permits route none free = free
free-Permits route (some claims) free = λ guarded. absurd (cc (free, guarded))

admin-Permits :
    (route : RouteEntry) (o : Option Claims) (claims : Claims)
    → o ≡ some claims
    → (route.require_admin && not (is_positive claims.role)) ≡ false
    → Permits route o
admin-Permits route o claims h allowed = rw h (λ guarded admin. ground arith)

authorized-calls :
    (w : World) (request : Request) (route : RouteEntry) (gateway : Gateway) (o : Option Claims)
    → claims_of w request ≡ o
    → CallsOf w request route (authorized w request route gateway o)
unfolding authorized
authorized-calls w request route gateway none h = (tt, omega arith)
authorized-calls w request route gateway (some claims) h =
    if_elim (CallsOf w request route) (route.require_admin && not (is_positive claims.role))
      (λ _. (tt, omega arith))
      (λ allowed.
        forward-calls w request route gateway (with_user claims request) refl refl refl
          (admin-Permits route (claims_of w request) claims h allowed))

routed-calls :
    (w : World) (request : Request) (route : RouteEntry) (gateway : Gateway)
    → CallsOf w request route (routed w request gateway (some route))
unfolding routed
routed-calls w request route gateway =
    if_elim (CallsOf w request route) route.require_auth
      (λ _. authorized-calls w request route gateway (claims_of w request) refl)
      (λ free.
        forward-calls w request route gateway request refl refl refl
          (free-Permits route (claims_of w request) free))

abbrev CallsBy : World → Request → Option RouteEntry → List (Text × Request) → Type 0
CallsBy w request none calls = calls ≡ []
CallsBy w request (some route) calls = All (IsCallBy w request route) calls × (length calls ≤ 1)

-- What is to hold of the calls that a request causes.
abbrev pub CallsAllowed : World → Text → Request → Gateway → List (Text × Request) → Type 0
CallsAllowed w client_ip request gateway [] = Unit
CallsAllowed w client_ip request gateway (call ∷ calls) =
    (calls ≡ [])
    × ((allow w.now w.cleanup_now client_ip gateway.limiter).0 ≡ true)
    × ((route : RouteEntry) × (match_route request.path gateway.routes ≡ some route)
        × IsCallBy w request route call)

routed-CallsBy :
    (w : World) (request : Request) (gateway : Gateway) (o : Option RouteEntry)
    → CallsBy w request o (routed w request gateway o).calls
unfolding routed
routed-CallsBy w request gateway none = refl
routed-CallsBy w request gateway (some route) = routed-calls w request route gateway

calls_allowed :
    (w : World) (client_ip : Text) (request : Request) (gateway : Gateway) (o : Option RouteEntry)
    (calls : List (Text × Request))
    → (allow w.now w.cleanup_now client_ip gateway.limiter).0 ≡ true
    → match_route request.path gateway.routes ≡ o
    → CallsBy w request o calls
    → CallsAllowed w client_ip request gateway calls
calls_allowed w client_ip request gateway none [] allowed h by = tt
calls_allowed w client_ip request gateway none (call ∷ calls) allowed h by = cc
calls_allowed w client_ip request gateway (some route) [] allowed h by = tt
calls_allowed w client_ip request gateway (some route) (call ∷ []) allowed h ((by, rest), one) =
    (refl, allowed, (route, h, by))
calls_allowed w client_ip request gateway (some route) (call ∷ other ∷ calls) allowed h (all, one) =
    absurd (omega arith)

-- A request causes at most one call of a backend, and only when the rate limit lets it through and a
-- route matches its path: the call goes to the route's service with the method, path and body of the
-- request and without any header; on a route that requires authentication the token of the request
-- was verified, and on one that requires an administrator as well its role is at least 1.
pub default_method-calls :
    (w : World) (client_ip : Text) (request : Request) (gateway : Gateway)
    → CallsAllowed w client_ip request gateway (default_method w client_ip request gateway).calls
unfolding default_method dispatched
default_method-calls w client_ip request gateway =
    if_elim Allowed (not (allow w.now w.cleanup_now client_ip gateway.limiter).0) (λ _. tt)
      (λ passed.
        if_elim Allowed (request.path =t codes "/api/ping") (λ _. tt)
          (λ _.
            calls_allowed w client_ip request gateway (match_route request.path gateway.routes)
              (routed w request limited (match_route request.path gateway.routes)).calls
              (ground (arith, passed)) refl
              (routed-CallsBy w request limited (match_route request.path gateway.routes))))
  where
    Allowed : Handled → Type 0
    Allowed handled = CallsAllowed w client_ip request gateway handled.calls

    limited : Gateway
    limited = record gateway { limiter = (allow w.now w.cleanup_now client_ip gateway.limiter).1 }
