-- ===== src/Gateway/Router.antt =====
-- The routing table of src/gateway/src/router.cpp. `std::sort` is a parameter: the order of routes
-- whose prefixes are of one length is not determined.
pub mod Longest
pub mod Examples
use online_judge.Base.{
  starts_with, ℕ, ◌+◌, ◌≤◌, ◌≡◌, ◌↔◌, ◌⊎◌, Text, codes, List, [], ◌∷◌, Option, none, some, Bool,
  true, false, not, ◌||◌, ◌==◌, if◌then◌else◌, ◌=t◌, is_empty, length, All,
}
use online_judge.Comm.{is_space}

pub record RouteEntry : Type 0 where
  pub path_prefix : Text
  pub backend_service : Text
  pub backend_method : Text
  pub require_auth : Bool
  pub require_admin : Bool

abbrev grow_first : ℕ → List Text → List Text
grow_first c [] = (c ∷ []) ∷ []
grow_first c (f ∷ fs) = (c ∷ f) ∷ fs

-- The stretches between white space, the empty ones too.
abbrev stretches : Text → List Text
stretches [] = []
stretches (c ∷ cs) = let rest = stretches cs in if is_space c then [] ∷ rest else grow_first c rest

abbrev non_empty : List Text → List Text
non_empty [] = []
non_empty (f ∷ fs) = let rest = non_empty fs in if is_empty f then rest else f ∷ rest

-- What `iss >> …` reads one after the other.
pub words : Text → List Text
words line = non_empty (stretches line)

abbrev is_true : Text → Bool
is_true s = s =t codes "true" || s =t codes "1"

pub entry_of : List Text → Option RouteEntry
entry_of (path_prefix ∷ backend_service ∷ backend_method ∷ auth ∷ admin ∷ rest) = some (record {
  path_prefix = path_prefix;
  backend_service = backend_service;
  backend_method = backend_method;
  require_auth = is_true auth;
  require_admin = is_true admin;
})
entry_of _ = none

abbrev is_comment : Text → Bool
is_comment [] = true
is_comment (c ∷ cs) = c == b'#'

-- One round of the loop of `LoadFromFile`.
pub route_of : Text → Option RouteEntry
unfolding words entry_of
route_of line = if is_comment line then none else entry_of (words line)

abbrev add_route : Option RouteEntry → List RouteEntry → List RouteEntry
add_route none routes = routes
add_route (some route) routes = route ∷ routes

pub parse_routes : List Text → List RouteEntry
unfolding route_of
parse_routes [] = []
parse_routes (line ∷ lines) = add_route (route_of line) (parse_routes lines)

-- `LoadFromFile`: `none` for a file that does not open; the routes that are set, and the result.
pub load_from_file :
    (List RouteEntry → List RouteEntry) → Option (List Text) → List RouteEntry × Bool
load_from_file sort none = ([], false)
load_from_file sort (some lines) =
    let routes = sort (parse_routes lines) in (routes, not (is_empty routes))

-- `Match`.
pub match_route : Text → List RouteEntry → Option RouteEntry
match_route path [] = none
match_route path (route ∷ routes) =
    let rest = match_route path routes in
    if starts_with route.path_prefix path then some route else rest

-- No prefix is longer than one before it.
pub Descending : List RouteEntry → Type 0
Descending [] = Unit
Descending (route ∷ routes) =
    All (λ later. length later.path_prefix ≤ length route.path_prefix) routes × Descending routes

pub Listed : RouteEntry → List RouteEntry → Type 0
Listed route [] = ⊥
Listed route (first ∷ routes) = (route ≡ first) ⊎ Listed route routes

-- What `std::sort` promises at one input: the same entries, in the order of the comparison.
pub record IsSorted (sort : List RouteEntry → List RouteEntry) (routes : List RouteEntry)
    : Type 0 where
  pub entries : (route : RouteEntry) → Listed route routes ↔ Listed route (sort routes)
  pub order : Descending (sort routes)
