-- ===== src/Gateway/Router/Examples.antt =====
-- router.cpp: two routes of a file, and a path that both prefixes fit.
use online_judge.Base.{◌≡◌, refl, inl, inr, Text, codes, List, [], ◌∷◌, Option, none, some, arith}
use online_judge.Gateway.Router.{
  RouteEntry, IsSorted, Descending, Listed, parse_routes, route_of, words, entry_of, load_from_file,
  match_route,
}
use online_judge.Gateway.Router.Longest.{Answers, match_route-longest}

abbrev pub rotate : List RouteEntry → List RouteEntry
rotate (a ∷ b ∷ routes) = b ∷ a ∷ routes
rotate routes = routes

abbrev pub lines : List Text
lines =
    codes "# prefix service method auth admin"
    ∷ codes "/api business Call false false"
    ∷ codes "/api/user business Call true 0"
    ∷ codes "/api/broken business"
    ∷ []

abbrev pub user_path : Text
user_path = codes "/api/user/7"

prefix_of : Option RouteEntry → Text
prefix_of none = []
prefix_of (some route) = route.path_prefix

user_route :
    prefix_of (match_route user_path (load_from_file rotate (some lines)).0) ≡ codes "/api/user"
unfolding prefix_of match_route load_from_file parse_routes route_of words entry_of
user_route = refl

rotate-IsSorted : IsSorted rotate (parse_routes lines)
unfolding parse_routes route_of words entry_of Descending Listed
rotate-IsSorted = record {
  entries = λ route. (
    λ o. elim o [
      | inl e ↦ inr (inl e)
      | inr later ↦ elim later [ inl e ↦ inl e | inr end ↦ absurd end ]
    ],
    λ o. elim o [
      | inl e ↦ inr (inl e)
      | inr later ↦ elim later [ inl e ↦ inl e | inr end ↦ absurd end ]
    ],
  );
  order = ((omega arith, tt), (tt, tt));
}

match_route-longest_example :
    Answers user_path
      (parse_routes lines)
      (match_route user_path (load_from_file rotate (some lines)).0)
match_route-longest_example = match_route-longest rotate lines user_path rotate-IsSorted
