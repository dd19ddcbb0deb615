-- ===== src/Gateway/Router/Longest.antt =====
-- Router: the route that a path gets.
use online_judge.Base.{
  starts_with, ◌≤◌, ◌≡◌, refl, ◌↔◌, subst, sym, Text, List, [], ◌∷◌, Option, none, some, Bool, true,
  false, inl, inr, arith, All, length, Bool-cases,
}
use online_judge.Gateway.Router.{
  RouteEntry, match_route, Descending, Listed, IsSorted, load_from_file, parse_routes,
}

abbrev pub serves : Text → RouteEntry → Bool
serves path route = starts_with route.path_prefix path

-- A route of the list whose prefix the path starts with, as long as any other such prefix.
pub record IsLongest (path : Text) (routes : List RouteEntry) (route : RouteEntry) : Type 0 where
  pub matches : serves path route ≡ true
  pub listed : Listed route routes
  pub longest :
      (other : RouteEntry)
      → Listed other routes
      → serves path other ≡ true
      → length other.path_prefix ≤ length route.path_prefix

-- What `Match` is to answer with, for the routes of the file.
abbrev pub Answers : Text → List RouteEntry → Option RouteEntry → Type 0
Answers path routes none = (other : RouteEntry) → Listed other routes → serves path other ≡ false
Answers path routes (some route) = IsLongest path routes route

all_listed :
    (P : RouteEntry → Type 0) (routes : List RouteEntry) (route : RouteEntry)
    → All P routes
    → Listed route routes
    → P route
unfolding Listed
all_listed P [] route all listed = absurd listed
all_listed P (first ∷ routes) route (p, all) (inl e) = subst P (sym e) p
all_listed P (first ∷ routes) route (p, all) (inr listed) = all_listed P routes route all listed

answers_later :
    (path : Text) (first : RouteEntry) (routes : List RouteEntry) (o : Option RouteEntry)
    → serves path first ≡ false
    → Answers path routes o
    → Answers path (first ∷ routes) o
unfolding Listed
answers_later path first routes none other answers = λ route listed. elim listed [
  | inl e ↦ subst (λ r. serves path r ≡ false) (sym e) other
  | inr later ↦ answers route later
]
answers_later path first routes (some found) other answers = record {
  matches = answers.matches;
  listed = inr answers.listed;
  longest = λ route listed served. elim listed [
    | inl e ↦ absurd (cc (subst (λ r. serves path r ≡ false) (sym e) other, served))
    | inr later ↦ answers.longest route later served
  ];
}

match_sorted :
    (path : Text) (routes : List RouteEntry)
    → Descending routes
    → Answers path routes (match_route path routes)
unfolding match_route Listed Descending
match_sorted path [] order = λ other listed. absurd listed
match_sorted path (first ∷ routes) (here, order) = elim (Bool-cases (serves path first)) [
  | inl matches ↦
      rw (matches, match_route)
        (record {
          matches = matches;
          listed = inl refl;
          longest = λ other listed served. elim listed [
            | inl e ↦
                subst (λ r. length r.path_prefix ≤ length first.path_prefix) (sym e) (omega arith)
            | inr later ↦ all_listed _ routes other here later
          ];
        })
  | inr misses ↦
      rw (misses, match_route)
        (answers_later path first routes (match_route path routes) misses
          (match_sorted path routes order))
]

answers_moved :
    (path : Text) (routes sorted : List RouteEntry) (o : Option RouteEntry)
    → ((route : RouteEntry) → Listed route routes ↔ Listed route sorted)
    → Answers path sorted o
    → Answers path routes o
answers_moved path routes sorted none same answers =
    λ other listed. answers other ((same other).0 listed)
answers_moved path routes sorted (some found) same answers = record {
  matches = answers.matches;
  listed = (same found).1 answers.listed;
  longest = λ other listed. answers.longest other ((same other).0 listed);
}

-- Whatever order `std::sort` gives to prefixes of one length: the route that `Match` finds among those
-- that `LoadFromFile` has read from the lines is one of the file's whose prefix the path starts with,
-- and no prefix of the file that the path starts with is longer; when `Match` finds none, the path
-- starts with no prefix of the file.
pub match_route-longest :
    (sort : List RouteEntry → List RouteEntry) (lines : List Text) (path : Text)
    → IsSorted sort (parse_routes lines)
    → Answers path (parse_routes lines) (match_route path (load_from_file sort (some lines)).0)
unfolding load_from_file
match_route-longest sort lines path sorted =
    answers_moved path (parse_routes lines) (sort (parse_routes lines))
      (match_route path (sort (parse_routes lines))) sorted.entries
      (match_sorted path (sort (parse_routes lines)) sorted.order)
