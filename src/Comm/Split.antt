-- ===== src/Comm/Split.antt =====
-- comm.hpp, `SplitString`: its loop on fuel, which a string uses up by at most its length.
pub mod Bytewise
use online_judge.Base.{
  ℕ, zero, suc, ◌+◌, ◌-◌, ◌≤◌, ◌<◌, ◌≡◌, refl, ◌≢◌, ap, ◌∙◌, Text, List, [], ◌∷◌, ◌++◌, Option,
  none, some, Bool, true, false, starts_with, is_empty, length, drop, length-drop, if◌then◌else◌,
  arith, All, inl, inr, Bool-cases, Option-cases, if_elim, ◌==◌,
}

abbrev before_char : ℕ → Option (Text × Text) → Option (Text × Text)
before_char c none = none
before_char c (some (token, rest)) = some (c ∷ token, rest)

-- `str.find(space)`, with what stands before the place and what stands after the separator.
unfoldable pub find_split : (space str : Text) → Option (Text × Text)
find_split space [] = if is_empty space then some ([], []) else none
find_split space (c ∷ cs) =
    let later = find_split space cs in
    if starts_with space (c ∷ cs)
    then some ([], drop (length space) (c ∷ cs))
    else before_char c later

abbrev push_token : Text → Option (List Text) → Option (List Text)
push_token token none = none
push_token token (some tokens) = some (if is_empty token then tokens else token ∷ tokens)

abbrev last_token : Text → List Text
last_token str = if is_empty str then [] else str ∷ []

-- `SplitString`; `none` when the fuel runs out.
unfoldable pub split_string : ℕ → (space str : Text) → Option (List Text)
split_string zero space str = none
split_string (suc fuel) space str = elim (find_split space str) [
  | none ↦ some (last_token str)
  | some (token, rest) ↦ push_token token (split_string fuel space rest)
]

before_char_found :
    (c : ℕ) (o : Option (Text × Text)) (token rest : Text)
    → before_char c o ≡ some (token, rest)
    → (shorter : Text) × (o ≡ some (shorter, rest))
before_char_found c none token rest h = cc
before_char_found c (some (t, r)) token rest h = (t, ground (arith, h))

find_split-shorter :
    (space str token rest : Text)
    → is_empty space ≡ false
    → find_split space str ≡ some (token, rest)
    → length rest < length str
unfolding find_split
find_split-shorter [] str token rest filled h = cc
find_split-shorter (p ∷ ps) [] token rest filled h = cc
find_split-shorter (p ∷ ps) (c ∷ cs) token rest filled h =
    elim (Bool-cases (starts_with (p ∷ ps) (c ∷ cs))) [
      | inl here ↦ ground (arith, length-drop (length ps) cs, here)
      | inr later ↦
          let (shorter, found) =
            before_char_found c (find_split (p ∷ ps) cs) token rest (rw later at h) in
          let less = find_split-shorter (p ∷ ps) cs shorter rest filled found in omega arith
    ]

-- What `SplitString` ends with, whatever the fuel above the length.
abbrev pub EndsWith : (space str : Text) → List Text → Type 0
EndsWith space str tokens =
    ((fuel : ℕ) → length str < fuel → split_string fuel space str ≡ some tokens)
    × All (λ (token : Text). is_empty token ≡ false) tokens

pub last_token-EndsWith :
    (space str : Text) → find_split space str ≡ none → EndsWith space str (last_token str)
unfolding split_string
last_token-EndsWith space str h = (runs, ground arith)
  where
    runs : (fuel : ℕ) → length str < fuel → split_string fuel space str ≡ some (last_token str)
    runs zero k = absurd (omega arith)
    runs (suc fuel) k = rw (h, split_string) refl

pub push_token-EndsWith :
    (space str token rest : Text) (tokens : List Text)
    → find_split space str ≡ some (token, rest)
    → length rest < length str
    → EndsWith space rest tokens
    → EndsWith space str (if is_empty token then tokens else token ∷ tokens)
unfolding split_string
push_token-EndsWith space str token rest tokens h less (ends, filled) =
    (runs, ground (arith, filled))
  where
    runs :
        (fuel : ℕ)
        → length str < fuel
        → split_string fuel space str ≡ some (if is_empty token then tokens else token ∷ tokens)
    runs zero k = absurd (omega arith)
    runs (suc fuel) k = rw (h, split_string, ends fuel (omega (arith, less, k))) refl

split_ends :
    (bound : ℕ) (space str : Text)
    → is_empty space ≡ false
    → length str < bound
    → (tokens : List Text) × EndsWith space str tokens
split_ends zero space str filled h = absurd (omega arith)
split_ends (suc bound) space str filled h = elim (Option-cases (find_split space str)) [
  | inl missing ↦ (last_token str, last_token-EndsWith space str missing)
  | inr ((token, rest), found) ↦
      let less = find_split-shorter space str token rest filled found in
      let (tokens, ends) = split_ends bound space rest filled (omega (arith, less, h)) in
      (
        if is_empty token then tokens else token ∷ tokens,
        push_token-EndsWith space str token rest tokens found less ends,
      )
]

-- With a separator that is not empty, the loop of `SplitString` ends after at most as many rounds as
-- the string has bytes: it gives tokens, none of them empty, and no more rounds change them.
pub split_string-ends :
    (space str : Text) → is_empty space ≡ false → (tokens : List Text) × EndsWith space str tokens
split_string-ends space str filled = split_ends (suc (length str)) space str filled (omega arith)
