-- ===== src/Comm/Trimmed.antt =====
-- comm.hpp, `Trim`: what it takes away, and what is left.
use online_judge.Base.{
  ℕ, ◌≤◌, ◌≡◌, refl, ◌⊎◌, inl, inr, Text, [], ◌∷◌, ◌++◌, Option, none, some, true, false, is_empty,
  All, arith, Bool-cases, ap, ◌∙◌, ◌&&◌,
}
use online_judge.Comm.{is_space, skip_spaces, drop_spaces, trim}

-- The bytes that `std::isspace` names: space, and tab to carriage return.
abbrev pub Space : ℕ → Type 0
Space c = (c ≡ 32) ⊎ ((9 ≤ c) × (c ≤ 13))

abbrev pub first_byte : Text → Option ℕ
first_byte [] = none
first_byte (c ∷ cs) = some c

abbrev pub last_byte : Text → Option ℕ
last_byte [] = none
last_byte (c ∷ []) = some c
last_byte (c ∷ d ∷ cs) = last_byte (d ∷ cs)

abbrev pub NoSpace : Option ℕ → Type 0
NoSpace none = Unit
NoSpace (some c) = ¬ Space c

space : (c : ℕ) → is_space c ≡ true → Space c
space c e = ground arith

no_space : (c : ℕ) → is_space c ≡ false → ¬ Space c
no_space c e = ground arith

skip_split : (s : Text) → (a : Text) × All Space a × (s ≡ a ++ skip_spaces s)
unfolding skip_spaces
skip_split [] = ([], tt, refl)
skip_split (c ∷ cs) = elim (Bool-cases (is_space c)) [
  | inl is ↦
      let (a, spaces, e) = skip_split cs in
      (c ∷ a, (space c is, spaces), rw (is, skip_spaces) (ap (λ x. c ∷ x) e))
  | inr other ↦ ([], tt, rw (other, skip_spaces) refl)
]

drop_split : (s : Text) → (b : Text) × All Space b × (s ≡ drop_spaces s ++ b)
unfolding drop_spaces
drop_split [] = ([], tt, refl)
drop_split (c ∷ cs) = elim (Bool-cases (is_empty (drop_spaces cs) && is_space c)) [
  | inl drops ↦
      let (b, spaces, e) = drop_split cs in
      (
        c ∷ b,
        (space c (ground (arith, drops)), spaces),
        rw (drops, drop_spaces) (ap (λ x. c ∷ x) (ground (arith, e, drops))),
      )
  | inr keeps ↦
      let (b, spaces, e) = drop_split cs in (b, spaces, rw (keeps, drop_spaces) (ap (λ x. c ∷ x) e))
]

first-skip_spaces : (s : Text) → NoSpace (first_byte (skip_spaces s))
unfolding skip_spaces
first-skip_spaces [] = tt
first-skip_spaces (c ∷ cs) = elim (Bool-cases (is_space c)) [
  | inl is ↦ rw (is, skip_spaces) (first-skip_spaces cs)
  | inr other ↦ rw (other, skip_spaces) (no_space c other)
]

first-drop_spaces : (s : Text) → NoSpace (first_byte s) → NoSpace (first_byte (drop_spaces s))
unfolding drop_spaces
first-drop_spaces [] h = tt
first-drop_spaces (c ∷ cs) h = elim (Bool-cases (is_empty (drop_spaces cs) && is_space c)) [
  | inl drops ↦ rw (drops, drop_spaces) tt
  | inr keeps ↦ rw (keeps, drop_spaces) h
]

last_after :
    (c : ℕ) (rest : Text)
    → (is_empty rest && is_space c) ≡ false
    → NoSpace (last_byte rest)
    → NoSpace (last_byte (c ∷ rest))
last_after c [] other h = no_space c other
last_after c (d ∷ rest) other h = h

last-drop_spaces : (s : Text) → NoSpace (last_byte (drop_spaces s))
unfolding drop_spaces
last-drop_spaces [] = tt
last-drop_spaces (c ∷ cs) = elim (Bool-cases (is_empty (drop_spaces cs) && is_space c)) [
  | inl drops ↦ rw (drops, drop_spaces) tt
  | inr keeps ↦ rw (keeps, drop_spaces) (last_after c (drop_spaces cs) keeps (last-drop_spaces cs))
]

-- `Trim` takes only bytes that `std::isspace` names (space, and tab to carriage return) from the two
-- ends and nothing else, and what is left neither starts nor ends with such a byte.
pub trim_ends :
    (s : Text)
    → ((a b : Text) × All Space a × All Space b × (s ≡ a ++ (trim s ++ b)))
      × NoSpace (first_byte (trim s))
      × NoSpace (last_byte (trim s))
unfolding trim
trim_ends s =
    let (a, front, e) = skip_split s in
    let (b, back, d) = drop_split (skip_spaces s) in
    (
      (a, b, front, back, e ∙ ap (λ x. a ++ x) d),
      first-drop_spaces (skip_spaces s) (first-skip_spaces s),
      last-drop_spaces (skip_spaces s),
    )
