-- ===== src/Judger/Output/Laws.antt =====
-- judger.hpp: the laws of the loops of `NormalizeOutput`.
use mathlib.Core.List.{append-nil, append_assoc}
use online_judge.Base.{
  ℕ, ◌≡◌, refl, ap, ◌∙◌, ◌⊎◌, inl, inr, Text, List, [], ◌∷◌, ◌++◌, Bool, true, false, ◌&&◌,
  is_empty, map, All, Bool-cases,
}
use online_judge.Judger.Output.{newline, is_blank, is_newline, strip_end, lines, join}

-- A class of bytes holds of all bytes of a text.
abbrev pub Only : (ℕ → Bool) → Text → Type 0
Only p = All (λ c. p c ≡ true)

abbrev pub NoNewline : Text → Type 0
NoNewline = All (λ c. is_newline c ≡ false)

pub strip_end-Only : (p : ℕ → Bool) (ys : Text) → Only p ys → strip_end p ys ≡ []
unfolding strip_end
strip_end-Only p [] h = refl
strip_end-Only p (y ∷ ys) h = rw (strip_end-Only p ys h.1, h.0)

pub strip_end-append :
    (p : ℕ → Bool) (xs ys : Text) → Only p ys → strip_end p (xs ++ ys) ≡ strip_end p xs
unfolding strip_end
strip_end-append p [] ys h = strip_end-Only p ys h
strip_end-append p (x ∷ xs) ys h = rw (strip_end-append p xs ys h)

strip_end_twice : (p : ℕ → Bool) (xs : Text) → strip_end p (strip_end p xs) ≡ strip_end p xs
unfolding strip_end
strip_end_twice p [] = refl
strip_end_twice p (x ∷ xs) = elim (Bool-cases (is_empty (strip_end p xs) && p x)) [
  | inl cut ↦ rw cut
  | inr keeps ↦ rw keeps (rw (strip_end_twice p xs, keeps))
]

strip_cases :
    (p : ℕ → Bool) (x : ℕ) (xs : Text)
    → ((p x ≡ true) × (strip_end p xs ≡ [])) ⊎ (strip_end p (x ∷ xs) ≡ x ∷ strip_end p xs)
unfolding strip_end
strip_cases p x xs = split (strip_end p xs) refl
  where
    split :
        (r : Text)
        → strip_end p xs ≡ r
        → ((p x ≡ true) × (strip_end p xs ≡ [])) ⊎ (strip_end p (x ∷ xs) ≡ x ∷ strip_end p xs)
    split [] e = elim (Bool-cases (p x)) [ inl h ↦ inl (h, e) | inr h ↦ inr (rw (h, e)) ]
    split (c ∷ r) e = inr (rw e)

strip_cut :
    (p : ℕ → Bool) (x : ℕ) (xs : Text)
    → p x ≡ true
    → strip_end p xs ≡ []
    → strip_end p (x ∷ xs) ≡ []
unfolding strip_end
strip_cut p x xs h e = rw (e, h)

-- What was cut off is of the class.
pub strip_end_rest :
    (p : ℕ → Bool) (xs : Text) → (cut : Text) × (xs ≡ strip_end p xs ++ cut) × Only p cut
unfolding strip_end
strip_end_rest p [] = ([], refl, tt)
strip_end_rest p (x ∷ xs) =
    let (cut, e, h) = strip_end_rest p xs in
    elim (strip_cases p x xs) [
      | inl (hx, gone) ↦
          (x ∷ cut, rw (strip_cut p x xs hx gone) (ap (◌∷◌ x) (e ∙ rw gone)), (hx, h))
      | inr keeps ↦ (cut, rw keeps (ap (◌∷◌ x) e), h)
    ]

pub strip_end-cong :
    (p : ℕ → Bool) (u s t : Text)
    → strip_end p s ≡ strip_end p t
    → strip_end p (u ++ s) ≡ strip_end p (u ++ t)
unfolding strip_end
strip_end-cong p [] s t h = h
strip_end-cong p (c ∷ u) s t h = rw (strip_end-cong p u s t h)

strip_end-All : (p : ℕ → Bool) (xs : Text) → NoNewline xs → NoNewline (strip_end p xs)
unfolding strip_end
strip_end-All p [] h = tt
strip_end-All p (x ∷ xs) h = elim (Bool-cases (is_empty (strip_end p xs) && p x)) [
  | inl cut ↦ rw cut tt
  | inr keeps ↦ rw keeps (h.0, strip_end-All p xs h.1)
]

pub lines_other :
    (line : Text) (c : ℕ) (cs : Text)
    → is_newline c ≡ false
    → lines line (c ∷ cs) ≡ lines (line ++ c ∷ []) cs
unfolding lines
lines_other line c cs h = rw (h, lines)

pub lines_ended :
    (line : Text) (c : ℕ) (cs : Text)
    → is_newline c ≡ true
    → lines line (c ∷ cs) ≡ line ∷ lines [] cs
unfolding lines
lines_ended line c cs h = rw (h, lines)

pub lines-line :
    (line b rest : Text)
    → NoNewline b
    → lines line (b ++ newline ∷ rest) ≡ (line ++ b) ∷ lines [] rest
lines-line line [] rest h = rw (append-nil line) (lines_ended line newline rest refl)
lines-line line (c ∷ b) rest h =
    lines_other line c (b ++ newline ∷ rest) h.0
    ∙ lines-line (line ++ c ∷ []) b rest h.1
    ∙ ap (λ l. l ∷ lines [] rest) (append_assoc line (c ∷ []) b)

All-append : (xs ys : Text) → NoNewline xs → NoNewline ys → NoNewline (xs ++ ys)
All-append [] ys h k = k
All-append (x ∷ xs) ys h k = (h.0, All-append xs ys h.1 k)

pub lines-NoNewline : (line t : Text) → NoNewline line → All NoNewline (lines line t)
unfolding lines
lines-NoNewline [] [] h = tt
lines-NoNewline (c ∷ line) [] h = (h, tt)
lines-NoNewline line (c ∷ t) h = elim (Bool-cases (is_newline c)) [
  | inl ended ↦ rw (lines_ended line c t ended) (h, lines-NoNewline [] t tt)
  | inr other ↦
      rw (lines_other line c t other)
        (lines-NoNewline (line ++ c ∷ []) t (All-append line (c ∷ []) h (other, tt)))
]

pub lines-join : (ls : List Text) → All NoNewline ls → lines [] (join ls) ≡ ls
unfolding lines join
lines-join [] h = refl
lines-join (l ∷ ls) h = lines-line [] l (join ls) h.0 ∙ ap (◌∷◌ l) (lines-join ls h.1)

abbrev pub strip_lines : List Text → List Text
strip_lines = map (strip_end is_blank)

pub strip_lines_twice : (ls : List Text) → strip_lines (strip_lines ls) ≡ strip_lines ls
strip_lines_twice [] = refl
strip_lines_twice (l ∷ ls) = rw (strip_end_twice is_blank l, strip_lines_twice ls)

pub strip_lines-NoNewline : (ls : List Text) → All NoNewline ls → All NoNewline (strip_lines ls)
strip_lines-NoNewline [] h = tt
strip_lines-NoNewline (l ∷ ls) h = (strip_end-All is_blank l h.0, strip_lines-NoNewline ls h.1)
