-- ===== src/Judger/Output/Insensitive.antt =====
-- judger.hpp: the differences of layout that `NormalizeOutput` does not see.
use mathlib.Core.List.{append-nil, append_assoc}
use online_judge.Base.{
  ℕ, ◌≡◌, refl, sym, ap, ◌∙◌, inl, inr, Text, List, [], ◌∷◌, ◌++◌, true, false, arith, Bool-cases,
}
use online_judge.Judger.Output.{
  newline, is_blank, is_newline, strip_end, lines, join, normalize_output,
}
use online_judge.Judger.Output.Laws.{
  Only, NoNewline, strip_end-append, strip_end-Only, strip_end-cong, strip_end_rest, lines_other,
  lines_ended, lines-line, lines-NoNewline, lines-join, strip_lines, strip_lines_twice,
  strip_lines-NoNewline,
}

-- The text of the stripped lines, less its final newlines.
abbrev seen : List Text → Text
seen ls = strip_end is_newline (join (strip_lines ls))

seen-cong : (l : Text) (ls ms : List Text) → seen ls ≡ seen ms → seen (l ∷ ls) ≡ seen (l ∷ ms)
unfolding join
seen-cong l ls ms h =
    strip_end-cong is_newline (strip_end is_blank l) (newline ∷ join (strip_lines ls))
      (newline ∷ join (strip_lines ms))
      (strip_end-cong is_newline (newline ∷ []) (join (strip_lines ls)) (join (strip_lines ms)) h)

blank_no_newline : (c : ℕ) → is_blank c ≡ true → is_newline c ≡ false
blank_no_newline c h = ground arith

blanks-NoNewline : (b : Text) → Only is_blank b → NoNewline b
blanks-NoNewline [] h = tt
blanks-NoNewline (c ∷ b) h = (blank_no_newline c h.0, blanks-NoNewline b h.1)

lines_all : (line b : Text) → NoNewline b → lines line b ≡ lines (line ++ b) []
lines_all line [] h = rw (append-nil line)
lines_all line (c ∷ b) h =
    lines_other line c b h.0
    ∙ lines_all (line ++ c ∷ []) b h.1
    ∙ ap (λ l. lines l []) (append_assoc line (c ∷ []) b)

-- Blanks before a newline.
blanks_in_line :
    (line x b y : Text)
    → Only is_blank b
    → strip_lines (lines line (x ++ (b ++ newline ∷ y)))
      ≡ strip_lines (lines line (x ++ newline ∷ y))
blanks_in_line line [] b y h =
    rw (lines-line line b y (blanks-NoNewline b h), lines_ended line newline y refl)
      (ap (λ l. l ∷ strip_lines (lines [] y)) (strip_end-append is_blank line b h))
blanks_in_line line (c ∷ x) b y h = elim (Bool-cases (is_newline c)) [
  | inl ended ↦
      rw
        (
          lines_ended line c (x ++ (b ++ newline ∷ y)) ended,
          lines_ended line c (x ++ newline ∷ y) ended,
        )
        (ap (◌∷◌ (strip_end is_blank line)) (blanks_in_line [] x b y h))
  | inr other ↦
      rw
        (
          lines_other line c (x ++ (b ++ newline ∷ y)) other,
          lines_other line c (x ++ newline ∷ y) other,
        )
        (blanks_in_line (line ++ c ∷ []) x b y h)
]

last_line : (line b : Text) → Only is_blank b → seen (lines (line ++ b) []) ≡ seen (lines line [])
unfolding lines join strip_end
last_line [] [] h = refl
last_line [] (c ∷ b) h = rw (strip_end-Only is_blank b h.1, h.0)
last_line (a ∷ line) b h = rw (strip_end-append is_blank line b h)

-- Blanks at the very end.
blanks_at_end :
    (line x b : Text) → Only is_blank b → seen (lines line (x ++ b)) ≡ seen (lines line x)
blanks_at_end line [] b h = ap seen (lines_all line b (blanks-NoNewline b h)) ∙ last_line line b h
blanks_at_end line (c ∷ x) b h = elim (Bool-cases (is_newline c)) [
  | inl ended ↦
      rw (lines_ended line c (x ++ b) ended, lines_ended line c x ended)
        (seen-cong line (lines [] (x ++ b)) (lines [] x) (blanks_at_end [] x b h))
  | inr other ↦
      rw (lines_other line c (x ++ b) other, lines_other line c x other)
        (blanks_at_end (line ++ c ∷ []) x b h)
]

newline_of : (c : ℕ) → is_newline c ≡ true → c ≡ newline
newline_of c h = ground arith

newline_at_end : (line x : Text) → seen (lines line (x ++ newline ∷ [])) ≡ seen (lines line x)
unfolding lines join strip_end
newline_at_end [] [] = refl
newline_at_end (a ∷ line) [] = refl
newline_at_end line (c ∷ x) = elim (Bool-cases (is_newline c)) [
  | inl ended ↦
      rw (lines_ended line c (x ++ newline ∷ []) ended, lines_ended line c x ended)
        (seen-cong line (lines [] (x ++ newline ∷ [])) (lines [] x) (newline_at_end [] x))
  | inr other ↦
      rw (lines_other line c (x ++ newline ∷ []) other, lines_other line c x other)
        (newline_at_end (line ++ c ∷ []) x)
]

newlines_at_end : (x b : Text) → Only is_newline b → seen (lines [] (x ++ b)) ≡ seen (lines [] x)
newlines_at_end x [] h = ap (λ t. seen (lines [] t)) (append-nil x)
newlines_at_end x (c ∷ b) h =
    ap (λ t. seen (lines [] t)) (regroup c h.0)
    ∙ newlines_at_end (x ++ newline ∷ []) b h.1
    ∙ newline_at_end [] x
  where
    regroup : (c : ℕ) → is_newline c ≡ true → x ++ c ∷ b ≡ (x ++ newline ∷ []) ++ b
    regroup c e = ap (λ d. x ++ d ∷ b) (newline_of c e) ∙ sym (append_assoc x (newline ∷ []) b)

-- Two outputs that differ by blanks (spaces, tabs, carriage returns) at the end of a line compare
-- alike.
pub normalize_output_blanks :
    (x b y : Text)
    → Only is_blank b
    → normalize_output (x ++ (b ++ newline ∷ y)) ≡ normalize_output (x ++ newline ∷ y)
unfolding normalize_output
normalize_output_blanks x b y h =
    ap (λ ls. strip_end is_newline (join ls)) (blanks_in_line [] x b y h)

-- Two outputs that differ by blanks or by newlines at the very end compare alike.
pub normalize_output_end :
    (x b n : Text)
    → Only is_blank b
    → Only is_newline n
    → normalize_output ((x ++ b) ++ n) ≡ normalize_output x
unfolding normalize_output
normalize_output_end x b n h k = newlines_at_end (x ++ b) n k ∙ blanks_at_end [] x b h

-- The normal form of an output is its own normal form.
pub normalize_output_twice : (t : Text) → normalize_output (normalize_output t) ≡ normalize_output t
unfolding normalize_output
normalize_output_twice t =
    let ls = strip_lines (lines [] t) in
    let (cut, whole, only) = strip_end_rest is_newline (join ls) in
    sym (newlines_at_end (strip_end is_newline (join ls)) cut only)
    ∙ ap (λ s. seen (lines [] s)) (sym whole)
    ∙ ap seen (lines-join ls (strip_lines-NoNewline (lines [] t) (lines-NoNewline [] t tt)))
    ∙ ap (λ ms. strip_end is_newline (join ms)) (strip_lines_twice (lines [] t))
