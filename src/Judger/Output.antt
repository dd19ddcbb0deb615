-- ===== src/Judger/Output.antt =====
-- judger.hpp: `NormalizeOutput`, by which an answer is compared with the expected output.
pub mod Laws
pub mod Insensitive
use online_judge.Base.{
  ℕ, Text, List, [], ◌∷◌, ◌++◌, Bool, true, false, ◌&&◌, ◌||◌, ◌==◌, is_empty, map, if◌then◌else◌,
}

abbrev pub newline : ℕ
newline = 10

-- The bytes that the inner `while` drops from the end of a line.
abbrev pub is_blank : ℕ → Bool
is_blank c = c == b' ' || c == 9 || c == 13

abbrev pub is_newline : ℕ → Bool
is_newline c = c == newline

-- A `while` loop that walks back from the end over the bytes of a class.
pub strip_end : (ℕ → Bool) → Text → Text
strip_end p [] = []
strip_end p (c ∷ cs) = let rest = strip_end p cs in if is_empty rest && p c then [] else c ∷ rest

-- The pieces `[line_start, line_end)` of the outer loop; `line` is what the scan for the next
-- newline has passed. Nothing follows a final newline.
pub lines : Text → Text → List Text
lines line [] = if is_empty line then [] else line ∷ []
lines line (c ∷ cs) = elim (is_newline c) [
  | true ↦ line ∷ lines [] cs
  | false ↦ lines (line ++ c ∷ []) cs
]

pub join : List Text → Text
join [] = []
join (l ∷ ls) = l ++ newline ∷ join ls

-- `NormalizeOutput`.
unfoldable pub normalize_output : Text → Text
unfolding lines join strip_end
normalize_output output = strip_end is_newline (join (map (strip_end is_blank) (lines [] output)))
