-- ===== src/Base/Bytes.antt =====
-- A `std::string` is the list of its bytes.
use Prim.Native.Nat.{ℕ}
use Prim.Native.Char.{code}
use Prim.Native.String.{String}
use mathlib.Core.Bool.{Bool, true, false}
use mathlib.Core.List.{List, [], ◌∷◌}
use native.Mathlib.Decide.{ℕ_discrete}
use online_judge.Base.Tests.{◌==◌, if◌then◌else◌}

abbrev pub Text : Type 0
Text = List ℕ

-- The bytes of an ASCII literal.
abbrev pub codes : String → Text
codes String.[] = []
codes (String.◌∷◌ c s) = code c ∷ codes s

unfoldable pub Text-discrete : Discrete Text
unfolding ℕ_discrete
Text-discrete = hlevel ℕ_discrete

-- `operator==` on strings.
infix 50 ◌=t◌
abbrev pub ◌=t◌ : Text → Text → Bool
a =t b = elim (Text-discrete a b) [ yes _ ↦ true | no _ ↦ false ]

-- `s.compare(0, prefix.size(), prefix) == 0`.
abbrev pub starts_with : (prefix s : Text) → Bool
starts_with [] s = true
starts_with (p ∷ prefix) [] = false
starts_with (p ∷ prefix) (c ∷ s) = if p == c then starts_with prefix s else false
