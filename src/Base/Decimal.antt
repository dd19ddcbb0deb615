-- ===== src/Base/Decimal.antt =====
-- `std::to_string` of a number of at most 64 bits: at most twenty digits.
use online_judge.Base.{ℕ, zero, suc, ◌+◌, ◌/◌, ◌%◌, Text, [], ◌∷◌, ltb, if◌then◌else◌}

-- The digits of `n` before those that are already there; twenty rounds are enough for 64 bits.
unfoldable pub digits_before : (rounds n : ℕ) → Text → Text
digits_before zero n shown = shown
digits_before (suc rounds) n shown =
    let rest = digits_before rounds (n / 10) ((b'0' + n % 10) ∷ shown) in
    if ltb n 10 then (b'0' + n) ∷ shown else rest

unfoldable pub to_string : ℕ → Text
unfolding digits_before
to_string n = digits_before 20 n []
