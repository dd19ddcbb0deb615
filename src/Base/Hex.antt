-- ===== src/Base/Hex.antt =====
-- Lower-case hexadecimal, two digits to a byte: the loop that the program writes wherever it prints
-- random bytes or a digest.
use online_judge.Base.{
  ℕ, ◌+◌, ◌-◌, ◌*◌, ◌/◌, ◌%◌, ◌≡◌, refl, Text, List, [], ◌∷◌, arith, if◌then◌else◌, ltb, length,
  All, ◌≤◌,
}

-- `hex[n]` of `"0123456789abcdef"`.
abbrev hex_digit : ℕ → ℕ
hex_digit n = if ltb n 10 then b'0' + n else b'a' + n - 10

unfoldable pub hex_encode : List ℕ → Text
hex_encode [] = []
hex_encode (b ∷ bs) = hex_digit (b / 16) ∷ hex_digit (b % 16) ∷ hex_encode bs

pub length-hex_encode : (bs : List ℕ) → length (hex_encode bs) ≡ 2 * length bs
unfolding hex_encode
length-hex_encode [] = refl
length-hex_encode (b ∷ bs) = omega (arith, length-hex_encode bs)

pub hex_encode-ge : (bs : List ℕ) → All (λ c. 48 ≤ c) (hex_encode bs)
unfolding hex_encode
hex_encode-ge [] = tt
hex_encode-ge (b ∷ bs) = (ground arith, (ground arith, hex_encode-ge bs))
