-- ===== src/Comm/UrlEncode.antt =====
-- comm.hpp, `HttpUtil::url_encode`: percent-encoding as RFC 3986 describes it.
use online_judge.Base.{
  ap, ℕ, ◌+◌, ◌-◌, ◌*◌, ◌/◌, ◌%◌, ◌<◌, ◌≡◌, refl, inl, inr, Text, [], ◌∷◌, true, false, ltb, ◌==◌,
  All, arith, Bool-cases, if◌then◌else◌,
}
use online_judge.Comm.{url_encode, is_unreserved, upper_hex}

abbrev hex_value : ℕ → ℕ
hex_value c = if ltb c 58 then c - 48 else c - 55

-- The decoder of RFC 3986: a percent sign and two hexadecimal digits are a byte.
pub url_decode : Text → Text
url_decode [] = []
url_decode (c ∷ []) = c ∷ []
url_decode (c ∷ h ∷ []) = c ∷ h ∷ []
url_decode (c ∷ h ∷ l ∷ rest) = elim (c == b'%') [
  | true ↦ (hex_value h * 16 + hex_value l) ∷ url_decode rest
  | false ↦ c ∷ url_decode (h ∷ l ∷ rest)
]

hex_value-upper_hex : (n : ℕ) → n < 16 → hex_value (upper_hex n) ≡ n
hex_value-upper_hex n h = ground arith

decode_kept : (c : ℕ) (cs : Text) → (c == b'%') ≡ false → url_decode (c ∷ cs) ≡ c ∷ url_decode cs
unfolding url_decode
decode_kept c [] h = refl
decode_kept c (d ∷ []) h = refl
decode_kept c (d ∷ e ∷ cs) h = rw (h, url_decode) refl

decode_escaped :
    (c : ℕ) (cs : Text)
    → c < 256
    → url_decode (b'%' ∷ upper_hex (c / 16) ∷ upper_hex (c % 16) ∷ cs) ≡ c ∷ url_decode cs
unfolding url_decode
decode_escaped c cs h =
    ap (λ x. x ∷ url_decode cs)
      (omega (
        arith,
        hex_value-upper_hex (c / 16) (omega arith),
        hex_value-upper_hex (c % 16) (omega arith),
      ))

-- Decoding what was encoded gives every byte string back.
pub url_decode-url_encode : (s : Text) → All (λ c. c < 256) s → url_decode (url_encode s) ≡ s
unfolding url_encode url_decode
url_decode-url_encode [] b = refl
url_decode-url_encode (c ∷ cs) b = elim (Bool-cases (is_unreserved c)) [
  | inl kept ↦
      rw (kept, url_encode, decode_kept c (url_encode cs) (ground arith))
        (ap (λ x. c ∷ x) (url_decode-url_encode cs b.1))
  | inr escaped ↦
      rw (escaped, url_encode, decode_escaped c (url_encode cs) b.0)
        (ap (λ x. c ∷ x) (url_decode-url_encode cs b.1))
]
