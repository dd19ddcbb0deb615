-- ===== src/Auth/Passwords/Examples.antt =====
-- control_auth.hpp: codes and passwords.
use online_judge.Base.{ℕ, zero, suc, ◌≡◌, refl, codes, List, [], ◌∷◌, some, true, false, ◌=t◌}
use online_judge.Base.Hex.{hex_encode}
use online_judge.Base.Decimal.{to_string, digits_before}
use online_judge.Auth.Passwords.{
  Hashing, generate_auth_code, is_password_strong_enough, verify_password_hash, build_password_hash,
  derive_password_digest, password_algo_tag, password_iterations,
}
use online_judge.Auth.Passwords.RoundTrip.{verify-build_password_hash}

-- The first word is rejected; the second gives a code with leading zeros.
code_drawn : generate_auth_code (some 4294000000 ∷ some 3000042 ∷ []) ≡ some (codes "000042")
unfolding generate_auth_code to_string digits_before
code_drawn = refl

no_digit : is_password_strong_enough (codes "abcdefgh") ≡ false
unfolding is_password_strong_enough
no_digit = refl

abbrev repeat : ℕ → List ℕ
repeat zero = []
repeat (suc n) = n ∷ repeat n

abbrev hashing : Hashing
hashing = record { sha256 = λ input. repeat 32; pepper = codes "pepper" }

verify-build_password_hash_example :
    (verify_password_hash hashing
        (codes "secret12")
        (build_password_hash hashing (some (repeat 16)) (codes "secret12"))
        password_algo_tag
      ≡ true)
    × (verify_password_hash hashing
          (codes "other999")
          (build_password_hash hashing (some (repeat 16)) (codes "secret12"))
          password_algo_tag
        ≡ (derive_password_digest hashing
              (codes "other999")
              (hex_encode (repeat 16))
              password_iterations
            =t derive_password_digest hashing
                (codes "secret12")
                (hex_encode (repeat 16))
                password_iterations))
verify-build_password_hash_example =
    verify-build_password_hash hashing (repeat 16) (codes "secret12") (codes "other999") refl
      (λ input. refl)
