-- ===== src/Auth/Passwords/RoundTrip.antt =====
-- Passwords: a stored hash is taken apart as it was put together.
use online_judge.Base.{
  ℕ, zero, suc, ◌+◌, ◌-◌, ◌≤◌, ◌<◌, ◌≡◌, refl, ap, ◌∙◌, Text, codes, List, [], ◌∷◌, ◌++◌, some,
  true, false, ◌=t◌, Text-discrete, is_empty, length, arith, All,
}
use online_judge.Base.Int.{pos}
use online_judge.Base.Hex.{hex_encode, length-hex_encode, hex_encode-ge}
use online_judge.Base.Decimal.{to_string, digits_before}
use online_judge.Comm.{skip_spaces}
use online_judge.Comm.Split.{split_string, EndsWith}
use online_judge.Comm.Split.Bytewise.{Lacks, Lacks-EndsWith, joined-EndsWith}
use online_judge.Auth.Passwords.{
  Hashing, sha256_hex, derive_rounds, derive_password_digest, generate_salt_hex,
  build_password_hash, stoi, verify_parts, verify_password_hash, password_algo_tag,
  password_iterations, dollar, parts_of,
}

ge-Lacks : (s : Text) → All (λ c. 48 ≤ c) s → Lacks 36 s
ge-Lacks [] all = tt
ge-Lacks (c ∷ s) (here, all) = (ground arith, ge-Lacks s all)

-- What SHA-256 gives: 32 bytes.
abbrev pub Is256 : Hashing → Type 0
Is256 h = (input : Text) → length (h.sha256 input) ≡ 32

abbrev IsHex : ℕ → Text → Type 0
IsHex n digest = (bytes : List ℕ) × (digest ≡ hex_encode bytes) × (length bytes ≡ n)

derive_rounds-IsHex :
    (h : Hashing) (salt : Text) (rounds : ℕ) (digest : Text)
    → Is256 h
    → IsHex 32 digest
    → IsHex 32 (derive_rounds h salt rounds digest)
unfolding derive_rounds sha256_hex
derive_rounds-IsHex h salt zero digest size hex = hex
derive_rounds-IsHex h salt (suc rounds) digest size hex =
    derive_rounds-IsHex h salt rounds _ size
      (h.sha256 (digest ++ codes ":" ++ salt ++ codes ":" ++ h.pepper), refl, size _)

derive-IsHex :
    (h : Hashing) (password salt : Text) (iterations : ℕ)
    → Is256 h
    → IsHex 32 (derive_password_digest h password salt iterations)
unfolding derive_password_digest sha256_hex
derive-IsHex h password salt iterations size =
    derive_rounds-IsHex h salt (iterations - 1) _ size
      (h.sha256 (salt ++ codes ":" ++ password ++ codes ":" ++ h.pepper), refl, size _)

hex-length : (n : ℕ) (s : Text) → IsHex n s → length s ≡ n + n
hex-length n s (bytes, e, size) = rw e (omega (arith, length-hex_encode bytes, size))

hex-Lacks : (n : ℕ) (s : Text) → IsHex n s → Lacks 36 s
hex-Lacks n s (bytes, e, size) = rw e (ge-Lacks (hex_encode bytes) (hex_encode-ge bytes))

filled_by_length : (s : Text) → 0 < length s → is_empty s ≡ false
filled_by_length [] h = absurd (omega arith)
filled_by_length (c ∷ s) h = refl

iterations_shown : to_string password_iterations ≡ codes "120000"
unfolding to_string digits_before
iterations_shown = refl

stored_parts :
    (salt digest : Text)
    → IsHex 16 salt
    → IsHex 32 digest
    → EndsWith dollar
        (salt ++ (dollar ++ (codes "120000" ++ (dollar ++ digest))))
        (salt ∷ codes "120000" ∷ digest ∷ [])
stored_parts salt digest hex hex' =
    joined-EndsWith 36 salt (codes "120000" ++ (dollar ++ digest)) (codes "120000" ∷ digest ∷ [])
      (filled_by_length salt (omega (arith, hex-length 16 salt hex))) (hex-Lacks 16 salt hex)
      (joined-EndsWith 36 (codes "120000") digest (digest ∷ []) refl (ground arith) (
        Lacks-EndsWith 36 digest
          (filled_by_length digest (omega (arith, hex-length 32 digest hex')))
          (hex-Lacks 32 digest hex')))

iterations_read : stoi (codes "120000") ≡ some (pos 120000)
unfolding stoi skip_spaces
iterations_read = refl

verify_parts-three :
    (h : Hashing) (password salt digest : Text)
    → length salt ≡ 32
    → length digest ≡ 64
    → verify_parts h password (salt ∷ codes "120000" ∷ digest ∷ [])
      ≡ (derive_password_digest h password salt password_iterations =t digest)
unfolding verify_parts
verify_parts-three h password salt digest k l = rw (verify_parts, iterations_read, k, l) refl

build_shape :
    (h : Hashing) (raw : List ℕ) (password : Text)
    → length raw ≡ 16
    → Is256 h
    → build_password_hash h (some raw) password
      ≡ hex_encode raw
        ++ (dollar
            ++ (codes "120000"
                ++ (dollar
                    ++ derive_password_digest h password (hex_encode raw) password_iterations)))
unfolding build_password_hash generate_salt_hex
build_shape h raw password size size' =
    rw (build_password_hash, generate_salt_hex, salt_filled, digest_filled, iterations_shown) refl
  where
    salt_filled : is_empty (hex_encode raw) ≡ false
    salt_filled = filled_by_length (hex_encode raw) (omega (arith, length-hex_encode raw, size))

    digest_filled :
        is_empty (derive_password_digest h password (hex_encode raw) password_iterations) ≡ false
    digest_filled =
        filled_by_length (derive_password_digest h password (hex_encode raw) password_iterations) (
          omega (
            arith,
            hex-length 32 (derive_password_digest h password (hex_encode raw) password_iterations)
                (derive-IsHex h password (hex_encode raw) password_iterations size'),
          ))

text_same : (s : Text) → (s =t s) ≡ true
unfolding Text-discrete
text_same s = elim (Text-discrete s s) [
  | yes same ↦ ground (arith, same)
  | no other ↦ absurd (other refl)
]

verify_tagged :
    (h : Hashing) (p s : Text)
    → verify_password_hash h p s password_algo_tag
      ≡ verify_parts h p (parts_of (split_string (suc (length s)) dollar s))
unfolding verify_password_hash Text-discrete
verify_tagged h p s = refl

-- With 16 random bytes and a SHA-256 of 32 bytes: a stored hash of a password is accepted with that
-- password, and with another exactly when the two derive the same digest from its salt.
pub verify-build_password_hash :
    (h : Hashing) (raw : List ℕ) (password candidate : Text)
    → length raw ≡ 16
    → Is256 h
    → (verify_password_hash h password (build_password_hash h (some raw) password) password_algo_tag
        ≡ true)
      × (verify_password_hash h candidate
            (build_password_hash h (some raw) password)
            password_algo_tag
          ≡ (derive_password_digest h candidate (hex_encode raw) password_iterations
              =t derive_password_digest h password (hex_encode raw) password_iterations))
verify-build_password_hash h raw password candidate size size' =
    (verifies password ∙ text_same (digest_of password), verifies candidate)
  where
    digest_of : Text → Text
    digest_of p = derive_password_digest h p (hex_encode raw) password_iterations

    stored : Text
    stored = hex_encode raw ++ (dollar ++ (codes "120000" ++ (dollar ++ digest_of password)))

    hex : IsHex 32 (digest_of password)
    hex = derive-IsHex h password (hex_encode raw) password_iterations size'

    split :
        split_string (suc (length stored)) dollar stored
        ≡ some (hex_encode raw ∷ codes "120000" ∷ digest_of password ∷ [])
    split =
        (stored_parts (hex_encode raw) (digest_of password) (raw, refl, size) hex).0
          (suc (length stored)) (omega arith)

    verifies :
        (p : Text)
        → verify_password_hash h p (build_password_hash h (some raw) password) password_algo_tag
          ≡ (digest_of p =t digest_of password)
    verifies p =
        ap (λ s. verify_password_hash h p s password_algo_tag)
          (build_shape h raw password size size')
        ∙ verify_tagged h p stored
        ∙ ap (λ o. verify_parts h p (parts_of o)) split
        ∙ verify_parts-three h p (hex_encode raw) (digest_of password)
            (hex-length 16 (hex_encode raw) (raw, refl, size))
            (hex-length 32 (digest_of password) hex)
