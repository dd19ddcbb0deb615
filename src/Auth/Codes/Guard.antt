-- ===== src/Auth/Codes/Guard.antt =====
-- The two keys of a code: how many more answers can tell whether a code is right.
use online_judge.Base.{ℕ, ◌+◌, ◌-◌, ◌≤◌, ◌<◌, ◌≡◌, Text, Option, none, some, false, leb, arith}
use online_judge.Redis.{Entry, number, incremented, expiring, unless_over, text_of}
use online_judge.Auth.Codes.{Answer, ok, code_mismatch, attempts_exceeded}

-- An answer that tells whether a code was right.
abbrev pub tells : Answer → ℕ
tells ok = 1
tells code_mismatch = 1
tells attempts_exceeded = 1
tells answer = 0

-- With the code's entry and that of its attempts: while the code lives, at most `n` more answers can
-- tell. The attempts outlive the code.
abbrev pub Guard : ℕ → (code attempts : Option Entry) → ℕ → Type 0
Guard now none attempts n = Unit
Guard now (some code) none n = elim code.deadline [
  | none ↦ ⊥
  | some d ↦ (d ≤ now + 300) × (now < d → 5 ≤ n)
]
Guard now (some code) (some attempts) n = elim code.deadline [
  | none ↦ ⊥
  | some d ↦ elim attempts.value [
    | number tried ↦ elim attempts.deadline [
      | none ↦ (d ≤ now + 300) × (now < d → 1 + (4 - tried) ≤ n)
      | some e ↦ (d ≤ now + 300) × (d ≤ e) × (now < d → 1 + (4 - tried) ≤ n)
    ]
    | _ ↦ ⊥
  ]
]

pub Guard-expire :
    (now : ℕ) (code attempts : Option Entry) (n : ℕ)
    → Guard now code attempts n
    → Guard now code (expiring (now + 300) (unless_over now attempts)) n
Guard-expire now none attempts n g = tt
Guard-expire now (some code) none n g = g
Guard-expire now (some code) (some attempts) n g = ground arith

pub Guard-incremented :
    (now : ℕ) (code attempts : Option Entry) (n tried : ℕ) (e : Entry)
    → incremented (unless_over now attempts) ≡ some (tried, e)
    → Guard now code attempts n
    → Guard now code (some e) n
Guard-incremented now none attempts n tried e h g = tt
Guard-incremented now (some code) none n tried e h g = ground arith
Guard-incremented now (some code) (some attempts) n tried e h g = ground arith

pub Guard-later :
    (now later : ℕ) (code attempts : Option Entry) (n : ℕ)
    → now ≤ later
    → Guard now code attempts n
    → Guard later code attempts n
Guard-later now later none attempts n h g = tt
Guard-later now later (some code) none n h g = ground arith
Guard-later now later (some code) (some attempts) n h g = ground arith

pub Guard-live :
    (now : ℕ) (code attempts : Option Entry) (n : ℕ) (cached : Text)
    → text_of (unless_over now code) ≡ some cached
    → Guard now code attempts n
    → 1 ≤ n
Guard-live now none attempts n cached h g = cc
Guard-live now (some code) none n cached h g = ground arith
Guard-live now (some code) (some attempts) n cached h g = ground arith

pub Guard-counted :
    (now : ℕ) (code attempts : Option Entry) (n tried : ℕ) (e : Entry)
    → incremented (unless_over now attempts) ≡ some (tried, e)
    → leb 5 tried ≡ false
    → Guard now code attempts n
    → Guard now code (some e) (n - 1)
Guard-counted now none attempts n tried e h few g = tt
Guard-counted now (some code) none n tried e h few g = ground arith
Guard-counted now (some code) (some attempts) n tried e h few g = ground arith
