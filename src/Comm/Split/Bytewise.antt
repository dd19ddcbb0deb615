-- ===== src/Comm/Split/Bytewise.antt =====
-- SplitString with a separator of one byte: parts without that byte are taken apart again.
use online_judge.Base.{
  ℕ, ◌≡◌, refl, Text, List, [], ◌∷◌, ◌++◌, none, some, false, ◌==◌, is_empty, length-append, arith,
  All,
}
use online_judge.Comm.Split.{find_split, EndsWith, last_token-EndsWith, push_token-EndsWith}

-- The text has no byte `c`.
abbrev pub Lacks : ℕ → Text → Type 0
Lacks c = All (λ b. (c == b) ≡ false)

find_split-Lacks : (c : ℕ) (s : Text) → Lacks c s → find_split (c ∷ []) s ≡ none
unfolding find_split
find_split-Lacks c [] lacks = refl
find_split-Lacks c (b ∷ s) (here, lacks) = rw (find_split, here, find_split-Lacks c s lacks) refl

find_split-first :
    (c : ℕ) (a rest : Text) → Lacks c a → find_split (c ∷ []) (a ++ (c ∷ rest)) ≡ some (a, rest)
unfolding find_split
find_split-first c [] rest lacks = ground arith
find_split-first c (b ∷ a) rest (here, lacks) =
    rw (find_split, here, find_split-first c a rest lacks) refl

pub Lacks-EndsWith :
    (c : ℕ) (a : Text) → is_empty a ≡ false → Lacks c a → EndsWith (c ∷ []) a (a ∷ [])
Lacks-EndsWith c [] filled lacks = cc
Lacks-EndsWith c (b ∷ a) filled lacks =
    last_token-EndsWith (c ∷ []) (b ∷ a) (find_split-Lacks c (b ∷ a) lacks)

pub joined-EndsWith :
    (c : ℕ) (a rest : Text) (tokens : List Text)
    → is_empty a ≡ false
    → Lacks c a
    → EndsWith (c ∷ []) rest tokens
    → EndsWith (c ∷ []) (a ++ (c ∷ rest)) (a ∷ tokens)
joined-EndsWith c [] rest tokens filled lacks ends = cc
joined-EndsWith c (b ∷ a) rest tokens filled lacks ends =
    push_token-EndsWith (c ∷ []) ((b ∷ a) ++ (c ∷ rest)) (b ∷ a) rest tokens
      (find_split-first c (b ∷ a) rest lacks) (omega (arith, length-append a (c ∷ rest))) ends
