-- ===== src/Base/Powers.antt =====
-- Powers of two.
use online_judge.Base.{ℕ, zero, suc, ◌+◌, ◌-◌, ◌^◌, ◌≤◌, ◌<◌, subst, arith}
use mathlib.Core.Path.{◌≡◌}

zero_add : (m : ℕ) → m ≡ 0 + m
zero_add m = omega arith

suc_add : (m j : ℕ) → suc (j + m) ≡ suc j + m
suc_add m j = omega arith

pow-add_le : (m j : ℕ) → 2 ^ m ≤ 2 ^ (j + m)
pow-add_le m zero = subst (λ x. 2 ^ m ≤ 2 ^ x) (zero_add m) (omega arith)
pow-add_le m (suc j) = subst (λ x. 2 ^ m ≤ 2 ^ x) (suc_add m j) (omega (arith, pow-add_le m j))

pub pow-pos : (m : ℕ) → 0 < 2 ^ m
pow-pos zero = omega arith
pow-pos (suc m) = omega (arith, pow-pos m)

pub pow-le : (m n : ℕ) → m ≤ n → 2 ^ m ≤ 2 ^ n
pow-le m n h = subst (λ x. 2 ^ m ≤ 2 ^ x) (omega arith) (pow-add_le m (n - m))
