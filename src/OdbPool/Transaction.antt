-- ===== src/OdbPool/Transaction.antt =====
-- connection_pool.hpp, `ScopedTransaction`: how a transaction ends.
--
-- The ODB transaction's `commit` and `rollback` succeed or throw; `calls` records those that the
-- wrapper makes.
use online_judge.Base.{
  ℕ, ◌+◌, ◌%◌, ◌≡◌, refl, ◌⊎◌, List, [], ◌∷◌, ◌++◌, Bool, true, false, not, ◌&&◌, arith, tally,
  tally-append, if◌then◌else◌,
}
use online_judge.OdbPool.{size_mod}

-- A call of the ODB transaction, and whether it succeeded.
pub data Call : Type 0 where
  commit_call rollback_call : Bool → Call

-- `tx` says that `_tx` is set.
pub record ScopedTransaction : Type 0 where
  pub tx : Bool
  pub committed : Bool
  pub failures : ℕ
  pub calls : List Call

-- The constructor, where `begin` did not throw.
pub scoped_transaction : ℕ → ScopedTransaction
scoped_transaction failures = record {
  tx = true;
  committed = false;
  failures = failures;
  calls = [];
}

pub commit : ScopedTransaction → Bool → ScopedTransaction
commit t ok =
    if t.tx && not t.committed
    then record t { calls = t.calls ++ commit_call ok ∷ []; committed = ok }
    else t

pub rollback : ScopedTransaction → Bool → ScopedTransaction
rollback t ok =
    if t.tx && not t.committed
    then record t { calls = t.calls ++ rollback_call ok ∷ []; committed = ok }
    else t

-- `~ScopedTransaction`: an exception is counted.
pub destroy : ScopedTransaction → Bool → ScopedTransaction
destroy t ok =
    if t.tx && not t.committed
    then record t {
      calls = t.calls ++ rollback_call ok ∷ [];
      failures = if ok then t.failures else (t.failures + 1) % size_mod;
    }
    else t

pub data Use : Type 0 where
  commits rollbacks : Bool → Use

pub run_uses : ScopedTransaction → List Use → ScopedTransaction
unfolding commit rollback
run_uses t [] = t
run_uses t (commits ok ∷ rest) = run_uses (commit t ok) rest
run_uses t (rollbacks ok ∷ rest) = run_uses (rollback t ok) rest

-- 1 for a call that ended the transaction.
abbrev pub ends : Call → ℕ
ends (commit_call ok) = if ok then 1 else 0
ends (rollback_call ok) = if ok then 1 else 0

record IsSound (t : ScopedTransaction) (failures : ℕ) : Type 0 where
  has_tx : t.tx ≡ true
  same : t.failures ≡ failures
  ended : tally ends t.calls ≡ (if t.committed then 1 else 0)

commit-IsSound : (t : ScopedTransaction) (n : ℕ) (ok : Bool) → IsSound t n → IsSound (commit t ok) n
unfolding commit
commit-IsSound t n ok s = ground (arith, tally-append ends t.calls (commit_call ok ∷ []))

rollback-IsSound :
    (t : ScopedTransaction) (n : ℕ) (ok : Bool) → IsSound t n → IsSound (rollback t ok) n
unfolding rollback
rollback-IsSound t n ok s = ground (arith, tally-append ends t.calls (rollback_call ok ∷ []))

run_uses-IsSound :
    (t : ScopedTransaction) (n : ℕ) (uses : List Use) → IsSound t n → IsSound (run_uses t uses) n
unfolding run_uses
run_uses-IsSound t n [] s = s
run_uses-IsSound t n (commits ok ∷ rest) s =
    run_uses-IsSound (commit t ok) n rest (commit-IsSound t n ok s)
run_uses-IsSound t n (rollbacks ok ∷ rest) s =
    run_uses-IsSound (rollback t ok) n rest (rollback-IsSound t n ok s)

destroy_ends :
    (t : ScopedTransaction) (n : ℕ) (ok : Bool)
    → IsSound t n
    → let d = destroy t ok in
      ((tally ends d.calls ≡ 1) × (d.failures ≡ n))
      ⊎ ((tally ends d.calls ≡ 0) × (d.failures ≡ (n + 1) % size_mod))
unfolding destroy
destroy_ends t n ok s = ground (arith, tally-append ends t.calls (rollback_call ok ∷ []))

-- However a scope uses its transaction, and whatever `commit` and `rollback` throw, when the scope
-- has ended exactly one call has ended the transaction and no failure was counted, or none has (the
-- destructor's own rollback failed too) and one failure was counted.
pub transaction_ends_once :
    (failures : ℕ) (uses : List Use) (ok : Bool)
    → let d = destroy (run_uses (scoped_transaction failures) uses) ok in
      ((tally ends d.calls ≡ 1) × (d.failures ≡ failures))
      ⊎ ((tally ends d.calls ≡ 0) × (d.failures ≡ (failures + 1) % size_mod))
unfolding scoped_transaction
transaction_ends_once failures uses ok =
    destroy_ends (run_uses (scoped_transaction failures) uses) failures ok (
      run_uses-IsSound (scoped_transaction failures) failures uses
        (record { has_tx = refl; same = refl; ended = refl }))
