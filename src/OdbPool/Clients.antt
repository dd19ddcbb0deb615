-- ===== src/OdbPool/Clients.antt =====
-- connection_pool.hpp: how many threads have a share of the connections.
use online_judge.Base.{ℕ, ◌≤◌, List, [], ◌∷◌, Option, none, some, arith, suc, zero, length}
use online_judge.OdbPool.{
  Client, IdleDatabase, OdbPoolConfig, away, waiting, creating, checking, replacing, holding, fill,
  retain,
}

module _ {D : Type 0} where
  -- 1 for a thread that has a connection or is about to make one.
  abbrev pub share : Client D → ℕ
  share away = 0
  share waiting = 0
  share creating = 1
  share (checking d) = 1
  share replacing = 1
  share (holding d) = 1

  pub length-fill :
      (n : ℕ) (attempts : List (Option D)) (now : ℕ) → length (fill n attempts now) ≤ n
  unfolding fill
  length-fill zero attempts now = omega arith
  length-fill (suc n) [] now = omega arith
  length-fill (suc n) (none ∷ attempts) now = omega arith
  length-fill (suc n) (some d ∷ attempts) now = omega (arith, length-fill n attempts now)

  pub length-retain :
      (c : OdbPoolConfig) (now kept : ℕ) (items : List (IdleDatabase D))
      → length (retain c now kept items) ≤ length items
  unfolding retain
  length-retain c now kept [] = omega arith
  length-retain c now kept (item ∷ rest) =
      ground (arith, length-retain c now (suc kept) rest, length-retain c now kept rest)
