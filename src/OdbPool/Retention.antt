-- ===== src/OdbPool/Retention.antt =====
-- connection_pool.hpp, `HealthCheckLoop`: which idle connections a round keeps.
use online_judge.Base.{
  ℕ, suc, ◌+◌, ◌-◌, ◌≤◌, ◌≡◌, refl, min, List, [], ◌∷◌, ◌⊎◌, ltb, arith, length, tally,
  if◌then◌else◌,
}
use online_judge.OdbPool.{
  OdbPoolConfig, OdbConnectionPool, IdleDatabase, retain, health_check_round,
}

module _ {D : Type 0} where
  -- 1 for a connection that has not been idle for `idle_timeout_s`.
  abbrev pub is_young : OdbPoolConfig → ℕ → IdleDatabase D → ℕ
  is_young c now item = if ltb (now - item.second) c.idle_timeout_s then 1 else 0

  retain-min :
      (c : OdbPoolConfig) (now kept : ℕ) (items : List (IdleDatabase D))
      → min c.min_connections (kept + length items) ≤ kept + length (retain c now kept items)
        ⊎ c.min_connections ≤ kept
  unfolding retain
  retain-min c now kept [] = ground arith
  retain-min c now kept (item ∷ rest) =
      ground (arith, retain-min c now (suc kept) rest, retain-min c now kept rest)

  -- The measure of what is kept is that of the whole, for a measure of young connections.
  retain-young :
      (c : OdbPoolConfig) (now kept : ℕ) (items : List (IdleDatabase D))
      → tally (is_young c now) (retain c now kept items) ≡ tally (is_young c now) items
  unfolding retain
  retain-young c now kept [] = refl
  retain-young c now kept (item ∷ rest) =
      ground (arith, retain-young c now (suc kept) rest, retain-young c now kept rest)

  retain-tally :
      (f : IdleDatabase D → ℕ) (c : OdbPoolConfig) (now kept : ℕ) (items : List (IdleDatabase D))
      → tally f (retain c now kept items) ≤ tally f items
  unfolding retain
  retain-tally f c now kept [] = omega arith
  retain-tally f c now kept (item ∷ rest) =
      ground (arith, retain-tally f c now (suc kept) rest, retain-tally f c now kept rest)

  -- A round of the health check keeps at least `min_connections` idle connections, or all if there
  -- are fewer; it keeps every connection that has been idle for less than the timeout, and adds
  -- none: whatever is counted of the idle connections does not grow.
  pub health_check_keeps :
      (p : OdbConnectionPool D) (now : ℕ) (count : IdleDatabase D → ℕ)
      → let kept = (health_check_round p now).idle_pool in
        (min p.config.min_connections (length p.idle_pool) ≤ length kept)
        × (tally (is_young p.config now) kept ≡ tally (is_young p.config now) p.idle_pool)
        × (tally count kept ≤ tally count p.idle_pool)
  unfolding health_check_round
  health_check_keeps p now count = ground (
    arith,
    retain-min p.config now 0 p.idle_pool,
    retain-young p.config now 0 p.idle_pool,
    retain-tally count p.config now 0 p.idle_pool,
  )
