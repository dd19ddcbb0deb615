-- ===== src/OdbPool/Invariant.antt =====
-- connection_pool.hpp: what holds of the pool between any two actions of its threads.
use online_judge.Base.{
  ℕ, ◌+◌, ◌≤◌, ◌<◌, ◌≡◌, refl, inl, inr, List, [], ◌∷◌, Option, none, some, Bool, true, false,
  arith, length, get_elem?, tally, tally-set, get_elem?-set, length-append, Option-cases, All,
}
use online_judge.OdbPool.{
  OdbConnectionPool, OdbPoolConfig, IdleDatabase, Client, Lifecycle, Action, Answers, free,
  shutting_down, away, waiting, creating, checking, replacing, holding, inits, shuts_down,
  shut_downs, checks, advances, fill, init, checkout, finish_checkout, release_reservation,
  after_create, after_check, return_database, shutdown, shut_down, health_check_round, advance,
  on_lifecycle, step, run, fresh,
}
use online_judge.OdbPool.Clients.{share, length-fill, length-retain}

-- `max_connections` is an `unsigned int`.
abbrev pub Fits : {D : Type 0} → Action D → Type 0
Fits (inits config attempts thread_ok now) = config.max_connections < 4294967296
Fits shuts_down = Unit
Fits shut_downs = Unit
Fits (checks now) = Unit
Fits (advances i answers now) = Unit

module _ {D : Type 0} where
  pub record IsSound (p : OdbConnectionPool D) : Type 0 where
    pub fits : p.config.max_connections < 4294967296
    pub exact : p.active_count ≡ tally share p.clients
    pub bounded : p.active_count + length p.idle_pool ≤ p.config.max_connections
    pub when_free : p.lifecycle ≡ free → p.running ≡ false → p.idle_pool ≡ []
    pub when_shutting : p.lifecycle ≡ shutting_down → p.running ≡ false

  init-IsSound :
      (p : OdbConnectionPool D) (config : OdbPoolConfig) (attempts : List (Option D))
      (thread_ok : Bool) (now : ℕ)
      → p.lifecycle ≡ free
      → config.max_connections < 4294967296
      → IsSound p
      → IsSound (init p config attempts thread_ok now).0
  unfolding init
  init-IsSound p config attempts thread_ok now l f s = ground (
    arith,
    length-fill config.min_connections attempts now,
    length-append p.idle_pool (fill config.min_connections attempts now),
  )

  checkout-IsSound :
      (p : OdbConnectionPool D) (i : ℕ) (idle : List (IdleDatabase D))
      → p.idle_pool ≡ idle
      → get_elem? p.clients i ≡ some waiting
      → IsSound p
      → IsSound (checkout p i)
  unfolding checkout
  checkout-IsSound p i [] o h s =
      ground (arith, tally-set share p.clients i away h, tally-set share p.clients i creating h)
  checkout-IsSound p i (item ∷ rest) o h s = ground (
    arith,
    tally-set share p.clients i away h,
    tally-set share p.clients i (checking item.first) h,
  )

  finish_checkout-IsSound :
      (p : OdbConnectionPool D) (i : ℕ) (c : Client D) (d : D)
      → get_elem? p.clients i ≡ some c
      → share c ≡ 1
      → IsSound p
      → IsSound (finish_checkout p i d)
  unfolding finish_checkout
  finish_checkout-IsSound p i c d h k s =
      ground (arith, tally-set share p.clients i (holding d) h, tally-set share p.clients i away h)

  release_reservation-IsSound :
      (p : OdbConnectionPool D) (i : ℕ) (c : Client D)
      → get_elem? p.clients i ≡ some c
      → share c ≡ 1
      → IsSound p
      → IsSound (release_reservation p i)
  unfolding release_reservation
  release_reservation-IsSound p i c h k s = ground (arith, tally-set share p.clients i away h)

  after_create-IsSound :
      (p : OdbConnectionPool D) (i : ℕ) (c : Client D) (made : Option D)
      → get_elem? p.clients i ≡ some c
      → share c ≡ 1
      → IsSound p
      → IsSound (after_create p i made)
  unfolding after_create
  after_create-IsSound p i c none h k s = release_reservation-IsSound p i c h k s
  after_create-IsSound p i c (some d) h k s = finish_checkout-IsSound p i c d h k s

  after_check-IsSound :
      (p : OdbConnectionPool D) (i : ℕ) (d : D) (healthy : Bool)
      → get_elem? p.clients i ≡ some (checking d)
      → IsSound p
      → IsSound (after_check p i d healthy)
  unfolding after_check release_reservation
  after_check-IsSound p i d true h s = finish_checkout-IsSound p i (checking d) d h refl s
  after_check-IsSound p i d false h s =
      ground (arith, tally-set share p.clients i away h, tally-set share p.clients i replacing h)

  return_database-IsSound :
      (p : OdbConnectionPool D) (i : ℕ) (d : D) (now : ℕ)
      → get_elem? p.clients i ≡ some (holding d)
      → IsSound p
      → IsSound (return_database p i d now)
  unfolding return_database
  return_database-IsSound p i d now h s = ground (
    arith,
    tally-set share p.clients i away h,
    length-append p.idle_pool (record { first = d; second = now } ∷ []),
  )

  health_check_round-IsSound :
      (p : OdbConnectionPool D) (now : ℕ) → IsSound p → IsSound (health_check_round p now)
  unfolding health_check_round
  health_check_round-IsSound p now s = ground (arith, length-retain p.config now 0 p.idle_pool)

  advance-IsSound :
      (p : OdbConnectionPool D) (i : ℕ) (c : Client D) (answers : Answers D) (now : ℕ)
      → get_elem? p.clients i ≡ some c
      → IsSound p
      → IsSound (advance p i c answers now)
  unfolding advance
  advance-IsSound p i away answers now h s = ground (arith, tally-set share p.clients i waiting h)
  advance-IsSound p i waiting answers now h s = checkout-IsSound p i p.idle_pool refl h s
  advance-IsSound p i creating answers now h s = after_create-IsSound p i creating _ h refl s
  advance-IsSound p i (checking d) answers now h s = after_check-IsSound p i d answers.healthy h s
  advance-IsSound p i replacing answers now h s = after_create-IsSound p i replacing _ h refl s
  advance-IsSound p i (holding d) answers now h s = return_database-IsSound p i d now h s

  shutdown-IsSound : (p : OdbConnectionPool D) → IsSound p → IsSound (shutdown p)
  unfolding shutdown
  shutdown-IsSound p s = ground arith

  shut_down-IsSound : (p : OdbConnectionPool D) → IsSound p → IsSound (shut_down p)
  unfolding shut_down
  shut_down-IsSound p s = ground arith

  on_lifecycle-IsSound :
      (l : Lifecycle) (p : OdbConnectionPool D) (a : Action D)
      → p.lifecycle ≡ l
      → Fits a
      → IsSound p
      → IsSound (on_lifecycle l p a)
  unfolding on_lifecycle
  on_lifecycle-IsSound free p (inits config attempts thread_ok now) l f s =
      init-IsSound p config attempts thread_ok now l f s
  on_lifecycle-IsSound free p shuts_down l f s = shutdown-IsSound p s
  on_lifecycle-IsSound shutting_down p shut_downs l f s = shut_down-IsSound p s
  on_lifecycle-IsSound _ p _ l f s = s

  advances-IsSound :
      (p : OdbConnectionPool D) (i : ℕ) (answers : Answers D) (now : ℕ)
      → IsSound p
      → IsSound (step p (advances i answers now))
  unfolding step
  advances-IsSound p i answers now s = elim (Option-cases (get_elem? p.clients i)) [
    | inl missing ↦ rw (missing, step) s
    | inr (c, found) ↦ rw (found, step) (advance-IsSound p i c answers now found s)
  ]

  step-IsSound : (p : OdbConnectionPool D) (a : Action D) → Fits a → IsSound p → IsSound (step p a)
  unfolding step
  step-IsSound p (checks now) f s = health_check_round-IsSound p now s
  step-IsSound p (advances i answers now) f s = advances-IsSound p i answers now s
  step-IsSound p (inits config attempts thread_ok now) f s =
      on_lifecycle-IsSound p.lifecycle p (inits config attempts thread_ok now) refl f s
  step-IsSound p shuts_down f s = on_lifecycle-IsSound p.lifecycle p shuts_down refl tt s
  step-IsSound p shut_downs f s = on_lifecycle-IsSound p.lifecycle p shut_downs refl tt s

  pub run-IsSound :
      (p : OdbConnectionPool D) (history : List (Action D))
      → All Fits history
      → IsSound p
      → IsSound (run p history)
  unfolding run
  run-IsSound p [] f s = s
  run-IsSound p (a ∷ rest) f s = run-IsSound (step p a) rest f.1 (step-IsSound p a f.0 s)

  fresh-IsSound : (clients : List (Client D)) → tally share clients ≡ 0 → IsSound (fresh clients)
  unfolding fresh
  fresh-IsSound clients h = ground arith

  -- From before the first `Init`, when no thread has a connection, any sequence of `Init`,
  -- `Shutdown`, health checks and steps of threads leaves a pool that counts exactly the threads
  -- with a connection (or about to make one), whose connections, these and the idle ones together,
  -- are at most `max_connections`, and that keeps no idle one once it is shut down.
  pub run-bounds :
      (clients : List (Client D)) (history : List (Action D))
      → tally share clients ≡ 0
      → All Fits history
      → let p = run (fresh clients) history in
        (p.active_count ≡ tally share p.clients)
        × (p.active_count + length p.idle_pool ≤ p.config.max_connections)
        × (p.lifecycle ≡ free → p.running ≡ false → p.idle_pool ≡ [])
  run-bounds clients history h f =
      let s = run-IsSound (fresh clients) history f (fresh-IsSound clients h) in
      (s.exact, s.bounded, s.when_free)

  checkout_blocked :
      (p : OdbConnectionPool D) (i : ℕ) (idle : List (IdleDatabase D))
      → p.idle_pool ≡ idle
      → get_elem? p.clients i ≡ some waiting
      → IsSound p
      → get_elem? (checkout p i).clients i ≡ some waiting
      → (p.running ≡ true) × (tally share p.clients ≡ p.config.max_connections)
  unfolding checkout
  checkout_blocked p i [] o h s w =
      ground (arith, get_elem?-set p.clients i away h, get_elem?-set p.clients i creating h)
  checkout_blocked p i (item ∷ rest) o h s w =
      ground
        (arith, get_elem?-set p.clients i away h, get_elem?-set p.clients i (checking item.first) h)

  blocked :
      (p : OdbConnectionPool D) (i : ℕ) (answers : Answers D) (now : ℕ)
      → get_elem? p.clients i ≡ some waiting
      → IsSound p
      → get_elem? (step p (advances i answers now)).clients i ≡ some waiting
      → (p.running ≡ true) × (tally share p.clients ≡ p.config.max_connections)
  unfolding step advance
  blocked p i answers now h s w = checkout_blocked p i p.idle_pool refl h s (rw (h, step) at w)

  -- After any such history, a thread that waits in `GetDatabase` and still waits after its next
  -- look at the pool has cause: the pool runs, and `max_connections` threads have a connection (or
  -- are about to make one).
  pub waits_only_when_exhausted :
      (clients : List (Client D)) (history : List (Action D)) (i : ℕ) (answers : Answers D)
      (now : ℕ)
      → tally share clients ≡ 0
      → All Fits history
      → let p = run (fresh clients) history in
        get_elem? p.clients i ≡ some waiting
        → get_elem? (step p (advances i answers now)).clients i ≡ some waiting
        → (p.running ≡ true) × (tally share p.clients ≡ p.config.max_connections)
  waits_only_when_exhausted clients history i answers now h f w still =
      blocked (run (fresh clients) history) i answers now w
        (run-IsSound (fresh clients) history f (fresh-IsSound clients h)) still
