-- ===== src/OdbPool.antt =====
-- The database connection pool: src/comm/odb/connection_pool.hpp.
--
-- Each lock scope of `_mtx` is one atomic action; a history is any sequence of actions of any
-- threads. A database is a value of a type `D`; what the factory, the setup and the health check
-- answer is given to the action that calls them. Times are seconds of the steady clock. A thread
-- that calls `GetDatabase` and later gives its database back by `ReturnDatabase`, as `ScopedDB`
-- does, is a `Client`. `size_t` is 64 bits wide.
mod Clients
pub mod Invariant
pub mod Retention
pub mod Transaction
mod Examples
use online_judge.Base.{
  ℕ, zero, suc, ◌+◌, ◌-◌, ◌%◌, List, [], ◌∷◌, ◌++◌, Option, none, some, Bool, true, false, not,
  ◌&&◌, ◌||◌, ltb, ◌==◌, length, is_empty, get_elem?, set, if◌then◌else◌,
}

abbrev pub size_mod : ℕ
size_mod = 18446744073709551616

-- `--_active_count`.
abbrev pub pred : ℕ → ℕ
pred n = (n + size_mod - 1) % size_mod

pub record OdbPoolConfig : Type 0 where
  pub min_connections : ℕ
  pub max_connections : ℕ
  pub idle_timeout_s : ℕ

-- Where a thread stands: outside the pool, in the wait of `GetDatabase`, in `CreateDatabase` with a
-- reservation, in the health check of an idle database, in the replacement of one that failed it,
-- or with a database of its own.
pub data Client (D : Type 0) : Type 0 where
  away : Client D
  waiting : Client D
  creating : Client D
  checking : D → Client D
  replacing : Client D
  holding : D → Client D

-- Who holds `_lifecycle_mtx`.
pub data Lifecycle : Type 0 where
  free shutting_down : Lifecycle

pub record IdleDatabase (D : Type 0) : Type 0 where
  pub first : D
  pub second : ℕ

pub record OdbConnectionPool (D : Type 0) : Type 0 where
  pub config : OdbPoolConfig
  pub idle_pool : List (IdleDatabase D)
  pub active_count : ℕ
  pub running : Bool
  pub lifecycle : Lifecycle
  pub clients : List (Client D)

pub data InitResult : Type 0 where
  done invalid_argument logic_error thread_error : InitResult

module _ {D : Type 0} where
  -- `CreateDatabase`: a factory that throws or gives null, and a setup that throws, give nothing.
  pub create_database : Option D → Bool → Option D
  create_database made setup_ok = if setup_ok then made else none

  -- The loop of `Init`: its `min_connections` rounds end at the first failure. Attempts that are
  -- not given fail.
  pub fill : ℕ → List (Option D) → ℕ → List (IdleDatabase D)
  fill zero attempts now = []
  fill (suc n) [] now = []
  fill (suc n) (none ∷ attempts) now = []
  fill (suc n) (some d ∷ attempts) now = (record { first = d; second = now }) ∷ fill n attempts now

  pub init :
      OdbConnectionPool D
      → OdbPoolConfig
      → List (Option D)
      → (thread_ok : Bool) → ℕ
      → OdbConnectionPool D × InitResult
  unfolding fill
  init p config attempts thread_ok now =
      if config.max_connections == 0 || ltb config.max_connections config.min_connections
      then (p, invalid_argument)
      else if p.running
      then (p, done)
      else if not (p.active_count == 0)
      then (p, logic_error)
      else if thread_ok
      then (
        record p {
          config = config;
          idle_pool = p.idle_pool ++ fill config.min_connections attempts now;
          running = true;
        },
        done,
      )
      else (record p { config = config; idle_pool = []; running = false }, thread_error)

  -- The first lock scope of `GetDatabase`, for a thread that waits in it.
  pub checkout : OdbConnectionPool D → ℕ → OdbConnectionPool D
  checkout p i =
      if not p.running then record p { clients = set p.clients i away } else elim p.idle_pool [
        | [] ↦
            if ltb p.active_count p.config.max_connections
            then record p {
              active_count = (p.active_count + 1) % size_mod;
              clients = set p.clients i creating;
            }
            else p
        | item ∷ rest ↦ record p {
          idle_pool = rest;
          active_count = (p.active_count + 1) % size_mod;
          clients = set p.clients i (checking item.first);
        }
      ]

  pub finish_checkout : OdbConnectionPool D → ℕ → D → OdbConnectionPool D
  finish_checkout p i database =
      if p.running
      then record p { clients = set p.clients i (holding database) }
      else record p { active_count = pred p.active_count; clients = set p.clients i away }

  -- The reservation is given back, and the exception leaves `GetDatabase`.
  pub release_reservation : OdbConnectionPool D → ℕ → OdbConnectionPool D
  release_reservation p i = record p {
    active_count = pred p.active_count;
    clients = set p.clients i away;
  }

  -- After `CreateDatabase`, for a new database and for a replacement.
  pub after_create : OdbConnectionPool D → ℕ → Option D → OdbConnectionPool D
  unfolding finish_checkout release_reservation
  after_create p i none = release_reservation p i
  after_create p i (some database) = finish_checkout p i database

  -- After the health check of an idle database.
  pub after_check : OdbConnectionPool D → ℕ → D → (healthy : Bool) → OdbConnectionPool D
  unfolding finish_checkout release_reservation
  after_check p i database healthy =
      if healthy
      then finish_checkout p i database
      else if not p.running
      then release_reservation p i
      else record p { clients = set p.clients i replacing }

  -- `ReturnDatabase` by a thread that holds a database.
  pub return_database : OdbConnectionPool D → ℕ → D → ℕ → OdbConnectionPool D
  return_database p i database now =
      if p.active_count == 0 then record p { clients = set p.clients i away } else record p {
        active_count = pred p.active_count;
        idle_pool =
            if p.running
            then p.idle_pool ++ (record { first = database; second = now }) ∷ []
            else p.idle_pool;
        clients = set p.clients i away;
      }

  -- `Shutdown` up to the join, and after it.
  pub shutdown : OdbConnectionPool D → OdbConnectionPool D
  shutdown p = record p { running = false; lifecycle = shutting_down }

  pub shut_down : OdbConnectionPool D → OdbConnectionPool D
  shut_down p = record p { idle_pool = []; lifecycle = free }

  -- The inner loop of `HealthCheckLoop`; `kept` is `retained.size()`.
  pub retain : OdbPoolConfig → ℕ → ℕ → List (IdleDatabase D) → List (IdleDatabase D)
  retain c now kept [] = []
  retain c now kept (item ∷ rest) =
      elim (ltb kept c.min_connections || ltb (now - item.second) c.idle_timeout_s) [
        | true ↦ item ∷ retain c now (suc kept) rest
        | false ↦ retain c now kept rest
      ]

  -- A round of `HealthCheckLoop`.
  pub health_check_round : OdbConnectionPool D → ℕ → OdbConnectionPool D
  unfolding retain
  health_check_round p now =
      if p.running then record p { idle_pool = retain p.config now 0 p.idle_pool } else p

-- What the environment answers to the thread: `made` and `setup_ok` by the factory and the setup,
-- `healthy` by the health check.
pub record Answers (D : Type 0) : Type 0 where
  pub made : Option D
  pub setup_ok : Bool
  pub healthy : Bool

pub data Action (D : Type 0) : Type 0 where
  inits : OdbPoolConfig → List (Option D) → Bool → ℕ → Action D
  shuts_down shut_downs : Action D
  checks : ℕ → Action D
  advances : ℕ → Answers D → ℕ → Action D

module _ {D : Type 0} where
  -- What thread `i` does next, if it stands at `c`.
  pub advance : OdbConnectionPool D → ℕ → Client D → Answers D → ℕ → OdbConnectionPool D
  unfolding checkout after_create after_check return_database create_database
  advance p i away answers now = record p { clients = set p.clients i waiting }
  advance p i waiting answers now = checkout p i
  advance p i creating answers now =
      after_create p i (create_database answers.made answers.setup_ok)
  advance p i (checking d) answers now = after_check p i d answers.healthy
  advance p i replacing answers now =
      after_create p i (create_database answers.made answers.setup_ok)
  advance p i (holding d) answers now = return_database p i d now

  -- `Init` and `Shutdown` wait for `_lifecycle_mtx`.
  on_lifecycle : Lifecycle → OdbConnectionPool D → Action D → OdbConnectionPool D
  unfolding init shutdown shut_down
  on_lifecycle free p (inits config attempts thread_ok now) =
      (init p config attempts thread_ok now).0
  on_lifecycle free p shuts_down = shutdown p
  on_lifecycle shutting_down p shut_downs = shut_down p
  on_lifecycle l p a = p

  pub step : OdbConnectionPool D → Action D → OdbConnectionPool D
  unfolding on_lifecycle advance health_check_round
  step p (checks now) = health_check_round p now
  step p (advances i answers now) = elim (get_elem? p.clients i) [
    | none ↦ p
    | some c ↦ advance p i c answers now
  ]
  step p a = on_lifecycle p.lifecycle p a

  pub run : OdbConnectionPool D → List (Action D) → OdbConnectionPool D
  run p [] = p
  run p (a ∷ rest) = run (step p a) rest

  -- A pool before `Init`, with `n` threads.
  pub fresh : List (Client D) → OdbConnectionPool D
  fresh clients = record {
    config = record { min_connections = 5; max_connections = 50; idle_timeout_s = 300 };
    idle_pool = [];
    active_count = 0;
    running = false;
    lifecycle = free;
    clients = clients;
  }
