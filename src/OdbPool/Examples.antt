-- ===== src/OdbPool/Examples.antt =====
-- connection_pool.hpp: a pool of at most two connections, with three threads.
use online_judge.Base.{
  ℕ, ◌+◌, ◌%◌, ◌≤◌, ◌≡◌, refl, ◌⊎◌, min, List, [], ◌∷◌, some, true, false, length, tally, arith,
  map,
}
use online_judge.OdbPool.{
  OdbConnectionPool, OdbPoolConfig, IdleDatabase, Client, Action, Answers, size_mod, free, away,
  waiting, holding, inits, advances, run, step, fresh, health_check_round,
}
use online_judge.OdbPool.Clients.{share}
use online_judge.OdbPool.Invariant.{run-bounds, waits_only_when_exhausted}
use online_judge.OdbPool.Retention.{is_young, health_check_keeps}
use online_judge.OdbPool.Transaction.{
  run_uses, commits, rollbacks, ends, destroy, scoped_transaction, transaction_ends_once,
}

abbrev two : OdbPoolConfig
two = record { min_connections = 1; max_connections = 2; idle_timeout_s = 300 }

abbrev threads : List (Client ℕ)
threads = away ∷ away ∷ away ∷ []

abbrev answers : Answers ℕ
answers = record { made = some 8; setup_ok = true; healthy = true }

-- The first thread gets the idle connection, the second makes one, the third has to wait.
abbrev busy : List (Action ℕ)
busy =
    inits two (some 7 ∷ []) true 0
    ∷ advances 0 answers 1
    ∷ advances 0 answers 1
    ∷ advances 0 answers 1
    ∷ advances 1 answers 2
    ∷ advances 1 answers 2
    ∷ advances 1 answers 2
    ∷ advances 2 answers 3
    ∷ []

busy_clients : (run (fresh threads) busy).clients ≡ holding 7 ∷ holding 8 ∷ waiting ∷ []
unfolding run fresh step
busy_clients = refl

run-bounds_example :
    let p = run (fresh threads) busy in
    (p.active_count ≡ tally share p.clients)
    × (p.active_count + length p.idle_pool ≤ p.config.max_connections)
    × (p.lifecycle ≡ free → p.running ≡ false → p.idle_pool ≡ [])
run-bounds_example = run-bounds threads busy refl (ground arith)

waits_only_when_exhausted_example :
    let p = run (fresh threads) busy in
    (p.running ≡ true) × (tally share p.clients ≡ p.config.max_connections)
unfolding run fresh step
waits_only_when_exhausted_example =
    waits_only_when_exhausted threads busy 2 answers 4 refl (ground arith) refl refl

abbrev idle : OdbConnectionPool ℕ
idle = record {
  config = two;
  idle_pool =
      record { first = 7; second = 0 }
      ∷ record { first = 8; second = 0 }
      ∷ record { first = 9; second = 900 }
      ∷ [];
  active_count = 0;
  running = true;
  lifecycle = free;
  clients = threads;
}

kept :
    map (λ (item : IdleDatabase ℕ). item.first) (health_check_round idle 1000).idle_pool
    ≡ 7 ∷ 9 ∷ []
unfolding health_check_round
kept = refl

health_check_keeps_example :
    let kept = (health_check_round idle 1000).idle_pool in
    (min 1 3 ≤ length kept)
    × (tally (is_young two 1000) kept ≡ tally (is_young two 1000) idle.idle_pool)
    × (tally (λ item. item.first) kept ≤ tally (λ item. item.first) idle.idle_pool)
health_check_keeps_example = health_check_keeps idle 1000 (λ item. item.first)

transaction_ends_once_example :
    let d = destroy (run_uses (scoped_transaction 3) (commits false ∷ rollbacks true ∷ [])) true in
    ((tally ends d.calls ≡ 1) × (d.failures ≡ 3))
    ⊎ ((tally ends d.calls ≡ 0) × (d.failures ≡ (3 + 1) % size_mod))
transaction_ends_once_example = transaction_ends_once 3 (commits false ∷ rollbacks true ∷ []) true
