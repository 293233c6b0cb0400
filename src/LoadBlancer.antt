-- ===== src/LoadBlancer.antt =====
-- coro_apps/coro_io/load_blancer.hpp: the choice of a client pool among the hosts of a load
-- balancer. `P` stands for the client pools, which client_pool.hpp makes; whether one is alive when
-- it is asked, and what `uniform_int_distribution` draws, are arguments.
pub mod Wrr
pub mod RoundRobin
pub mod Retry
pub mod Create
mod Tests
use async_framework.Prelude.{
  ℕ, zero, suc, ◌+◌, ◌*◌, ◌%◌, ◌^◌, Bool, true, false, not, ◌||◌, Option, none, some, List, [], ◌∷◌,
  ltb, ◌==◌, if◌then◌else◌, length,
}
use async_framework.Prelude.Outcome.{Outcome, returns, throws, faults, invalid_argument}
use Prim.Native.String.{String}
use Wrr.{WrrLoadBlancer, new_wrr, select}

-- `load_blance_algorithm`
pub data LoadBlanceAlgorithm : Type 0 where
  rr wrr random : LoadBlanceAlgorithm

-- lb_worker; `RRLoadBlancer` holds its index, of 32 bits.
pub data Worker : Type 0 where
  rr_worker : ℕ → Worker
  wrr_worker : WrrLoadBlancer → Worker
  random_worker : Worker

pub record LoadBlancer {ℓ} (P : Type ℓ) : Type ℓ where
  pub lba : LoadBlanceAlgorithm
  pub lb_worker : Worker
  pub client_pools : List P

-- `init` after the pools are made.
abbrev pub make_worker : LoadBlanceAlgorithm → ℕ → List ℕ → Outcome Worker
unfolding new_wrr
make_worker rr hosts weights = returns (rr_worker 0)
make_worker wrr hosts weights =
    if hosts == 0 || length weights == 0
    then throws (invalid_argument "host/weight list is empty!")
    else if not (hosts == length weights)
    then throws (invalid_argument "hosts count is not equal with weights!")
    else returns (wrr_worker (new_wrr weights))
make_worker random hosts weights = returns random_worker

module _ {ℓ} {P : Type ℓ} where
  unfoldable pub size : LoadBlancer P → ℕ
  size lb = length lb.client_pools

  abbrev pub wrr_worked : LoadBlancer P → Option (WrrLoadBlancer × ℕ) → Option (LoadBlancer P × ℕ)
  wrr_worked lb none = none
  wrr_worked lb (some (w, selected)) =
      some (record lb { lb_worker = wrr_worker w }, selected % length lb.client_pools)

  abbrev pub work_by : Worker → ℕ → LoadBlancer P → Option (LoadBlancer P × ℕ)
  unfolding select
  work_by (rr_worker i) drawn lb =
      some (record lb { lb_worker = rr_worker ((i + 1) % 2 ^ 32) }, i % length lb.client_pools)
  work_by (wrr_worker w) drawn lb = wrr_worked lb (select w)
  work_by random_worker drawn lb = some (record lb { lb_worker = random_worker }, drawn)

  -- `operator()` of the worker: the index of a pool. `none` stands for a loop of `select` that does
  -- not end. `drawn` is below the number of the pools.
  unfoldable pub work : ℕ → LoadBlancer P → Option (LoadBlancer P × ℕ)
  unfolding work_by
  work drawn lb = work_by lb.lb_worker drawn lb

  -- The loop of `send_request`, with the rounds left after this one: the pool of the last round.
  -- `alive n i` is what pool `i` answers, and `draws n` what is drawn, with `n` rounds left.
  -- `others n` is what other callers have done to the load balancer before the round with `n` left.
  unfoldable pub choose :
      (ℕ → LoadBlancer P → LoadBlancer P)
      → (ℕ → ℕ → Bool)
      → (ℕ → ℕ)
      → ℕ
      → LoadBlancer P
      → Option (LoadBlancer P × ℕ)
  unfolding work
  choose others alive draws zero lb = work (draws 0) lb
  choose others alive draws (suc left) lb = elim (work (draws (suc left)) lb) [
    | none ↦ none
    | some r ↦
        let rest = choose others alive draws left (others left r.0) in
        if alive (suc left) r.1 then some r else rest
  ]

  -- `send_request` up to the request itself: a single pool is not asked whether it is alive.
  unfoldable pub send_request :
      (ℕ → LoadBlancer P → LoadBlancer P)
      → (ℕ → ℕ → Bool)
      → (ℕ → ℕ)
      → LoadBlancer P
      → Outcome (Option (LoadBlancer P × ℕ))
  unfolding size choose
  send_request others alive draws lb =
      if ltb 1 (size lb)
      then returns (choose others alive draws (size lb * 2) lb)
      else if size lb == 0
      then faults
      else returns (some (lb, 0))

  abbrev pub pools_at : (String → P) → List String → List P
  pools_at client_pools_at [] = []
  pools_at client_pools_at (host ∷ hosts) = client_pools_at host ∷ pools_at client_pools_at hosts

  abbrev pub with_worker : LoadBlanceAlgorithm → List P → Outcome Worker → Outcome (LoadBlancer P)
  with_worker lba pools (returns w) =
      returns (record { lba = lba; lb_worker = w; client_pools = pools })
  with_worker lba pools (throws e) = throws e
  with_worker lba pools faults = faults

  -- `client_pools.at(host, …)` is the first argument.
  unfoldable pub create :
      (String → P) → List String → LoadBlanceAlgorithm → List ℕ → Outcome (LoadBlancer P)
  unfolding make_worker
  create client_pools_at hosts lba weights =
      with_worker lba (pools_at client_pools_at hosts) (make_worker lba (length hosts) weights)
