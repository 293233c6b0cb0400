-- ===== src/LoadBlancer/Tests.antt =====
-- coro_apps/coro_io/load_blancer.hpp: runs with three hosts; a pool is its number.
use async_framework.Prelude.{
  ℕ, ◌≡◌, refl, true, some, List, [], ◌∷◌, ◌==◌, length, get_or, ◌/◌, ◌+◌, ◌%◌, ◌^◌, arith,
}
use async_framework.Prelude.Outcome.{returns}
use async_framework.LoadBlancer.{
  LoadBlancer, rr, Worker, rr_worker, wrr_worker, random_worker, size, send_request,
}
use async_framework.LoadBlancer.Wrr.{
  WrrLoadBlancer, get_max_weight_gcd, get_max_weight, new_wrr, select,
}
use async_framework.LoadBlancer.Wrr.Gcd.{gcd}
use async_framework.LoadBlancer.Wrr.Ready.{new_wrr-IsReady}
use async_framework.LoadBlancer.Wrr.Ends.{IsPick, select-IsPick}
use async_framework.LoadBlancer.Wrr.Passes.{count}
use async_framework.LoadBlancer.Wrr.Calls.{calls}
use async_framework.LoadBlancer.Wrr.Shares.{IsGreatestDivisor, calls-shares}
use async_framework.LoadBlancer.Retry.{IsValid, IsWorker, IsSteady, Picks, send_request-Picks}
use async_framework.LoadBlancer.RoundRobin.{rr-alive}

abbrev weights : List ℕ
weights = 4 ∷ 2 ∷ 6 ∷ []

first_calls : calls 6 (new_wrr weights) ≡ some (2 ∷ 0 ∷ 2 ∷ 0 ∷ 1 ∷ 2 ∷ [])
unfolding calls new_wrr get_max_weight gcd
first_calls = refl

gcd_runs : get_max_weight_gcd weights ≡ 2
unfolding get_max_weight_gcd gcd
gcd_runs = refl

abbrev three_pools : LoadBlancer ℕ
three_pools = record { lba = rr; lb_worker = rr_worker 7; client_pools = 10 ∷ 11 ∷ 12 ∷ [] }

three_pools-IsValid : IsValid three_pools
three_pools-IsValid = record { nonempty = omega arith; worker = omega arith }

-- Another caller takes an index after each round.
abbrev advanced : ℕ → LoadBlancer ℕ → LoadBlancer ℕ
advanced k lb = record lb {
  lb_worker = elim lb.lb_worker [ rr_worker i ↦ rr_worker ((i + 1) % 2 ^ 32) | w ↦ w ];
}

advanced-IsSteady : IsSteady advanced
advanced-IsSteady k lb valid = go lb.lb_worker valid.worker
  where
    go :
        (w : Worker)
        → IsWorker (length lb.client_pools) w
        → IsValid (advanced k (record lb { lb_worker = w })) × (lb.client_pools ≡ lb.client_pools)
    go (rr_worker i) ok = (record { nonempty = valid.nonempty; worker = omega arith }, refl)
    go (wrr_worker w) ok = (record { nonempty = valid.nonempty; worker = ok }, refl)
    go random_worker ok = (record { nonempty = valid.nonempty; worker = ok }, refl)

select-IsPick_example :
    (r : WrrLoadBlancer × ℕ) × (select (new_wrr weights) ≡ some r)
    × IsPick (new_wrr weights).weights r
select-IsPick_example = select-IsPick (new_wrr weights) (new_wrr-IsReady weights (omega arith))

calls-shares_example :
    (g : ℕ) × IsGreatestDivisor weights g
    × (picks : List ℕ) × (calls (length picks) (new_wrr weights) ≡ some picks)
    × ((t : ℕ) → count t picks ≡ get_or weights t 0 / g)
unfolding get_max_weight
calls-shares_example = calls-shares weights (omega arith)

send_request-Picks_example :
    (r : LoadBlancer ℕ × ℕ) × (send_request advanced (λ n i. i == 0) (λ n. 1) three_pools
      ≡ returns (some r))
    × Picks three_pools r
send_request-Picks_example =
    send_request-Picks advanced (λ n i. i == 0) (λ n. 1) three_pools advanced-IsSteady
      three_pools-IsValid (λ k. omega arith)

rr-alive_example :
    (r : LoadBlancer ℕ × ℕ) × (send_request (λ k b. b) (λ k i. i == 0) (λ n. 1) three_pools
      ≡ returns (some r))
    × ((r.1 == 0) ≡ true)
unfolding size
rr-alive_example =
    rr-alive (λ i. i == 0) (λ n. 1) 7 0 three_pools refl (omega arith) (omega arith) refl
