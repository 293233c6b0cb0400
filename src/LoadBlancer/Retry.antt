-- ===== src/LoadBlancer/Retry.antt =====
-- coro_apps/coro_io/load_blancer.hpp: the loop of `send_request`.
use async_framework.Prelude.{
  ℕ, zero, suc, ◌*◌, ◌^◌, ◌<◌, ◌≡◌, refl, ap, ◌∙◌, Bool, false, some, ltb, ◌==◌, Bool-cases, inl,
  inr, length, arith,
}
use async_framework.Prelude.Outcome.{returns}
use async_framework.LoadBlancer.{
  LoadBlancer, Worker, rr_worker, wrr_worker, random_worker, size, work, work_by, wrr_worked,
  choose, send_request,
}
use async_framework.LoadBlancer.Wrr.Ready.{IsReady}
use async_framework.LoadBlancer.Wrr.Ends.{select-IsPick}

-- A weighted worker has a weight for each of the pools.
abbrev pub IsWorker : ℕ → Worker → Type 0
IsWorker n (rr_worker i) = i < 2 ^ 32
IsWorker n (wrr_worker w) = IsReady w × (length w.weights ≡ n)
IsWorker n random_worker = Unit {0}

module _ {ℓ} {P : Type ℓ} where
  pub record IsValid (lb : LoadBlancer P) : Type ℓ where
    pub nonempty : 0 < length lb.client_pools
    pub worker : IsWorker (length lb.client_pools) lb.lb_worker

  -- The same pools, and a pool among them.
  pub record Picks (lb : LoadBlancer P) (r : LoadBlancer P × ℕ) : Type ℓ where
    pub valid : IsValid r.0
    pub same : r.0.client_pools ≡ lb.client_pools
    pub within : r.1 < length lb.client_pools

  work_by-Picks :
      (drawn : ℕ) (lb : LoadBlancer P) (worker : Worker)
      → 0 < length lb.client_pools
      → IsWorker (length lb.client_pools) worker
      → drawn < length lb.client_pools
      → (r : LoadBlancer P × ℕ) × (work_by worker drawn lb ≡ some r) × Picks lb r
  unfolding work_by
  work_by-Picks drawn lb (rr_worker i) pos ok h = (
    _,
    refl,
    record {
      valid = record { nonempty = pos; worker = omega arith };
      same = refl;
      within = omega arith;
    },
  )
  work_by-Picks drawn lb (wrr_worker w) pos (ready, size) h =
      let (r, e, pick) = select-IsPick w ready in
      (
        _,
        ap (wrr_worked lb) e,
        record {
          valid = record { nonempty = pos; worker = (pick.ready, rw pick.same size) };
          same = refl;
          within = omega arith;
        },
      )
  work_by-Picks drawn lb random_worker pos ok h = (
    _,
    refl,
    record { valid = record { nonempty = pos; worker = record {} }; same = refl; within = h },
  )

  work-Picks :
      (drawn : ℕ) (lb : LoadBlancer P)
      → IsValid lb
      → drawn < length lb.client_pools
      → (r : LoadBlancer P × ℕ) × (work drawn lb ≡ some r) × Picks lb r
  unfolding work
  work-Picks drawn lb valid = work_by-Picks drawn lb lb.lb_worker valid.nonempty valid.worker

  -- What other callers do between two rounds keeps the pools.
  abbrev pub IsSteady : (ℕ → LoadBlancer P → LoadBlancer P) → Type ℓ
  IsSteady others =
      (k : ℕ) (lb : LoadBlancer P)
      → IsValid lb
      → IsValid (others k lb) × ((others k lb).client_pools ≡ lb.client_pools)

  choose-Picks :
      (others : ℕ → LoadBlancer P → LoadBlancer P) (alive : ℕ → ℕ → Bool) (draws : ℕ → ℕ) (left : ℕ)
      (lb : LoadBlancer P)
      → IsSteady others
      → IsValid lb
      → ((k : ℕ) → draws k < length lb.client_pools)
      → (r : LoadBlancer P × ℕ) × (choose others alive draws left lb ≡ some r) × Picks lb r
  unfolding choose
  choose-Picks others alive draws zero lb steady valid drawn =
      work-Picks (draws 0) lb valid (drawn 0)
  choose-Picks others alive draws (suc left) lb steady valid drawn =
      let (r, e, picks) = work-Picks (draws (suc left)) lb valid (drawn (suc left)) in
      let (still, same) = steady left r.0 picks.valid in
      let unchanged : (others left r.0).client_pools ≡ lb.client_pools = same ∙ picks.same in
      let (r', e', picks') =
        choose-Picks others alive draws left (others left r.0) steady still (rw unchanged drawn) in
      elim (Bool-cases (alive (suc left) r.1)) [
        | inl up ↦ (r, rw (choose, e, up) refl, picks)
        | inr down ↦ (
          r',
          rw (choose, e, down) e',
          record {
            valid = picks'.valid;
            same = picks'.same ∙ unchanged;
            within = rw unchanged at picks'.within;
          },
        )
      ]

  -- Of a load balancer with a pool, and a worker that has a weight for each pool if it has weights, where
  -- what is drawn at random is the index of a pool: the choice that `send_request` makes before it hands
  -- the request on comes to an end with one of the pools, by every algorithm, whichever of the pools
  -- are alive and whatever other callers do between its rounds that keeps this and the pools, and
  -- leaves a load balancer of which the same is true.
  pub send_request-Picks :
      (others : ℕ → LoadBlancer P → LoadBlancer P) (alive : ℕ → ℕ → Bool) (draws : ℕ → ℕ)
      (lb : LoadBlancer P)
      → IsSteady others
      → IsValid lb
      → ((k : ℕ) → draws k < length lb.client_pools)
      → (r : LoadBlancer P × ℕ) × (send_request others alive draws lb ≡ returns (some r))
        × Picks lb r
  unfolding send_request size
  send_request-Picks others alive draws lb steady valid drawn =
      elim (Bool-cases (ltb 1 (size lb))) [
        | inl several ↦
            let (r, e, picks) =
              choose-Picks others alive draws (size lb * 2) lb steady valid drawn in
            (r, rw (send_request, several, e) refl, picks)
        | inr single ↦
            let one : (size lb == 0) ≡ false = ground (arith, valid.nonempty) in
            (
              (lb, 0),
              rw (send_request, single, one) refl,
              record { valid = valid; same = refl; within = valid.nonempty },
            )
      ]
