-- ===== src/LoadBlancer/Create.antt =====
-- coro_apps/coro_io/load_blancer.hpp: `create` and its errors.
use Prim.Native.String.{String}
use async_framework.Prelude.{
  ℕ, suc, ◌<◌, ◌≡◌, ◌≢◌, refl, sym, ap, ◌⊎◌, inl, inr, true, false, ◌||◌, List, [], ◌∷◌, ◌==◌,
  Bool-cases, length, arith,
}
use async_framework.Prelude.Outcome.{returns, throws, invalid_argument}
use async_framework.LoadBlancer.{
  LoadBlanceAlgorithm, rr, wrr, random, LoadBlancer, Worker, wrr_worker, make_worker, pools_at,
  with_worker, create,
}
use async_framework.LoadBlancer.Wrr.{new_wrr}
use async_framework.LoadBlancer.Wrr.Ready.{new_wrr-IsReady}
use async_framework.LoadBlancer.Retry.{IsWorker, IsValid}

make_worker-IsWorker :
    (lba : LoadBlanceAlgorithm) (hosts : ℕ) (weights : List ℕ)
    → 0 < hosts
    → (lba ≡ wrr → hosts ≡ length weights)
    → (w : Worker) × (make_worker lba hosts weights ≡ returns w) × IsWorker hosts w
unfolding make_worker new_wrr
make_worker-IsWorker rr hosts weights pos h = (_, refl, omega arith)
make_worker-IsWorker wrr hosts weights pos h =
    let size = h refl in
    let some_host : (hosts == 0 || length weights == 0) ≡ false = ground (arith, size) in
    let equal : (hosts == length weights) ≡ true = ground (arith, size) in
    (
      wrr_worker (new_wrr weights),
      rw (some_host, equal) refl,
      (new_wrr-IsReady weights (omega (arith, size)), sym size),
    )
make_worker-IsWorker random hosts weights pos h = (_, refl, record {})

make_worker-refused :
    (hosts : ℕ) (weights : List ℕ)
    → (hosts ≡ 0) ⊎ (hosts ≢ length weights)
    → (message : String) × (make_worker wrr hosts weights ≡ throws (invalid_argument message))
unfolding make_worker
make_worker-refused hosts weights h = elim (Bool-cases (hosts == 0 || length weights == 0)) [
  | inl lacking ↦ ("host/weight list is empty!", rw lacking refl)
  | inr present ↦
      let other : (hosts == length weights) ≡ false = ground (arith, h, present) in
      ("hosts count is not equal with weights!", rw (present, other) refl)
]

module _ {ℓ} {P : Type ℓ} where
  length-pools_at :
      (at : String → P) (hosts : List String) → length (pools_at at hosts) ≡ length hosts
  length-pools_at at [] = refl
  length-pools_at at (host ∷ hosts) = ap suc (length-pools_at at hosts)

  -- With a host, and with a weight for each host if they are weighted, `create` makes a load
  -- balancer with a pool for each host, that can serve requests.
  pub create-IsValid :
      (at : String → P) (hosts : List String) (lba : LoadBlanceAlgorithm) (weights : List ℕ)
      → 0 < length hosts
      → (lba ≡ wrr → length hosts ≡ length weights)
      → (lb : LoadBlancer P) × (create at hosts lba weights ≡ returns lb)
        × IsValid lb
        × (length lb.client_pools ≡ length hosts)
  unfolding create
  create-IsValid at hosts lba weights pos h =
      let (w, e, ok) = make_worker-IsWorker lba (length hosts) weights pos h in
      let size = length-pools_at at hosts in
      (
        _,
        ap (with_worker lba (pools_at at hosts)) e,
        record { nonempty = omega (arith, size); worker = rw size ok },
        size,
      )

  -- A weighted load balancer without a host or a weight, or with another number of weights than of
  -- hosts, is not made: `create` throws `invalid_argument`.
  pub create-refused :
      (at : String → P) (hosts : List String) (weights : List ℕ)
      → (length hosts ≡ 0) ⊎ (length hosts ≢ length weights)
      → (message : String) × (create at hosts wrr weights ≡ throws (invalid_argument message))
  unfolding create
  create-refused at hosts weights h =
      let (message, e) = make_worker-refused (length hosts) weights h in
      (message, ap (with_worker wrr (pools_at at hosts)) e)
