-- ===== src/ClientPool/Detect.antt =====
-- coro_apps/coro_io/client_pool.hpp: the loop of `alive_detect`, from its first attempt to connect.
use async_framework.Prelude.{
  ℕ, zero, suc, ◌+◌, ◌*◌, ◌<◌, ◌≡◌, refl, inl, inr, Bool-cases, Bool, true, false, not, Option,
  none, some, if◌then◌else◌, arith,
}
use async_framework.Prelude.Outcome.{Outcome, returns, faults}
use async_framework.ClientQueue.Interface.{ConcurrentQueue}
use async_framework.ClientPool.{ClientPool, Network, collect_free_client}
use async_framework.ClientPool.Reconnect.{attempt}

-- `others (2 * n)` is what other coroutines do to the pool during attempt `n`, `others (2 * n + 1)`
-- during the wait after it.
unfoldable pub detect_loop {ℓ} :
    {C Q : Type ℓ}
    → ConcurrentQueue C Q
    → ℕ
    → Network C
    → (ℕ → ClientPool Q → ClientPool Q)
    → ℕ
    → C
    → ClientPool Q
    → Option (Outcome (ClientPool Q))
unfolding collect_free_client
detect_loop api zero net others n client pool = none
detect_loop api (suc fuel) net others n client pool =
    let (client', ok) = net.connect n client in
    let here = others (2 * n) pool in
    let later = others (2 * n + 1) here in
    let rest = detect_loop api fuel net others (suc n) client' later in
    if ok
    then some (returns (record (collect_free_client api net client' here) { is_alive = true }))
    else if here.is_alive
    then some (returns here)
    else if not (net.kept (suc n))
    then some faults
    else if later.is_alive
    then some (returns later)
    else rest

-- The loop has ended, with a pool that is alive.
abbrev pub IsAlive {ℓ} : {Q : Type ℓ} → Option (Outcome (ClientPool Q)) → Type ℓ
IsAlive {Q = Q} r = (pool : ClientPool Q) × (r ≡ some (returns pool)) × (pool.is_alive ≡ true)

round-IsAlive {ℓ} :
    {Q : Type ℓ} (ok kept : Bool) (reached here later : ClientPool Q)
    (rest : Option (Outcome (ClientPool Q)))
    → reached.is_alive ≡ true
    → kept ≡ true
    → (ok ≡ false → IsAlive rest)
    → IsAlive (
        if ok
        then some (returns reached)
        else if here.is_alive
        then some (returns here)
        else if not kept
        then some faults
        else if later.is_alive
        then some (returns later)
        else rest)
round-IsAlive true kept reached here later rest up is_kept h = (reached, refl, up)
round-IsAlive false kept reached here later rest up is_kept h = elim (Bool-cases here.is_alive) [
  | inl alive ↦ (here, rw alive refl, alive)
  | inr dead ↦ elim (Bool-cases later.is_alive) [
    | inl alive ↦ (later, rw (dead, is_kept, alive) refl, alive)
    | inr dead' ↦ let (pool, e, up') = h refl in (pool, rw (dead, is_kept, dead') e, up')
  ]
]

-- While the pool is kept, and when one of the next `fuel` attempts would connect, the loop ends within
-- them, whatever the others do, and the pool is alive then.
pub detect_loop-IsAlive {ℓ} :
    {C Q : Type ℓ} (api : ConcurrentQueue C Q) (fuel k : ℕ) (net : Network C)
    (others : ℕ → ClientPool Q → ClientPool Q) (n : ℕ) (client : C) (pool : ClientPool Q)
    → k < fuel
    → ((j : ℕ) → net.kept j ≡ true)
    → (attempt net n k client).1 ≡ true
    → IsAlive (detect_loop api fuel net others n client pool)
unfolding detect_loop attempt
detect_loop-IsAlive api zero k net others n client pool lt kept ok = absurd (omega (arith, lt))
detect_loop-IsAlive api (suc fuel) zero net others n client pool lt kept ok =
    round-IsAlive (net.connect n client).1 (net.kept (suc n)) _ (others (2 * n) pool)
      (others (2 * n + 1) (others (2 * n) pool))
      (detect_loop api fuel net others (suc n) (net.connect n client).0
        (others (2 * n + 1) (others (2 * n) pool)))
      refl (kept (suc n)) (λ bad. absurd (cc (ok, bad)))
detect_loop-IsAlive api (suc fuel) (suc k) net others n client pool lt kept ok =
    round-IsAlive (net.connect n client).1 (net.kept (suc n)) _ (others (2 * n) pool)
      (others (2 * n + 1) (others (2 * n) pool))
      (detect_loop api fuel net others (suc n) (net.connect n client).0
        (others (2 * n + 1) (others (2 * n) pool)))
      refl (kept (suc n))
      (λ bad.
        detect_loop-IsAlive api fuel k net others (suc n) (net.connect n client).0 _
          (omega (arith, lt)) kept ok)
