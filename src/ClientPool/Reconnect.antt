-- ===== src/ClientPool/Reconnect.antt =====
-- coro_apps/coro_io/client_pool.hpp: what `reconnect` comes to.
use async_framework.Prelude.{
  ℕ, zero, suc, ◌+◌, ◌%◌, ◌≤◌, ◌<◌, ◌≡◌, refl, ◌∙◌, inl, inr, Bool, true, false, Option, none, some,
  Bool-cases, ltb-false, ltb-true, arith,
}
use async_framework.Prelude.Outcome.{returns}
use async_framework.ClientPool.{PoolConfig, Network, word32, reconnect_loop}

module _ {ℓ} {C : Type ℓ} (net : Network C) where
  -- Attempt `n + k` of a client that is at attempt `n`.
  unfoldable pub attempt : ℕ → ℕ → C → C × Bool
  attempt n zero client = net.connect n client
  attempt n (suc k) client = attempt (suc n) k (net.connect n client).0

  -- The client after the first of the attempts to `n + left` that connects it, or none.
  pub data Tried (n left : ℕ) (client : C) : Option C → Type ℓ where
    connects :
        (k : ℕ)
        → k ≤ left
        → (attempt n k client).1 ≡ true
        → ((j : ℕ) → j < k → (attempt n j client).1 ≡ false)
        → Tried n left client (some (attempt n k client).0)
    gives_up : ((k : ℕ) → k ≤ left → (attempt n k client).1 ≡ false) → Tried n left client none

  now-Tried :
      (n left : ℕ) (client : C)
      → (net.connect n client).1 ≡ true
      → Tried n left client (some (net.connect n client).0)
  unfolding attempt
  now-Tried n left client ok = connects 0 (omega arith) ok (λ j lt. absurd (omega (arith, lt)))

  last-Tried : (n : ℕ) (client : C) → (net.connect n client).1 ≡ false → Tried n 0 client none
  unfolding attempt
  last-Tried n client bad = gives_up failing
    where
      failing : (k : ℕ) → k ≤ 0 → (attempt n k client).1 ≡ false
      failing zero le = bad
      failing (suc k) le = absurd (omega (arith, le))

  -- The first attempt fails, so that what is said of those after it is said of all.
  all_failing :
      (n m : ℕ) (client : C)
      → (net.connect n client).1 ≡ false
      → ((j : ℕ) → j < m → (attempt (suc n) j (net.connect n client).0).1 ≡ false)
      → (j : ℕ) → j < suc m
      → (attempt n j client).1 ≡ false
  unfolding attempt
  all_failing n m client bad h zero lt = bad
  all_failing n m client bad h (suc j) lt = h j (omega arith)

  later-Tried :
      (n left : ℕ) (client : C) (out : Option C)
      → (net.connect n client).1 ≡ false
      → Tried (suc n) left (net.connect n client).0 out
      → Tried n (suc left) client out
  unfolding attempt
  later-Tried n left client _ bad (connects k le ok h) =
      connects (suc k) (omega arith) ok (all_failing n k client bad h)
  later-Tried n left client _ bad (gives_up h) =
      gives_up
        (λ k le. all_failing n (suc left) client bad (λ j lt. h j (omega arith)) k (omega arith))

  reconnect_loop-again :
      (config : PoolConfig) (fuel n i : ℕ) (client : C)
      → (net.connect n client).1 ≡ false
      → ((k : ℕ) → net.kept k ≡ true)
      → (i + 1) % word32 < config.connect_retry_count
      → reconnect_loop net config (suc fuel) n i client
        ≡ reconnect_loop net config fuel (suc n) ((i + 1) % word32) (net.connect n client).0
  unfolding reconnect_loop
  reconnect_loop-again config fuel n i client bad kept more =
      rw (kept n, bad, kept (suc n), ltb-true ((i + 1) % word32) config.connect_retry_count more)
        refl

  -- While the pool is kept, the loop ends within its fuel.
  pub reconnect_loop-Tried :
      (config : PoolConfig) (left n i : ℕ) (client : C)
      → config.connect_retry_count < word32
      → ((k : ℕ) → net.kept k ≡ true)
      → (i + 1) % word32 ≡ n
      → n + left ≡ config.connect_retry_count
      → (out : Option C) × (reconnect_loop net config (suc left) n i client ≡ some (returns out))
        × Tried n left client out
  unfolding reconnect_loop
  reconnect_loop-Tried config zero n i client small kept now sum =
      elim (Bool-cases (net.connect n client).1) [
        | inl ok ↦ (_, rw (reconnect_loop, kept n, ok) refl, now-Tried n 0 client ok)
        | inr bad ↦ (
          none,
          rw
              (
                reconnect_loop,
                kept n,
                bad,
                kept (suc n),
                ltb-false ((i + 1) % word32) config.connect_retry_count (omega arith),
              )
              refl,
          last-Tried n client bad,
        )
      ]
  reconnect_loop-Tried config (suc left) n i client small kept now sum =
      elim (Bool-cases (net.connect n client).1) [
        | inl ok ↦ (_, rw (reconnect_loop, kept n, ok) refl, now-Tried n (suc left) client ok)
        | inr bad ↦
            let (out, e, tried) =
              reconnect_loop-Tried config left (suc n) ((i + 1) % word32) (net.connect n client).0
                small kept (omega arith) (omega arith) in
            (
              out,
              reconnect_loop-again config (suc left) n i client bad kept (omega arith) ∙ e,
              later-Tried n left client out bad tried,
            )
      ]
