-- ===== src/LoadBlancer/RoundRobin.antt =====
-- coro_apps/coro_io/load_blancer.hpp: `send_request` by `RRLoadBlancer`.
use native.Mathlib.Nat.{mod-eq_of_lt, add-mul-mod_self_left, div-add-mod, mod-lt, mul-add}
use async_framework.Prelude.{
  ℕ, zero, suc, ◌+◌, ◌-◌, ◌*◌, ◌/◌, ◌%◌, ◌^◌, ◌≤◌, ◌<◌, ◌≡◌, refl, ap, ◌∙◌, Bool, true, false, some,
  leb, ltb, ◌==◌, Bool-cases, inl, inr, length, arith,
}
use async_framework.Prelude.Outcome.{returns}
use async_framework.LoadBlancer.{LoadBlancer, rr_worker, size, work, work_by, choose, send_request}

pos_of : {b : Bool} (d : ℕ) → (d ≡ 0 → b ≡ true) → b ≡ false → 0 < d
pos_of zero h e = absurd (ground (arith, h refl, e))
pos_of (suc d) h e = omega arith

pos_of_lt : (j n : ℕ) → j < n → 0 < n
pos_of_lt j n h = omega arith

mod_at : (x n q j : ℕ) → j < n → x ≡ j + n * q → x % n ≡ j
mod_at x n q j h e = rw e (add-mul-mod_self_left j n q ∙ mod-eq_of_lt h)

-- How many rounds from index `i` to pool `j`.
rounds_to : (i j n : ℕ) → j < n → (d : ℕ) × (d < n) × ((i + d) % n ≡ j)
rounds_to i j n h =
    let parts = div-add-mod i n in
    let more : n * (i / n + 1) ≡ n * (i / n) + n = mul-add n (i / n) 1 ∙ omega arith in
    elim (Bool-cases (leb (i % n) j)) [
      | inl ahead ↦ (
        j - i % n,
        ground arith,
        mod_at (i + (j - i % n)) n (i / n) j h (ground (arith, parts, ahead)),
      )
      | inr behind ↦ (
        n + j - i % n,
        ground (arith, behind),
        mod_at (i + (n + j - i % n)) n (i / n + 1) j h
            (ground (arith, parts, behind, more, mod-lt i (pos_of_lt j n h))),
      )
    ]

module _ {ℓ} {P : Type ℓ} where
  work-rr :
      (drawn i : ℕ) (lb : LoadBlancer P)
      → lb.lb_worker ≡ rr_worker i
      → work drawn lb
        ≡ some (record lb { lb_worker = rr_worker ((i + 1) % 2 ^ 32) }, i % length lb.client_pools)
  unfolding work work_by
  work-rr drawn i lb e = ap (λ w. work_by w drawn lb) e

  -- The index of an alive pool is `d` rounds away.
  choose-alive :
      (up : ℕ → Bool) (draws : ℕ → ℕ) (d left i : ℕ) (lb : LoadBlancer P)
      → lb.lb_worker ≡ rr_worker i
      → d ≤ left
      → i + d < 2 ^ 32
      → up ((i + d) % length lb.client_pools) ≡ true
      → (r : LoadBlancer P × ℕ) × (choose (λ k b. b) (λ k. up) draws left lb ≡ some r)
        × (up r.1 ≡ true)
  unfolding choose
  choose-alive up draws d zero i lb e le small h =
      let here : i + d ≡ i = omega arith in (_, work-rr (draws 0) i lb e, rw here at h)
  choose-alive up draws d (suc left) i lb e le small h =
      elim (Bool-cases (up (i % length lb.client_pools))) [
        | inl alive ↦ (
          (record lb { lb_worker = rr_worker ((i + 1) % 2 ^ 32) }, i % length lb.client_pools),
          rw (choose, work-rr (draws (suc left)) i lb e, alive) refl,
          alive,
        )
        | inr dead ↦
            let further : 0 < d =
              pos_of d (λ zeroed. let here : i + d ≡ i = omega (arith, zeroed) in rw here at h)
                dead in
            let (r, e', alive) =
              choose-alive up draws (d - 1) left (i + 1)
                (record lb { lb_worker = rr_worker ((i + 1) % 2 ^ 32) })
                (ap rr_worker (omega arith)) (omega arith) (omega arith)
                (let same : i + 1 + (d - 1) ≡ i + d = omega arith in rw same h) in
            (r, rw (choose, work-rr (draws (suc left)) i lb e, dead) e', alive)
      ]

  -- By round robin and without other callers meanwhile, `send_request` takes a pool that is alive,
  -- when some pool is alive and stays so; the index is not about to wrap around.
  pub rr-alive :
      (up : ℕ → Bool) (draws : ℕ → ℕ) (i j : ℕ) (lb : LoadBlancer P)
      → lb.lb_worker ≡ rr_worker i
      → i + size lb < 2 ^ 32
      → j < size lb
      → up j ≡ true
      → (r : LoadBlancer P × ℕ) × (send_request (λ k b. b) (λ k. up) draws lb ≡ returns (some r))
        × (up r.1 ≡ true)
  unfolding send_request size
  rr-alive up draws i j lb e small h alive = elim (Bool-cases (ltb 1 (size lb))) [
    | inl several ↦
        let (d, lt, there) = rounds_to i j (size lb) h in
        let (r, e', up_there) =
          choose-alive up draws d (size lb * 2) i lb e (omega arith) (omega arith)
            (rw there alive) in
        (r, rw (send_request, several, e') refl, up_there)
    | inr single ↦
        let one : (size lb == 0) ≡ false = ground arith in
        let only : j ≡ 0 = ground arith in
        ((lb, 0), rw (send_request, single, one) refl, rw only at alive)
  ]
