-- ===== src/LoadBlancer/Wrr/Shares.antt =====
-- coro_apps/coro_io/load_blancer.hpp: in a round of weighted round robin each server gets its share.
use Prim.Native.Nat.{◌∣◌, ◌/◌, max, min}
use native.Mathlib.Nat
use native.Mathlib.Nat.{mod_self}
use async_framework.Prelude.{
  ℕ, zero, suc, ◌+◌, ◌*◌, ◌≤◌, ◌<◌, ◌≡◌, refl, sym, ◌∙◌, Option, none, some, List, [], ◌∷◌, length,
  get_or, arith,
}
use async_framework.LoadBlancer.Wrr.{
  gcd_loop, get_max_weight_gcd, get_max_weight, new_wrr, next_index, next_weight,
}
use async_framework.LoadBlancer.Wrr.Gcd.{gcd, gcd-dvd, gcd-greatest, dvd-max, dvd-max_min}
use async_framework.LoadBlancer.Wrr.Ready.{heaviest_index, new_wrr-IsReady}
use async_framework.LoadBlancer.Wrr.Passes.{at, visits, count, visits-add, pass}
use async_framework.LoadBlancer.Wrr.Calls.{calls, calls-visits}

-- The loop's result divides what it starts with and every weight.
gcd_loop-dvd :
    (ws : List ℕ) (res t : ℕ) → (gcd_loop ws res ∣ res) × (gcd_loop ws res ∣ get_or ws t 0)
unfolding gcd_loop
gcd_loop-dvd [] res t = (Nat.dvd_refl res, Nat.dvd-zero res)
gcd_loop-dvd (w ∷ ws) res zero =
    let (of_max, of_min) = gcd-dvd (max res w) (min res w) in
    let of_g = (gcd_loop-dvd ws (gcd (max res w) (min res w)) 0).0 in
    dvd-max_min _ res w (Nat.dvd_trans _ of_g of_max) (Nat.dvd_trans _ of_g of_min)
gcd_loop-dvd (w ∷ ws) res (suc t) =
    let (of_max, of_min) = gcd-dvd (max res w) (min res w) in
    let (of_g, of_rest) = gcd_loop-dvd ws (gcd (max res w) (min res w)) t in
    ((dvd-max_min _ res w (Nat.dvd_trans _ of_g of_max) (Nat.dvd_trans _ of_g of_min)).0, of_rest)

-- The greatest number that divides every weight: every number that does divides it.
pub record IsGreatestDivisor (ws : List ℕ) (g : ℕ) : Type 0 where
  pub divides : (t : ℕ) → g ∣ get_or ws t 0
  pub greatest : (d : ℕ) → ((t : ℕ) → d ∣ get_or ws t 0) → d ∣ g

gcd_loop-greatest :
    (ws : List ℕ) (res d : ℕ) → d ∣ res → ((t : ℕ) → d ∣ get_or ws t 0) → d ∣ gcd_loop ws res
unfolding gcd_loop
gcd_loop-greatest [] res d h all = h
gcd_loop-greatest (w ∷ ws) res d h all =
    let (of_max, of_min) = dvd-max d res w h (all 0) in
    gcd_loop-greatest ws (gcd (max res w) (min res w)) d
      (gcd-greatest d (max res w) (min res w) of_max of_min) (λ t. all (suc t))

-- Every weight is a multiple of `max_gcd_`.
max_gcd-dvd : (ws : List ℕ) (t : ℕ) → get_max_weight_gcd ws ∣ get_or ws t 0
unfolding get_max_weight_gcd
max_gcd-dvd ws t = (gcd_loop-dvd ws (get_or ws 0 0) t).1

max_gcd-IsGreatestDivisor : (ws : List ℕ) → IsGreatestDivisor ws (get_max_weight_gcd ws)
unfolding get_max_weight_gcd
max_gcd-IsGreatestDivisor ws = record {
  divides = max_gcd-dvd ws;
  greatest = λ d all. gcd_loop-greatest ws (get_or ws 0 0) d (all 0) all;
}

max_gcd-quotient :
    (ws : List ℕ) (t : ℕ)
    → get_or ws t 0 / get_max_weight_gcd ws * get_max_weight_gcd ws ≡ get_or ws t 0
max_gcd-quotient ws t = Nat.div-mul_cancel (get_max_weight_gcd ws) (max_gcd-dvd ws t)

-- `c` passes select a server of `q` units of weight in the last `q` of them.
module _ (ws : List ℕ) (g m n : ℕ) (size : suc n ≡ length ws) (unit : 0 < g) where
  cycle :
      (c rounds before q t : ℕ) (current : Option ℕ)
      → c * suc n ≡ rounds
      → next_index current (length ws) ≡ 0
      → (0 < c → next_weight (at ws g m current before) ≡ c * g)
      → get_or ws t 0 ≡ q * g
      → count t (visits rounds (at ws g m current before)).1 ≡ min q c
  unfolding visits count
  cycle zero rounds before q t current e i h w =
      let none_left : rounds ≡ 0 = omega (arith, e) in rw none_left (omega arith)
  cycle (suc c) rounds before q t current e i h w =
      let more : suc c * g ≡ c * g + g = Nat.suc-mul c g in
      let turns : suc c * suc n ≡ c * suc n + suc n = Nat.suc-mul c (suc n) in
      let (ends, counts) =
        pass ws g m current before (suc c * g) t n size i (h (omega arith))
          (omega (arith, more, unit)) in
      let (split, total) =
        visits-add (suc n) (c * suc n) rounds (at ws g m current before) t
          (omega (arith, e, turns)) in
      let back : next_index (some n) (length ws) ≡ 0 =
        rw (sym size) (let last : n + 1 ≡ suc n = omega arith in rw last (mod_self (suc n))) in
      let lowered : 0 < c → next_weight (at ws g m (some n) (suc c * g)) ≡ c * g = λ pos.
        let some_left : 0 < c * g = Nat.mul-pos pos unit in ground (arith, more, some_left) in
      let rest = cycle c (c * suc n) (suc c * g) q t (some n) refl back lowered w in
      total
      ∙ rw (ends, rest, counts, w)
          (ground (
            arith,
            λ (le : suc c * g ≤ q * g). Nat.le_of_mul-le-mul_right le unit,
            λ (le : suc c ≤ q). Nat.mul-le-mul_right g le,
          ))

weight_le_max : (ws : List ℕ) (t : ℕ) → get_or ws t 0 ≤ get_max_weight ws
unfolding get_max_weight
weight_le_max [] t = omega arith
weight_le_max (w ∷ ws) zero = ground arith
weight_le_max (w ∷ ws) (suc t) = ground (arith, weight_le_max ws t)

-- With servers of which one has a positive weight, there is a number of first calls of a
-- `WRRLoadBlancer` that pick every server as often as its weight is a multiple of `g`, where `g` is the
-- greatest common divisor of all weights, which every common divisor divides.
pub calls-shares :
    (ws : List ℕ)
    → 0 < get_max_weight ws
    → (g : ℕ) × IsGreatestDivisor ws g
      × (picks : List ℕ) × (calls (length picks) (new_wrr ws) ≡ some picks)
      × ((t : ℕ) → count t picks ≡ get_or ws t 0 / g)
unfolding new_wrr get_max_weight
calls-shares [] h = absurd (omega (arith, h))
calls-shares (w ∷ ws') h =
    let ws = w ∷ ws' in
    let g = get_max_weight_gcd ws in
    let m = get_max_weight ws in
    let (j, within, top) = heaviest_index ws (omega arith) in
    let unit : 0 < g = Nat.pos_of_dvd_of_pos (max_gcd-dvd ws j) (omega (arith, top, h)) in
    let whole : m / g * g ≡ m = rw top at (max_gcd-quotient ws j) in
    let c = m / g in
    let first : next_index none (length ws) ≡ 0 = omega arith in
    let start : 0 < c → next_weight (at ws g m none 0) ≡ c * g = λ pos. ground (arith, whole) in
    let share : (t : ℕ)
        → count t (visits (c * suc (length ws')) (new_wrr ws)).1 ≡ get_or ws t 0 / g =
      λ t.
        let q = max_gcd-quotient ws t in
        let few : get_or ws t 0 / g ≤ c =
          Nat.le_of_mul-le-mul_right (omega (arith, q, whole, weight_le_max ws t)) unit in
        cycle ws g m (length ws') refl unit c (c * suc (length ws')) 0 (get_or ws t 0 / g) t none
          refl first start (sym q)
        ∙ omega (arith, few) in
    (
      g,
      max_gcd-IsGreatestDivisor ws,
      (visits (c * suc (length ws')) (new_wrr ws)).1,
      calls-visits (c * suc (length ws')) (new_wrr ws) (new_wrr-IsReady ws (omega arith)) h,
      λ t. share t,
    )
