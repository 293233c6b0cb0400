-- ===== src/LoadBlancer/Wrr/Gcd.antt =====
-- `std::gcd`, and the greatest common divisor of the weights.
use Prim.Native.Nat.{◌∣◌, max, min}
use async_framework.Prelude.{ℕ, zero, suc, ◌%◌, ◌<◌, ◌≡◌, leb, Bool-cases, inl, inr, arith}
use native.Mathlib.Nat

-- Euclid's algorithm, with a bound on its steps.
abbrev pub gcd_steps : ℕ → ℕ → ℕ → ℕ
gcd_steps zero a b = a
gcd_steps (suc steps) a zero = a
gcd_steps (suc steps) a (suc b) = gcd_steps steps (suc b) (a % suc b)

unfoldable pub gcd : ℕ → ℕ → ℕ
gcd a b = gcd_steps (suc b) a b

gcd_steps-dvd : (steps a b : ℕ) → b < steps → (gcd_steps steps a b ∣ a) × (gcd_steps steps a b ∣ b)
gcd_steps-dvd zero a b h = absurd (omega arith)
gcd_steps-dvd (suc steps) a zero h = (Nat.dvd_refl a, Nat.dvd-zero a)
gcd_steps-dvd (suc steps) a (suc b) h =
    let (left, right) = gcd_steps-dvd steps (suc b) (a % suc b) (omega arith) in
    ((Nat.dvd-mod_iff _ left).0 right, left)

pub gcd-dvd : (a b : ℕ) → (gcd a b ∣ a) × (gcd a b ∣ b)
unfolding gcd
gcd-dvd a b = gcd_steps-dvd (suc b) a b (omega arith)

gcd_steps-greatest : (steps d a b : ℕ) → d ∣ a → d ∣ b → d ∣ gcd_steps steps a b
gcd_steps-greatest zero d a b ha hb = ha
gcd_steps-greatest (suc steps) d a zero ha hb = ha
gcd_steps-greatest (suc steps) d a (suc b) ha hb =
    gcd_steps-greatest steps d (suc b) (a % suc b) hb ((Nat.dvd-mod_iff _ hb).1 ha)

pub gcd-greatest : (d a b : ℕ) → d ∣ a → d ∣ b → d ∣ gcd a b
unfolding gcd
gcd-greatest d a b = gcd_steps-greatest (suc b) d a b

pub dvd-max : (d a b : ℕ) → d ∣ a → d ∣ b → (d ∣ max a b) × (d ∣ min a b)
dvd-max d a b ha hb = elim (Bool-cases (leb a b)) [
  | inl le ↦
      let e : max a b ≡ b = ground (arith, le) in
      let f : min a b ≡ a = ground (arith, le) in (rw e hb, rw f ha)
  | inr gt ↦
      let e : max a b ≡ a = ground (arith, gt) in
      let f : min a b ≡ b = ground (arith, gt) in (rw e ha, rw f hb)
]

pub dvd-max_min : (d a b : ℕ) → d ∣ max a b → d ∣ min a b → (d ∣ a) × (d ∣ b)
dvd-max_min d a b upper lower = elim (Bool-cases (leb a b)) [
  | inl le ↦
      let e : max a b ≡ b = ground (arith, le) in
      let f : min a b ≡ a = ground (arith, le) in (rw f at lower, rw e at upper)
  | inr gt ↦
      let e : max a b ≡ a = ground (arith, gt) in
      let f : min a b ≡ b = ground (arith, gt) in (rw e at upper, rw f at lower)
]
