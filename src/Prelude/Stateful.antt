-- ===== src/Prelude/Stateful.antt =====
-- Methods that change an object and may throw: the object survives an exception.
use mathlib.Core.Bool.{Bool, true, false}
use Prim.Native.String.{String}
use async_framework.Prelude.Outcome.{Error, logic_error, Outcome, returns, throws, faults}

abbrev pub M {ℓ κ} : Type ℓ → Type κ → Type (ℓ ⊔ κ)
M S A = S → S × Outcome A

module _ {ℓ κ} {S : Type ℓ} {A : Type κ} where
  abbrev pub pure : A → M S A
  pure a s = (s, returns a)

  abbrev pub throw : Error → M S A
  throw e s = (s, throws e)

  abbrev pub fault : M S A
  fault s = (s, faults)

  -- A call that leaves the object alone.
  abbrev pub lift : Outcome A → M S A
  lift o s = (s, o)

infixl 5 ◌>>=◌ ◌>>◌
abbrev pub bind_to {ℓ κ μ} :
    {S : Type ℓ} {A : Type κ} {B : Type μ} → S × Outcome A → (A → M S B) → S × Outcome B
bind_to (s, returns a) f = f a s
bind_to (s, throws e) f = (s, throws e)
bind_to (s, faults) f = (s, faults)

abbrev pub ◌>>=◌ {ℓ κ μ} : {S : Type ℓ} {A : Type κ} {B : Type μ} → M S A → (A → M S B) → M S B
◌>>=◌ m f s = bind_to (m s) f

abbrev pub ◌>>◌ {ℓ κ μ} : {S : Type ℓ} {A : Type κ} {B : Type μ} → M S A → M S B → M S B
m >> k = m >>= λ _. k

abbrev pub get {ℓ} : {S : Type ℓ} → M S S
get s = (s, returns s)

abbrev pub modify {ℓ} : {S : Type ℓ} → (S → S) → M S (Unit {0})
modify f s = (f s, returns tt)

abbrev pub logic_assert {ℓ} : {S : Type ℓ} → Bool → String → M S (Unit {0})
logic_assert true message s = (s, returns tt)
logic_assert false message s = (s, throws (logic_error message))
