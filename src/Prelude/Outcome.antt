-- ===== src/Prelude/Outcome.antt =====
-- Common.h: exceptions as values. `logicAssert` throws, a failed `assert` or a dereferenced null
-- pointer is a fault, which no handler catches.
use Prim.Native.Nat.{ℕ}
use Prim.Native.String.{String}
use mathlib.Core.Bool.{Bool, true, false}

-- `logic_error`, `runtime_error` and `invalid_argument` carry their message; `user` is any exception of a callback.
pub data Error : Type 0 where
  logic_error : String → Error
  runtime_error : String → Error
  invalid_argument : String → Error
  bad_variant_access : Error
  user : ℕ → Error

pub data Outcome {ℓ} (A : Type ℓ) : Type ℓ where
  returns : A → Outcome A
  throws : Error → Outcome A
  faults : Outcome A

infixl 5 ◌>>=◌ ◌>>◌
abbrev pub ◌>>=◌ {ℓ κ} : {A : Type ℓ} {B : Type κ} → Outcome A → (A → Outcome B) → Outcome B
returns a >>= f = f a
throws e >>= f = throws e
faults >>= f = faults

abbrev pub ◌>>◌ {ℓ} : {B : Type ℓ} → Outcome (Unit {0}) → Outcome B → Outcome B
m >> k = m >>= λ _. k

abbrev pub logic_assert : Bool → String → Outcome (Unit {0})
logic_assert true message = returns tt
logic_assert false message = throws (logic_error message)

-- `assert`
abbrev pub assert : Bool → Outcome (Unit {0})
assert true = returns tt
assert false = faults
