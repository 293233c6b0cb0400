-- ===== src/LocalState.antt =====
-- LocalState.h: the value that a ready future keeps inline.
use async_framework.Prelude.{ℕ, Bool, false, Option, none, some}
use async_framework.Prelude.Outcome.{Outcome, returns, assert, ◌>>◌}
use async_framework.Try.{Try, monostate, value, available}
use async_framework.FutureState.{Executors}

pub record LocalState {ℓ} (A : Type ℓ) : Type ℓ where
  pub try_value : Try A
  pub executor : Option ℕ

module _ {ℓ} {A : Type ℓ} where
  unfoldable pub empty : LocalState A
  empty = record { try_value = monostate; executor = none }

  unfoldable pub of_try : Try A → LocalState A
  of_try t = record { try_value = t; executor = none }

  unfoldable pub of_value : A → LocalState A
  of_value v = record { try_value = value v; executor = none }

  -- The move assignment between two objects exchanges them.
  unfoldable pub move_assign : LocalState A → LocalState A → LocalState A × LocalState A
  move_assign this other = (other, this)

  -- The move constructor: the new object, and what it leaves of `other`.
  unfoldable pub move : LocalState A → LocalState A × LocalState A
  move other = (other, record other { executor = none })

  unfoldable pub has_result : LocalState A → Bool
  unfolding available
  has_result l = available l.try_value

  unfoldable pub set_executor : Option ℕ → LocalState A → LocalState A
  set_executor ex l = record l { executor = ex }

  unfoldable pub current_thread_in_executor : Executors → LocalState A → Outcome Bool
  current_thread_in_executor env l = elim l.executor [
    | none ↦ returns false
    | some ex ↦ env.current_thread_in_executor ex
  ]

  -- The continuation runs at once, on the stored value.
  unfoldable pub set_continuation {κ} :
      {B : Type κ} → (Try A → Outcome B) → LocalState A → Outcome B
  unfolding available
  set_continuation f l = assert (available l.try_value) >> f l.try_value
