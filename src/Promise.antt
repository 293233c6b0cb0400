-- ===== src/Promise.antt =====
-- Promise.h, over a heap of shared states. A pointer is an address, `none` when null.
use async_framework.Prelude.{ℕ, suc, Bool, true, false, Option, none, some, ◌==◌, if◌then◌else◌}
use async_framework.Prelude.Outcome.{Outcome, returns, faults}
use async_framework.Prelude.Stateful.{M, pure, ◌>>◌, modify, logic_assert}
use async_framework.Try.{Try, value, error, ExceptionPtr}
use async_framework.FutureState.{
  FutureState, Executors, init, attach_promise, detach_promise, set_result, check_out,
  set_force_sched,
}

-- `states` holds every state that was made; one that is gone has its `deleted` set.
pub record Heap {ℓ} (A : Type ℓ) : Type ℓ where
  pub next : ℕ
  pub states : ℕ → FutureState A

pub record Promise : Type 0 where
  pub shared_state : Option ℕ
  pub has_future : Bool

unfoldable pub valid : Promise → Bool
valid p = elim p.shared_state [ none ↦ false | some a ↦ true ]

module _ {ℓ} {A : Type ℓ} where
  abbrev pub update : (ℕ → FutureState A) → ℕ → FutureState A → ℕ → FutureState A
  update f p s q = if p == q then s else f q

  abbrev pub store : Heap A → ℕ → FutureState A → Heap A
  store h p s = record h { states = update h.states p s }

  abbrev stored {κ} : {B : Type κ} → Heap A → ℕ → FutureState A × Outcome B → Heap A × Outcome B
  stored h p (s, o) = (store h p s, o)

  -- A call through a pointer.
  abbrev pub at {κ} : {B : Type κ} → Option ℕ → M (FutureState A) B → M (Heap A) B
  at none m h = (h, faults)
  at (some p) m h = stored h p (m (h.states p))

  -- A call under `if (sharedState_)`.
  abbrev pub at_valid : Option ℕ → M (FutureState A) (Unit {0}) → M (Heap A) (Unit {0})
  at_valid none m = pure tt
  at_valid (some p) m = at (some p) m

  -- The constructor.
  unfoldable pub create : M (Heap A) Promise
  unfolding init attach_promise
  create h = (
    record h { next = suc h.next; states = update h.states h.next (attach_promise init) },
    returns (record { shared_state = some h.next; has_future = false }),
  )

  -- The copy constructor.
  unfoldable pub copy : Promise → M (Heap A) Promise
  unfolding attach_promise
  copy other = do
    at other.shared_state (modify attach_promise)
    pure (record { shared_state = other.shared_state; has_future = other.has_future })

  module _ (env : Executors) (checked : Bool) where
    unfoldable pub destroy : Promise → M (Heap A) (Unit {0})
    unfolding detach_promise
    destroy p = at_valid p.shared_state (detach_promise env checked)

    -- The copy assignment. `same` tells whether both sides are one object.
    unfoldable pub copy_assign : Bool → Promise → Promise → M (Heap A) Promise
    unfolding destroy copy
    copy_assign true this other = pure this
    copy_assign false this other = do destroy this; copy other

    unfoldable pub checkout : Promise → M (Heap A) (Unit {0})
    unfolding check_out
    checkout p = at_valid p.shared_state (modify (check_out env))

    unfoldable pub force_sched : Promise → M (Heap A) (Unit {0})
    unfolding set_force_sched
    force_sched p = at_valid p.shared_state (modify (set_force_sched env true))

    -- `setValue(Try)`
    unfoldable pub set_try : Promise → Try A → M (Heap A) (Unit {0})
    unfolding valid set_result
    set_try p t = do
      logic_assert (valid p) "Promise is broken"
      at p.shared_state (set_result env checked t)

    unfoldable pub set_value : Promise → A → M (Heap A) (Unit {0})
    unfolding set_try
    set_value p v = set_try p (value v)

    unfoldable pub set_exception : Promise → ExceptionPtr → M (Heap A) (Unit {0})
    unfolding set_try
    set_exception p e = set_try p (error e)

-- The move constructor: the new object, and what it leaves of `other`.
unfoldable pub move : Promise → Promise × Promise
move other = (other, record { shared_state = none; has_future = false })

-- The move assignment exchanges the two objects.
unfoldable pub move_assign : Promise → Promise → Promise × Promise
move_assign this other = (other, this)
