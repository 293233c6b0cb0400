-- ===== src/Future/Then.antt =====
-- Future.h: `thenTry`, `thenValue` and `thenImpl`. The heaps of the two value types stand side by
-- side. A continuation that `thenImpl` leaves in a shared state is `then_body`.
pub mod Laws
use async_framework.Prelude.{ℕ, Bool, true, false, not, ◌&&◌, Option, none, some, if◌then◌else◌}
use async_framework.Prelude.Outcome.{Error, Outcome, returns, throws, faults}
use async_framework.Prelude.Outcome
use async_framework.Prelude.Stateful.{
  M, pure, fault, lift, bind_to, ◌>>=◌, ◌>>◌, modify, logic_assert,
}
use async_framework.Try.{Try, error, has_error, value_of, get_exception, make_try_call}
use async_framework.FutureState.{Executors}
use async_framework.FutureState
use async_framework.LocalState
use async_framework.Promise.{Heap, Promise, at, create, set_try, set_exception}
use async_framework.Future.{
  Future, of_try, valid, is_shared, get_executor, set_executor, get_future,
}

-- The lambda that `thenValue` hands to `thenImpl`.
unfoldable pub value_callback {ℓ κ} :
    {A : Type ℓ} {C : Type κ} → (A → Outcome C) → Try A → Outcome C
unfolding value_of
value_callback func t = Outcome.◌>>=◌ (value_of t) func

-- `catch (...)`: a future of the exception.
abbrev or_error {ℓ} : {B : Type ℓ} → Heap B × Outcome (Future B) → Heap B × Outcome (Future B)
unfolding of_try
or_error (h, returns r) = (h, returns r)
or_error (h, throws e) = (h, returns (of_try (error (some e))))
or_error (h, faults) = (h, faults)

module _ {ℓ} {B : Type ℓ} where
  -- What the try block does with the future `f2` of the callback: `pm`, into which the promise has been
  -- moved, is set by the continuation `k2` of `f2`, at once where `f2` is ready.
  abbrev forward : Executors → Bool → ℕ → Promise → Future B → M (Heap B) (Unit {0})
  unfolding valid set_try FutureState.set_continuation
  forward env checked k2 pm f2 =
      if is_shared f2
      then at f2.shared_state (FutureState.set_continuation env k2)
      else if valid f2
      then set_try env checked pm f2.local_state.try_value
      else fault

  -- `catch (...)` with the promise as it is then.
  abbrev caught_by :
      Executors → Bool → Promise → Heap B × Outcome (Unit {0}) → Heap B × Outcome (Unit {0})
  unfolding set_exception
  caught_by env checked p (h, throws e) = set_exception env checked p (some e) h
  caught_by env checked p (h, returns u) = (h, returns u)
  caught_by env checked p (h, faults) = (h, faults)

  abbrev with_future :
      Executors → Bool → ℕ → Promise → Heap B × Outcome (Future B) → Heap B × Outcome (Unit {0})
  unfolding forward caught_by
  with_future env checked k2 p (h, returns f2) =
      caught_by env checked (record p { shared_state = none }) (forward env checked k2 p f2 h)
  with_future env checked k2 p (h, throws e) = caught_by env checked p (h, throws e)
  with_future env checked k2 p (h, faults) = (h, faults)

module _ {ℓ} {A B : Type ℓ} where
  abbrev first_heap {κ} : {C : Type κ} → M (Heap A) C → M (Heap A × Heap B) C
  first_heap m (h, g) = let (h', o) = m h in ((h', g), o)

  abbrev second_heap {κ} : {C : Type κ} → M (Heap B) C → M (Heap A × Heap B) C
  second_heap m (h, g) = let (g', o) = m g in ((h, g'), o)

  -- A ready future and a callback that returns a value.
  unfoldable pub then_ready : (Try A → Outcome B) → Future A → M (Heap B) (Future B)
  unfolding make_try_call of_try set_executor
  then_ready func f = do
    t ← lift (make_try_call (func f.local_state.try_value))
    set_executor f.local_state.executor (of_try t)

  -- A ready future and a callback that returns a future.
  unfoldable pub then_ready_future :
      (Try A → M (Heap B) (Future B)) → Future A → M (Heap B) (Future B)
  unfolding get_executor set_executor or_error
  then_ready_future func f h = or_error (
      (do
        r ← func f.local_state.try_value
        ex ← get_executor r
        elim ex [ none ↦ set_executor f.local_state.executor r | some e ↦ pure r ])
        h)

  -- What the continuation does to the promise `p` of the new future, for a callback that returns a
  -- value. `is_try` is `R::isTry`.
  unfoldable pub then_body :
      Executors → Bool → Bool → Promise → (Try A → Outcome B) → Try A → M (Heap B) (Unit {0})
  unfolding has_error get_exception set_exception make_try_call set_try
  then_body env checked is_try p func t =
      if not is_try && has_error t
      then (do e ← lift (get_exception t); set_exception env checked p e)
      else (do r ← lift (make_try_call (func t)); set_try env checked p r)

  -- The same for a callback that returns a future.
  unfoldable pub then_body_future :
      Executors
      → Bool
      → Bool
      → ℕ
      → Promise
      → (Try A → M (Heap B) (Future B))
      → Try A
      → M (Heap B) (Unit {0})
  unfolding has_error get_exception set_exception with_future
  then_body_future env checked is_try k2 p func t =
      if not is_try && has_error t
      then (do e ← lift (get_exception t); set_exception env checked p e)
      else (λ h. with_future env checked k2 p (func t h))

  -- A shared state: the new promise is for the continuation `k`.
  unfoldable pub then_shared : Executors → ℕ → Future A → M (Heap A × Heap B) (Promise × Future B)
  unfolding create get_future set_executor FutureState.set_continuation
  then_shared env k f = do
    p ← second_heap create
    (p', r) ← second_heap (get_future p)
    ex ← first_heap (at f.shared_state (λ s. (s, returns s.executor)))
    r' ← second_heap (set_executor ex r)
    first_heap (at f.shared_state (FutureState.set_continuation env k))
    pure (p', r')

  -- thenImpl for a callback that returns a value.
  unfoldable pub then_impl :
      Executors → ℕ → (Try A → Outcome B) → Future A → M (Heap A × Heap B) (Future B)
  unfolding valid then_ready then_shared
  then_impl env k func f = do
    logic_assert (valid f) "Future is broken."
    (if is_shared f
        then (do (p, r) ← then_shared env k f; pure r)
        else second_heap (then_ready func f))
