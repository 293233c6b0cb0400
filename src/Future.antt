-- ===== src/Future.antt =====
-- Future.h, over the heap of shared states of `Promise`. A callback is what it does to the `Try` it
-- is given.
pub mod Then
pub mod Laws
mod Tests
use async_framework.Prelude.{
  ℕ, Bool, true, false, not, ◌&&◌, ◌||◌, Option, none, some, if◌then◌else◌,
}
use async_framework.Prelude.Outcome.{Error, Outcome, returns, throws, faults}
use async_framework.Prelude.Stateful.{M, pure, fault, lift, ◌>>=◌, ◌>>◌, get, modify, logic_assert}
use async_framework.Try.{Try, value, error, value_of, ExceptionPtr}
use async_framework.FutureState.{FutureState, Executors, attach_one, detach_one}
use async_framework.FutureState
use async_framework.LocalState.{LocalState}
use async_framework.LocalState
use async_framework.Promise.{Heap, Promise, at, at_valid}
use async_framework.Promise

pub record Future {ℓ} (A : Type ℓ) : Type ℓ where
  pub shared_state : Option ℕ
  pub local_state : LocalState A

-- What `wait()` comes to: it returns, or it sleeps until the continuation it left has run.
pub data Waited : Type 0 where
  ready sleeping : Waited

module _ {ℓ} {A : Type ℓ} where
  -- `assert` in a method.
  abbrev check : Bool → M (Heap A) (Unit {0})
  check true = pure tt
  check false = fault

  -- Future(FutureState *)
  unfoldable pub of_shared : Option ℕ → M (Heap A) (Future A)
  unfolding attach_one LocalState.empty
  of_shared fs = do
    at_valid fs (modify attach_one)
    pure (record { shared_state = fs; local_state = LocalState.empty })

  -- Future(Try &&)
  unfoldable pub of_try : Try A → Future A
  unfolding LocalState.of_try
  of_try t = record { shared_state = none; local_state = LocalState.of_try t }

  unfoldable pub destroy : Future A → M (Heap A) (Unit {0})
  unfolding detach_one
  destroy f = at_valid f.shared_state detach_one

  -- The move constructor: the new object, and what it leaves of `other`.
  unfoldable pub move : Future A → Future A × Future A
  unfolding LocalState.move
  move other =
      let (l, rest) = LocalState.move other.local_state in
      (
        record { shared_state = other.shared_state; local_state = l },
        record { shared_state = none; local_state = rest },
      )

  -- The move assignment between two objects exchanges their members.
  unfoldable pub move_assign : Future A → Future A → Future A × Future A
  unfolding LocalState.move_assign
  move_assign this other =
      let (l, rest) = LocalState.move_assign this.local_state other.local_state in
      (
        record { shared_state = other.shared_state; local_state = l },
        record { shared_state = this.shared_state; local_state = rest },
      )

  abbrev pub is_shared : Future A → Bool
  is_shared f = elim f.shared_state [ none ↦ false | some a ↦ true ]

  unfoldable pub valid : Future A → Bool
  unfolding LocalState.has_result
  valid f = is_shared f || LocalState.has_result f.local_state

  abbrev shared_has_result : Future A → M (Heap A) Bool
  unfolding FutureState.has_result
  shared_has_result f = at f.shared_state (λ s. (s, returns (FutureState.has_result s)))

  -- `localState_.hasResult() || sharedState_->hasResult()`
  unfoldable pub has_result : Future A → M (Heap A) Bool
  unfolding LocalState.has_result shared_has_result
  has_result f = if LocalState.has_result f.local_state then pure true else shared_has_result f

  -- getTry, behind `result()`.
  unfoldable pub result : Future A → M (Heap A) (Try A)
  unfolding valid has_result
  result f = do
    logic_assert (valid f) "Future is broken."
    done ← has_result f
    logic_assert done "Future is not ready"
    (if is_shared f
        then at f.shared_state (λ s. (s, returns s.try_value))
        else pure f.local_state.try_value)

  -- `value()` in its overloads.
  unfoldable pub value_of_future : Future A → M (Heap A) A
  unfolding result value_of
  value_of_future f = do t ← result f; lift (value_of t)

  unfoldable pub set_executor : Option ℕ → Future A → M (Heap A) (Future A)
  unfolding LocalState.set_executor FutureState.set_executor
  set_executor ex f =
      if is_shared f
      then (do at f.shared_state (modify (FutureState.set_executor ex)); pure f)
      else pure (record f { local_state = LocalState.set_executor ex f.local_state })

  unfoldable pub get_executor : Future A → M (Heap A) (Option ℕ)
  get_executor f =
      if is_shared f
      then at f.shared_state (λ s. (s, returns s.executor))
      else pure f.local_state.executor

  -- `via` returns a future that took over this one.
  unfoldable pub via : Option ℕ → Future A → M (Heap A) (Future A)
  unfolding set_executor move
  via ex f = do f' ← set_executor ex f; pure (move f').0

  module _ (env : Executors) where
    unfoldable pub current_thread_in_executor : Future A → M (Heap A) Bool
    unfolding valid LocalState.current_thread_in_executor FutureState.current_thread_in_executor
    current_thread_in_executor f = do
      check (valid f)
      (if is_shared f
          then at f.shared_state (λ s. (s, FutureState.current_thread_in_executor env s))
          else lift (LocalState.current_thread_in_executor env f.local_state))

    -- `hook` is what the continuation `k` does where it runs at once, on the inline value.
    unfoldable pub set_continuation :
        ℕ → (Try A → Outcome (Unit {0})) → Future A → M (Heap A) (Unit {0})
    unfolding valid LocalState.set_continuation FutureState.set_continuation
    set_continuation k hook f = do
      check (valid f)
      (if is_shared f
          then at f.shared_state (FutureState.set_continuation env k)
          else lift (LocalState.set_continuation hook f.local_state))

    -- Up to the sleep on the condition variable. `k` names the continuation that ends it.
    unfoldable pub wait : ℕ → Future A → M (Heap A) Waited
    unfolding valid has_result current_thread_in_executor Promise.create of_shared
        FutureState.set_executor FutureState.set_continuation
    wait k f = do
      logic_assert (valid f) "Future is broken."
      done ← has_result f
      (if done then pure ready else (do
        inside ← current_thread_in_executor f
        check (not inside)
        p ← Promise.create
        of_shared p.shared_state
        at f.shared_state (modify (FutureState.set_executor none))
        at f.shared_state (FutureState.set_continuation env k)
        pure sleeping))

    -- `get()` where `wait()` returns; a sleeper has no value yet.
    unfoldable pub get_value : ℕ → Future A → M (Heap A) (Option A)
    unfolding wait value_of_future
    get_value k f = do
      w ← wait k f
      elim w [ ready ↦ (do a ← value_of_future f; pure (some a)) | sleeping ↦ pure none ]

-- Promise::getFuture: the promise with its flag set, and the future.
unfoldable pub get_future {ℓ} : {A : Type ℓ} → Promise → M (Heap A) (Promise × Future A)
unfolding Promise.valid of_shared
get_future p = do
  logic_assert (Promise.valid p) "Promise is broken"
  logic_assert (not p.has_future) "Promise already has a future"
  f ← of_shared p.shared_state
  pure (record p { has_future = true }, f)

-- makeReadyFuture from a value, a `Try` and an exception.
unfoldable pub make_ready_future {ℓ} : {A : Type ℓ} → A → Future A
unfolding of_try
make_ready_future v = of_try (value v)

unfoldable pub make_ready_future_error {ℓ} : {A : Type ℓ} → ExceptionPtr → Future A
unfolding of_try
make_ready_future_error e = of_try (error e)
