-- ===== src/FutureState.antt =====
-- FutureState.h: the state that a `Promise` and a `Future` share. `K` names continuations: running
-- one is recorded in `calls`, with what it is given.
pub mod Counts
pub mod Delivery
pub mod Race
mod Tests
use Prim.Native.Nat.{bit_and, bit_or}
use async_framework.Prelude.{
  ℕ, ◌+◌, ◌-◌, ◌%◌, ◌^◌, Bool, true, false, not, ◌&&◌, ◌||◌, Option, none, some, List, [], ◌∷◌,
  ◌++◌, ◌==◌, if◌then◌else◌,
}
use async_framework.Prelude.Outcome.{
  Error, logic_error, runtime_error, bad_variant_access, user, Outcome, returns, throws, faults,
}
use async_framework.Prelude.Stateful.{
  M, pure, throw, fault, lift, bind_to, ◌>>=◌, ◌>>◌, get, modify, logic_assert,
}
use async_framework.Try.{Try, monostate, error}

-- enum class State : uint8_t
pub data State : Type 0 where
  start only_result only_continuation done : State

unfoldable pub code : State → ℕ
code start = 0
code only_result = 1
code only_continuation = 2
code done = 32

abbrev is_done : State → Bool
is_done done = true
is_done _ = false

-- The executors are the user's: what a call on one answers. A context is a number, 0 for NULLCTX.
pub record Executors : Type 0 where
  pub current_thread_in_executor : ℕ → Outcome Bool
  pub schedule : ℕ → Outcome Bool
  pub checkin : ℕ → ℕ → Bool → Outcome Bool
  pub checkout : ℕ → ℕ

-- `pending` counts the jobs that an executor accepted and has not run.
pub record FutureState {ℓ} (A : Type ℓ) : Type ℓ where
  pub state : State
  pub attached : ℕ  -- uint8_t
  pub continuation_ref : ℕ  -- uint8_t
  pub try_value : Try A
  pub continuation : Option ℕ  -- none: no object in the union
  pub executor : Option ℕ
  pub context : ℕ
  pub promise_ref : ℕ  -- size_t
  pub force_sched : Bool
  pub deleted : Bool
  pub calls : List (ℕ × Try A)
  pub pending : ℕ

-- catch (std::exception &)
abbrev pub is_std_exception : Error → Bool
is_std_exception (user n) = false
is_std_exception _ = true

module _ {ℓ} {A : Type ℓ} where
  unfoldable pub init : FutureState A
  init = record {
    state = start;
    attached = 0;
    continuation_ref = 0;
    try_value = monostate;
    continuation = none;
    executor = none;
    context = 0;
    promise_ref = 0;
    force_sched = false;
    deleted = false;
    calls = [];
    pending = 0;
  }

  unfoldable pub has_result : FutureState A → Bool
  unfolding code
  has_result s = not (bit_and (code s.state) (bit_or (code done) (code only_result)) == 0)

  unfoldable pub has_continuation : FutureState A → Bool
  unfolding code
  has_continuation s =
      not (bit_and (code s.state) (bit_or (code done) (code only_continuation)) == 0)

  unfoldable pub attach_one : FutureState A → FutureState A
  attach_one s = record s { attached = (s.attached + 1) % 2 ^ 8 }

  -- `delete this` is recorded.
  unfoldable pub detach_one : M (FutureState A) (Unit {0})
  detach_one s = if s.attached == 0 then (record s { attached = 2 ^ 8 - 1 }, faults) else (
    record s { attached = s.attached - 1; deleted = s.deleted || s.attached == 1 },
    returns tt,
  )

  unfoldable pub attach_promise : FutureState A → FutureState A
  unfolding attach_one
  attach_promise s = attach_one (record s { promise_ref = (s.promise_ref + 1) % 2 ^ 64 })

  unfoldable pub ref_continuation : FutureState A → FutureState A
  ref_continuation s = record s { continuation_ref = (s.continuation_ref + 1) % 2 ^ 8 }

  unfoldable pub deref_continuation : M (FutureState A) (Unit {0})
  deref_continuation s =
      if s.continuation_ref == 0 then (record s { continuation_ref = 2 ^ 8 - 1 }, faults) else (
        record s {
          continuation_ref = s.continuation_ref - 1;
          continuation = if s.continuation_ref == 1 then none else s.continuation;
        },
        returns tt,
      )

  -- ContinuationReference::attach and deatch
  unfoldable pub attach_reference : FutureState A → FutureState A
  unfolding attach_one ref_continuation
  attach_reference s = ref_continuation (attach_one s)

  unfoldable pub detach_reference : M (FutureState A) (Unit {0})
  unfolding detach_one deref_continuation
  detach_reference = do deref_continuation; detach_one

  unfoldable pub set_executor : Option ℕ → FutureState A → FutureState A
  set_executor ex s = record s { executor = ex }

  -- `continuation_(std::move(try_value_))`
  unfoldable pub invoke : M (FutureState A) (Unit {0})
  invoke s = elim s.continuation [
    | none ↦ (s, faults)
    | some k ↦ (record s { calls = s.calls ++ (k, s.try_value) ∷ [] }, returns tt)
  ]

  -- The job handed to the executor. It runs later, and holds a reference until it has run.
  unfoldable pub run_job : M (FutureState A) (Unit {0})
  unfolding invoke detach_reference
  run_job = do modify (λ s. record s { pending = s.pending - 1 }); invoke; detach_reference

  -- `guard`, moved into the job, and `guardForException`. A job that is not accepted dies with
  -- its reference.
  unfoldable pub reschedule_answer : Outcome Bool → M (FutureState A) (Unit {0})
  unfolding detach_reference invoke
  reschedule_answer (returns true) = do
    modify (λ s. record s { pending = s.pending + 1 })
    detach_reference
  reschedule_answer (returns false) = do detach_reference; invoke; detach_reference
  reschedule_answer (throws e) =
      if is_std_exception e
      then (do detach_reference; invoke; detach_reference)
      else (do detach_reference; detach_reference; throw e)
  reschedule_answer faults = fault

  module _ (env : Executors) where
    unfoldable pub check_out : FutureState A → FutureState A
    check_out s = elim s.executor [ none ↦ s | some ex ↦ record s { context = env.checkout ex } ]

    unfoldable pub set_force_sched : Bool → FutureState A → FutureState A
    set_force_sched force s = elim s.executor [
      | none ↦ if force then s else record s { force_sched = force }
      | some ex ↦ record s { force_sched = force }
    ]

    unfoldable pub current_thread_in_executor : FutureState A → Outcome Bool
    current_thread_in_executor s = elim s.executor [
      | none ↦ returns false
      | some ex ↦ env.current_thread_in_executor ex
    ]

    -- `!forceSched_ && (!executor_ || triggerByContinuation || currentThreadInExecutor())`
    unfoldable pub runs_inplace : Bool → FutureState A → Outcome Bool
    unfolding current_thread_in_executor
    runs_inplace trigger s = if s.force_sched then returns false else elim s.executor [
      | none ↦ returns true
      | some ex ↦ if trigger then returns true else current_thread_in_executor s
    ]

    -- `executor_->schedule` or `executor_->checkin`, through a pointer that may be null.
    unfoldable pub submit : FutureState A → Outcome Bool
    submit s = elim s.executor [
      | none ↦ faults
      | some ex ↦
          if s.context == 0 then env.schedule ex else env.checkin ex s.context (not s.force_sched)
    ]

    unfoldable pub reschedule : M (FutureState A) (Unit {0})
    unfolding attach_reference submit reschedule_answer
    reschedule = do
      modify attach_reference
      modify attach_reference
      s ← get
      reschedule_answer (submit s)

    unfoldable pub dispatch : Bool → M (FutureState A) (Unit {0})
    unfolding attach_reference invoke detach_reference reschedule
    dispatch true = do modify attach_reference; invoke; detach_reference
    dispatch false = reschedule

    unfoldable pub schedule_continuation : Bool → M (FutureState A) (Unit {0})
    unfolding runs_inplace dispatch
    schedule_continuation trigger = do
      s ← get
      logic_assert (is_done s.state) "FutureState is not DONE"
      inplace ← lift (runs_inplace trigger s)
      dispatch inplace

    -- The switch of `setResult` for a thread that no other disturbs: each exchange succeeds.
    unfoldable pub transfer_result : State → M (FutureState A) (Unit {0})
    unfolding schedule_continuation
    transfer_result start = modify (λ s. record s { state = only_result })
    transfer_result only_continuation = do
      modify (λ s. record s { state = done })
      schedule_continuation false
    transfer_result _ = throw (logic_error "State Transfer Error")

    -- `checked`: whether the build keeps the first assertion, which GCC 12 and later drop.
    unfoldable pub set_result : Bool → Try A → M (FutureState A) (Unit {0})
    unfolding has_result transfer_result
    set_result checked v = do
      s ← get
      logic_assert (not (checked && has_result s)) "FutureState already has a result"
      modify (λ s. record s { try_value = v })
      transfer_result s.state

    unfoldable pub transfer_continuation : State → M (FutureState A) (Unit {0})
    unfolding schedule_continuation
    transfer_continuation start = modify (λ s. record s { state = only_continuation })
    transfer_continuation only_result = do
      modify (λ s. record s { state = done })
      schedule_continuation true
    transfer_continuation _ = throw (logic_error "State Transfer Error")

    unfoldable pub set_continuation : ℕ → M (FutureState A) (Unit {0})
    unfolding has_continuation transfer_continuation
    set_continuation k = do
      s ← get
      logic_assert (not (has_continuation s)) "FutureState already has a continuation"
      modify (λ s. record s { continuation = some k })
      transfer_continuation s.state

    unfoldable pub detach_promise : Bool → M (FutureState A) (Unit {0})
    unfolding has_result set_result detach_one
    detach_promise checked s =
        if s.promise_ref == 0
        then (record s { promise_ref = 2 ^ 64 - 1 }, faults)
        else (do
          modify (λ s. record s { promise_ref = s.promise_ref - 1 })
          (if not (has_result s) && s.promise_ref == 1
              then set_result checked (error (some (runtime_error "Promise is broken")))
              else pure tt)
          detach_one)
            s
