-- ===== src/FutureState/Race.antt =====
-- FutureState.h: `setResult` and `setContinuation` in two threads, one atomic access at a time.
-- The local `state` of each function is kept in its phase; `claimed` is the value for which the
-- second exchange is tried.
pub mod Invariant
pub mod Safety
use async_framework.Prelude.{ℕ, Bool, true, false, ◌&&◌, some, List, [], ◌∷◌, if◌then◌else◌}
use async_framework.Prelude.Outcome.{Error, logic_error, Outcome, returns, throws, faults}
use async_framework.Try.{Try}
use async_framework.FutureState.{
  State, start, only_result, only_continuation, done, FutureState, Executors, has_result,
  has_continuation, schedule_continuation,
}

pub data Phase : Type 0 where
  entered : Phase  -- before the assertion
  storing : Phase  -- before the write of `try_value_` or of the continuation
  loading : Phase  -- before `state_.load`
  first : Phase  -- in `case START`, before its exchange
  second : Phase  -- in the next case, before its exchange
  delivering : Phase  -- before `scheduleContinuation`
  returning : Phase  -- after `scheduleContinuation`, which has called it or queued a job
  finished : Phase
  failed : Outcome (Unit {0}) → Phase  -- an exception, or a failed `assert`

abbrev transfer_error : Phase
transfer_error = failed (throws (logic_error "State Transfer Error"))

abbrev outcome_phase : Outcome (Unit {0}) → Phase
outcome_phase (returns a) = returning
outcome_phase o = failed o

-- The switch on the loaded state, `mine` being the state that this thread makes of START.
abbrev switch_result : State → Phase
switch_result start = first
switch_result only_continuation = second
switch_result _ = transfer_error

abbrev switch_continuation : State → Phase
switch_continuation start = first
switch_continuation only_result = second
switch_continuation _ = transfer_error

module _ {ℓ} {A : Type ℓ} where
  abbrev delivered : FutureState A × Outcome (Unit {0}) → FutureState A × Phase
  delivered (s, o) = (s, outcome_phase o)

  -- compare_exchange_strong(START, ONLY_RESULT); on failure the `assert` on what was found.
  abbrev first_result : FutureState A → State → FutureState A × Phase
  first_result s start = (record s { state = only_result }, finished)
  first_result s only_continuation = (s, second)
  first_result s _ = (s, failed faults)

  -- compare_exchange_strong(ONLY_CONTINUATION, DONE)
  abbrev second_result : FutureState A → State → FutureState A × Phase
  second_result s only_continuation = (record s { state = done }, delivering)
  second_result s _ = (s, transfer_error)

  abbrev first_continuation : FutureState A → State → FutureState A × Phase
  first_continuation s start = (record s { state = only_continuation }, finished)
  first_continuation s only_result = (s, second)
  first_continuation s _ = (s, failed faults)

  abbrev second_continuation : FutureState A → State → FutureState A × Phase
  second_continuation s only_result = (record s { state = done }, delivering)
  second_continuation s _ = (s, transfer_error)

  module _ (env : Executors) where
    unfoldable pub result_step : Bool → Try A → FutureState A → Phase → FutureState A × Phase
    unfolding has_result
    result_step checked v s entered =
        if checked && has_result s
        then (s, failed (throws (logic_error "FutureState already has a result")))
        else (s, storing)
    result_step checked v s storing = (record s { try_value = v }, loading)
    result_step checked v s loading = (s, switch_result s.state)
    result_step checked v s first = first_result s s.state
    result_step checked v s second = second_result s s.state
    result_step checked v s delivering = delivered (schedule_continuation env false s)
    result_step checked v s returning = (s, finished)
    result_step checked v s finished = (s, finished)
    result_step checked v s (failed o) = (s, failed o)

    unfoldable pub continuation_step : ℕ → FutureState A → Phase → FutureState A × Phase
    unfolding has_continuation
    continuation_step k s entered =
        if has_continuation s
        then (s, failed (throws (logic_error "FutureState already has a continuation")))
        else (s, storing)
    continuation_step k s storing = (record s { continuation = some k }, loading)
    continuation_step k s loading = (s, switch_continuation s.state)
    continuation_step k s first = first_continuation s s.state
    continuation_step k s second = second_continuation s s.state
    continuation_step k s delivering = delivered (schedule_continuation env true s)
    continuation_step k s returning = (s, finished)
    continuation_step k s finished = (s, finished)
    continuation_step k s (failed o) = (s, failed o)

-- The producer runs `setResult(v)` and the consumer `setContinuation(k)`.
pub record System {ℓ} (A : Type ℓ) : Type ℓ where
  pub shared : FutureState A
  pub producer : Phase
  pub consumer : Phase

-- One of the threads takes its next step.
pub data Turn : Type 0 where
  produce consume : Turn

module _ {ℓ} {A : Type ℓ} (env : Executors) (checked : Bool) (v : Try A) (k : ℕ) where
  abbrev produced : System A → FutureState A × Phase → System A
  produced y (s, p) = record y { shared = s; producer = p }

  abbrev consumed : System A → FutureState A × Phase → System A
  consumed y (s, p) = record y { shared = s; consumer = p }

  unfoldable pub turn : System A → Turn → System A
  unfolding result_step continuation_step
  turn y produce = produced y (result_step env checked v y.shared y.producer)
  turn y consume = consumed y (continuation_step env k y.shared y.consumer)

  -- Any schedule of the two threads.
  unfoldable pub run : System A → List Turn → System A
  unfolding turn
  run y [] = y
  run y (t ∷ ts) = run (turn y t) ts
