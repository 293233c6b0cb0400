-- ===== src/FutureState/Tests.antt =====
-- Runs of FutureState.h, and its theorems at concrete states.
use async_framework.Prelude.{ℕ, ◌≡◌, refl, Bool, true, false, some, List, [], ◌∷◌, arith}
use async_framework.Prelude.Outcome.{returns, runtime_error}
use async_framework.Try.{value, error}
use async_framework.FutureState.{
  only_continuation, done, FutureState, Executors, init, detach_promise, schedule_continuation,
  runs_inplace, submit,
}
use async_framework.FutureState.Counts.{broken_promise}
use async_framework.FutureState.Delivery.{
  IsReturned, IsHandled, IsUsable, IsWaiting, IsQueued, IsDelivered,
  schedule_continuation-IsDelivered,
}
use async_framework.FutureState.Race.{finished, Turn, produce, consume, run}
use async_framework.FutureState.Race.Invariant.{gave, joined, IsHealthy}
use async_framework.FutureState.Race.Safety.{
  IsFresh, racing, race-IsHealthy, race_early, race_delivers,
}

-- Executor 7 takes every job, and is never the current one.
abbrev pool : Executors
pool = record {
  current_thread_in_executor = λ ex. returns false;
  schedule = λ ex. returns true;
  checkin = λ ex ctx prompt. returns true;
  checkout = λ ex. 5;
}

-- A promise and its future, on executor 7.
abbrev fresh : FutureState ℕ
unfolding init
fresh = record init { attached = 2; promise_ref = 1; executor = some 7 }

abbrev with_continuation : FutureState ℕ
unfolding init
with_continuation = record fresh { state = only_continuation; continuation = some 4 }

abbrev met : FutureState ℕ
unfolding init
met = record fresh { state = done; continuation = some 4; try_value = value 9 }

known : (t : Bool) → IsReturned (runs_inplace pool t fresh)
unfolding runs_inplace init
known true = tt
known false = tt

handled : (t : Bool) → runs_inplace pool t fresh ≡ returns false → IsHandled (submit pool fresh)
unfolding submit init
handled t e = tt

usable : IsUsable pool fresh
usable = record { known = known; handled = handled }

is_fresh : IsFresh 2 fresh
unfolding init
is_fresh = record {
  state_is = refl;
  held = refl;
  unshared = refl;
  uncalled = refl;
  unqueued = refl;
}

abbrev alternating : List Turn
alternating =
    produce ∷ consume ∷ produce ∷ consume ∷ produce ∷ consume ∷ produce ∷ consume ∷ produce
    ∷ consume ∷ produce ∷ consume ∷ produce ∷ consume ∷ []

race_delivers_example :
    let z = run pool true (value 9) 4 (racing fresh) alternating in
    (z.producer ≡ finished) × (z.consumer ≡ finished) × IsDelivered 2 4 (value 9) z.shared
race_delivers_example =
    race_delivers pool true (value 9) 4 2 fresh alternating (omega arith) (omega arith) is_fresh
      usable (omega arith) (omega arith)

race-IsHealthy_example :
    let z = run pool true (value 9) 4 (racing fresh) (produce ∷ consume ∷ consume ∷ []) in
    IsHealthy z.producer
    × IsHealthy z.consumer
    × (z.shared.state ≡ joined (gave z.producer) (gave z.consumer))
race-IsHealthy_example =
    race-IsHealthy pool true (value 9) 4 2 fresh (produce ∷ consume ∷ consume ∷ []) (omega arith)
      (omega arith) is_fresh usable

race_early_example :
    let z = run pool true (value 9) 4 (racing fresh) (produce ∷ consume ∷ []) in
    (z.shared.calls ≡ []) × (z.shared.pending ≡ 0)
unfolding run init
race_early_example =
    race_early pool true (value 9) 4 2 fresh (produce ∷ consume ∷ []) (omega arith) (omega arith)
      is_fresh usable refl

is_waiting : IsWaiting 2 4 met
unfolding init
is_waiting = record {
  ready = refl;
  held = refl;
  unshared = refl;
  stored = refl;
  uncalled = refl;
  unqueued = refl;
}

IsUsable-met : IsUsable pool met
unfolding runs_inplace submit init
IsUsable-met = record { known = known; handled = handled }

schedule_continuation-IsDelivered_example :
    ((schedule_continuation pool false met).1 ≡ returns tt)
    × IsDelivered 2 4 (value 9) (schedule_continuation pool false met).0
unfolding init
schedule_continuation-IsDelivered_example =
    schedule_continuation-IsDelivered pool 2 4 false met (omega arith) (omega arith) is_waiting
      IsUsable-met

abbrev queued : FutureState ℕ
unfolding init
queued = record met { attached = 3; continuation_ref = 1; pending = 1 }

is_queued : IsQueued 2 4 (value 9) queued
unfolding init
is_queued = record {
  settled = refl;
  held = refl;
  shared = refl;
  stored = refl;
  value_is = refl;
  uncalled = refl;
  queued = refl;
}

IsWaiting-broken : IsWaiting 2 4 (record with_continuation { state = done })
unfolding init
IsWaiting-broken = record {
  ready = refl;
  held = refl;
  unshared = refl;
  stored = refl;
  uncalled = refl;
  unqueued = refl;
}

IsUsable-broken : IsUsable pool with_continuation
unfolding runs_inplace submit init
IsUsable-broken = record { known = known; handled = handled }

broken_promise_example :
    ((detach_promise pool true with_continuation).1 ≡ returns tt)
    × IsDelivered 1 4
        (error (some (runtime_error "Promise is broken")))
        (detach_promise pool true with_continuation).0
unfolding init
broken_promise_example =
    broken_promise pool true 2 4 with_continuation (omega arith) (omega arith) refl refl
      IsWaiting-broken IsUsable-broken
