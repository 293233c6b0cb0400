-- ===== src/Future/Tests.antt =====
-- The theorems on futures at concrete values.
use async_framework.Prelude.{ℕ, ◌+◌, ◌≡◌, refl, true, false, none, some}
use async_framework.Prelude.Outcome.{logic_error, user, returns, throws}
use async_framework.Try.{value, error, make_try_call, value_of}
use async_framework.FutureState.{Executors, init}
use async_framework.LocalState
use async_framework.Promise.{Heap}
use async_framework.Future.{Future}
use async_framework.Future.Laws.{ended, ended_deleted}
use async_framework.Future.Then.{then_impl, value_callback}
use async_framework.Future.Then.Laws.{then_value_chain, continued, continued_value}

abbrev pool : Executors
pool = record {
  current_thread_in_executor = λ ex. returns false;
  schedule = λ ex. returns true;
  checkin = λ ex ctx prompt. returns true;
  checkout = λ ex. 5;
}

abbrev heap : Heap ℕ
heap = record { next = 0; states = λ a. init }

ended_deleted_example :
    let (g, o) = ended pool true (value 9) heap in
    let s = g.states 0 in
    (o ≡ returns tt)
    × (s.deleted ≡ true)
    × (s.attached ≡ 0)
    × (s.promise_ref ≡ 0)
    × (s.try_value ≡ value 9)
ended_deleted_example = ended_deleted pool true heap (value 9)

abbrev pending : Future ℕ
unfolding LocalState.empty
pending = record { shared_state = some 0; local_state = LocalState.empty }

then_value_chain_example :
    then_impl pool 4
      (value_callback (λ (n : ℕ). returns (n + 1)))
      (record {
        shared_state = none;
        local_state = record { try_value = error (some (user 3)); executor = some 7 };
      })
      (heap, heap)
    ≡ ((heap, heap), throws (logic_error "Future is broken."))
unfolding make_try_call
then_value_chain_example =
    then_value_chain pool 4 (some 7) (throws (user 3)) _ (λ (n : ℕ). returns (n + 1)) (heap, heap)
      refl

continued_value_example :
    (continued pool true true (λ (n : ℕ). returns (n + 1)) (value 2) heap).1 ≡ returns 3
unfolding value_of
continued_value_example = continued_value pool true true (λ (n : ℕ). returns (n + 1)) (value 2) heap
