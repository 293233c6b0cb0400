-- ===== src/ThreadPool/Tests.antt =====
-- util/ThreadPool.h: runs of a pool of two threads; a function is a number.
use async_framework.Prelude.{
  ℕ, zero, suc, ◌+◌, ◌≡◌, refl, true, false, some, List, [], ◌∷◌, ◌++◌, sum_by, arith,
}
use async_framework.Prelude.Outcome.{faults}
use async_framework.Queue
use async_framework.ThreadPool.{
  pos, negsuc, thread_pool, schedule_by_id, push_by_id, push_checked, push_at,
}
use async_framework.ThreadPool.System.{
  Event, working, testing, pushing, halting, stopping, steps, said, taken_in, all_taken_in, started,
}
use async_framework.ThreadPool.System.Weights.{held}
use async_framework.ThreadPool.System.Kept.{steps-kept}
use async_framework.ThreadPool.System.Drained.{IsJoined, joined-drained}

-- Thread 1 steals what was scheduled for thread 0, and both end.
abbrev stealing_before : List (Event ℕ)
stealing_before =
    testing (some 7) (pos 0)
    ∷ pushing (λ i. true) 0 0
    ∷ working 1 false
    ∷ working 1 true
    ∷ working 1 true
    ∷ working 0 false
    ∷ working 0 false
    ∷ working 0 false
    ∷ working 0 false
    ∷ working 0 false
    ∷ []

abbrev stealing_after : List (Event ℕ)
stealing_after =
    stopping 0
    ∷ stopping 1
    ∷ testing (some 8) (negsuc 0)
    ∷ pushing (λ i. true) 0 0
    ∷ working 0 false
    ∷ working 1 false
    ∷ working 1 false
    ∷ working 1 false
    ∷ working 1 false
    ∷ working 1 false
    ∷ working 1 false
    ∷ []

abbrev stealing_run : List (Event ℕ)
stealing_run = stealing_before ++ halting ∷ stealing_after

called : (steps stealing_run (started 2 true)).1 ≡ 7 ∷ []
unfolding steps started said push_by_id push_checked push_at Queue.push Queue.pop Queue.try_pop_if
    Queue.stop
called = refl

steps-kept_example :
    sum_by (λ f. f) (steps stealing_run (started 2 true)).1
      + held (λ f. f) (steps stealing_run (started 2 true)).0
    ≡ sum_by (λ f. f) (all_taken_in stealing_run (started 2 true))
steps-kept_example = steps-kept (λ f. f) 2 true stealing_run

stealing_run-IsJoined : IsJoined (steps stealing_run (started 2 true)).0
unfolding steps started said push_by_id push_checked push_at Queue.push Queue.pop Queue.try_pop_if
    Queue.stop
stealing_run-IsJoined zero h = refl
stealing_run-IsJoined (suc zero) h = refl
stealing_run-IsJoined (suc (suc i)) h = absurd (omega arith)

joined-drained_example :
    sum_by (λ f. f) (steps stealing_run (started 2 true)).1
    ≡ sum_by (λ f. f) (all_taken_in stealing_run (started 2 true))
unfolding steps started said push_by_id push_checked push_at Queue.push Queue.pop Queue.try_pop_if
    Queue.stop
joined-drained_example =
    joined-drained (λ f. f) 2 true stealing_before stealing_after refl refl stealing_run-IsJoined

-- A call that has passed its test before the destructor sets `stop_` may be accepted when the thread
-- has ended: its function is not called.
abbrev late_push : List (Event ℕ)
late_push =
    testing (some 7) (pos 0) ∷ halting ∷ stopping 0 ∷ working 0 false ∷ pushing (λ i. true) 0 0 ∷ []

late_push-IsJoined : IsJoined (steps late_push (started 1 false)).0
unfolding steps started said push_by_id push_checked push_at Queue.push Queue.pop Queue.try_pop_if
    Queue.stop
late_push-IsJoined zero h = refl
late_push-IsJoined (suc i) h = absurd (omega arith)

late_push_lost :
    ((steps late_push (started 1 false)).1 ≡ [])
    × (all_taken_in late_push (started 1 false) ≡ 7 ∷ [])
    × IsJoined (steps late_push (started 1 false)).0
unfolding steps started all_taken_in taken_in said push_by_id push_checked push_at Queue.push
    Queue.pop Queue.try_pop_if Queue.stop
late_push_lost = (refl, refl, late_push-IsJoined)

-- An id below -1 passes the assertion and indexes the queues out of range.
negative_id :
    schedule_by_id {F = ℕ} (λ i. false) 5 (some 7) (negsuc 1) (thread_pool 2 true) ≡ faults
unfolding thread_pool schedule_by_id
negative_id = refl
