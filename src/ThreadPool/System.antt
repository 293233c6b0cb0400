-- ===== src/ThreadPool/System.antt =====
-- util/ThreadPool.h: the threads of a pool and those that schedule and destroy it. A step is one
-- critical section of a queue, a call of a function, the test of `stop_` in `scheduleById`, or the
-- rest of `scheduleById`, of which only one critical section changes a queue.
pub mod Weights
pub mod Pushed
pub mod Kept
pub mod Gone
pub mod Drained
use async_framework.Prelude.{
  ℕ, zero, suc, ◌+◌, ◌*◌, ◌%◌, Bool, true, false, Option, none, some, List, [], ◌∷◌, ◌++◌, ltb,
  ◌==◌, if◌then◌else◌, length, get_or, set,
}
use async_framework.Prelude.Outcome.{Outcome, returns, throws, faults}
use async_framework.Queue.{Queue, Popped, waits, refused, popped, pop, try_pop_if}
use async_framework.Queue
use async_framework.ThreadPool.{
  WorkItem, ErrorType, error_none, ℤ, ThreadPool, thread_pool, thread_num, queue_at, with_queue,
  push_by_id, done,
}

-- Where a thread stands in its loop: before round `i` of the loop that steals, before `pop`, before
-- the call of a function, or at its end.
pub data Place {ℓ} (F : Type ℓ) : Type ℓ where
  stealing : ℕ → Place F
  popping : Place F
  calling : F → Place F
  gone : Place F

-- `calls` are the calls of `scheduleById` that have passed the test of `stop_` and have not pushed.
pub record System {ℓ} (F : Type ℓ) : Type ℓ where
  pub pool : ThreadPool F
  pub places : List (Place F)
  pub calls : List (F × ℤ)

-- A thread of the pool with its id, where its next `try_pop_if` may get the lock or not; a call of
-- `scheduleById` up to its test of `stop_`, and the rest of one of those that have passed it; and the steps of the destructor, `stop_ = true` and the `stop` of a queue.
pub data Event {ℓ} (F : Type ℓ) : Type ℓ where
  working : ℕ → Bool → Event F
  testing : Option F → ℤ → Event F
  pushing : (ℕ → Bool) → ℕ → ℕ → Event F
  halting : Event F
  stopping : ℕ → Event F

module _ {ℓ} {F : Type ℓ} where
  -- The top of the thread's loop.
  abbrev pub top : ThreadPool F → Place F
  top pool = if pool.enable_work_steal then stealing 0 else popping

  abbrev pub can_be_stolen : WorkItem F → Bool
  can_be_stolen item = item.can_steal

  -- After the loop that steals, and after `pop`, with the item found.
  abbrev pub stolen : ℕ → Popped (WorkItem F) → Place F
  stolen i (popped item) = elim item.fn [ some f ↦ calling f | none ↦ popping ]
  stolen i _ = stealing (i + 1)

  abbrev pub fetched : ThreadPool F → Popped (WorkItem F) → Place F
  fetched pool (popped item) = elim item.fn [ some f ↦ calling f | none ↦ top pool ]
  fetched pool refused = if pool.stop_ then gone else top pool
  fetched pool waits = popping

  -- A step of thread `id`: the pool, where the thread stands then, and what it has called.
  unfoldable pub work_step : ℕ → Bool → Place F → ThreadPool F → ThreadPool F × Place F × List F
  unfolding pop try_pop_if
  work_step id lock (stealing i) pool =
      let k = (i + id) % thread_num pool in
      let (q, out) = try_pop_if lock (some can_be_stolen) (queue_at pool k) in
      if ltb i (thread_num pool * 2)
      then (with_queue pool k q, stolen i out, [])
      else (pool, popping, [])
  work_step id lock popping pool =
      let (q, out) = pop (queue_at pool id) in (with_queue pool id q, fetched pool out, [])
  work_step id lock (calling f) pool = (pool, top pool, f ∷ [])
  work_step id lock gone pool = (pool, gone, [])

  abbrev pub place_at : System F → ℕ → Place F
  place_at s id = get_or s.places id gone

  -- The pool after `scheduleById`; one that has no effect, or is undefined, changes nothing.
  abbrev pub scheduled : ThreadPool F → Outcome (ThreadPool F × ErrorType) → ThreadPool F
  scheduled pool (returns (pool', e)) = pool'
  scheduled pool _ = pool

  -- The calls after the test of one.
  abbrev pub tested : Option F → ℤ → Bool → List (F × ℤ) → List (F × ℤ)
  tested (some f) id false calls = calls ++ (f, id) ∷ []
  tested _ id stopped calls = calls

  abbrev pub call_at : List (F × ℤ) → ℕ → Option (F × ℤ)
  call_at [] k = none
  call_at (c ∷ calls) zero = some c
  call_at (c ∷ calls) (suc k) = call_at calls k

  abbrev pub without : List (F × ℤ) → ℕ → List (F × ℤ)
  without [] k = []
  without (c ∷ calls) zero = calls
  without (c ∷ calls) (suc k) = c ∷ without calls k

  unfoldable pub said : (ℕ → Bool) → ℕ → F → ℤ → ThreadPool F → Outcome (ThreadPool F × ErrorType)
  unfolding push_by_id
  said locks rand f id pool =
      done (push_by_id locks rand (record { can_steal = true; fn = some f }) id pool)

  -- The rest of a call.
  abbrev pub push_step : (ℕ → Bool) → ℕ → ℕ → Option (F × ℤ) → System F → System F
  push_step locks rand k none s = s
  push_step locks rand k (some (f, id)) s = record s {
    pool = scheduled s.pool (said locks rand f id s.pool);
    calls = without s.calls k;
  }

  -- The system after an event, and the functions called.
  unfoldable pub step : Event F → System F → System F × List F
  unfolding work_step Queue.stop
  step (working id lock) s =
      let (pool, place, ran) = work_step id lock (place_at s id) s.pool in
      if ltb id (length s.places)
      then (record s { pool = pool; places = set s.places id place }, ran)
      else (s, [])
  step (testing fn id) s = (record s { calls = tested fn id s.pool.stop_ s.calls }, [])
  step (pushing locks rand k) s = (push_step locks rand k (call_at s.calls k) s, [])
  step halting s = (record s { pool = record s.pool { stop_ = true } }, [])
  step (stopping i) s =
      (record s { pool = with_queue s.pool i (Queue.stop (queue_at s.pool i)) }, [])

  -- The system after the events, and all functions called, in order.
  unfoldable pub steps : List (Event F) → System F → System F × List F
  unfolding step
  steps [] s = (s, [])
  steps (e ∷ events) s =
      let (s', ran) = step e s in let (s'', rest) = steps events s' in (s'', ran ++ rest)

  -- What an event puts into the pool: the function, if `scheduleById` answers that there is no
  -- error.
  abbrev pub accepted : Option F → Outcome (ThreadPool F × ErrorType) → List F
  accepted (some f) (returns (pool, error_none)) = f ∷ []
  accepted _ _ = []

  abbrev pub taken_by : (ℕ → Bool) → ℕ → Option (F × ℤ) → ThreadPool F → List F
  taken_by locks rand none pool = []
  taken_by locks rand (some (f, id)) pool = accepted (some f) (said locks rand f id pool)

  unfoldable pub taken_in : Event F → System F → List F
  taken_in (pushing locks rand k) s = taken_by locks rand (call_at s.calls k) s.pool
  taken_in _ s = []

  unfoldable pub all_taken_in : List (Event F) → System F → List F
  unfolding taken_in step
  all_taken_in [] s = []
  all_taken_in (e ∷ events) s = taken_in e s ++ all_taken_in events (step e s).0

  abbrev pub new_places : ℕ → Place F → List (Place F)
  new_places zero place = []
  new_places (suc n) place = place ∷ new_places n place

  unfoldable pub started : ℕ → Bool → System F
  unfolding thread_pool
  started thread_num enable_work_steal =
      let pool = thread_pool thread_num enable_work_steal in
      record { pool = pool; places = new_places thread_num (top pool); calls = [] }
