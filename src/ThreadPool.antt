-- ===== src/ThreadPool.antt =====
-- util/ThreadPool.h: a pool of threads, each with a queue of util/Queue.h. Each call of a queue is
-- one critical section. `F` stands for the functions that are scheduled, `none` for a null
-- `std::function`. Binding threads to cores is left out.
pub mod System
pub mod Schedule
mod Tests
use async_framework.Prelude.{
  ℕ, zero, suc, ◌+◌, ◌*◌, ◌-◌, ◌^◌, ◌%◌, Bool, true, false, Option, none, some, List, [], ◌∷◌, ltb,
  ◌==◌, if◌then◌else◌, length, get_or, set, sum_by,
}
use async_framework.Prelude.Outcome.{Outcome, returns, throws, faults}
use async_framework.Queue.{
  Queue, Popped, waits, refused, popped, new_queue, push, try_push, pop, try_pop_if, stop,
}
use async_framework.Queue

pub record WorkItem {ℓ} (F : Type ℓ) : Type ℓ where
  pub can_steal : Bool
  pub fn : Option F

pub data ErrorType : Type 0 where
  error_none error_pool_has_stop error_pool_item_is_null : ErrorType

-- A signed number of 32 bits: `pos n` is n, and `negsuc n` is -1 - n.
pub data ℤ : Type 0 where
  pos negsuc : ℕ → ℤ

-- `assert(id < threadNum_)`, and the index that the id is converted to.
abbrev pub is_below : ℤ → ℕ → Bool
is_below (pos id) threads = ltb id threads
is_below (negsuc n) threads = true

abbrev pub to_index : ℤ → ℕ
to_index (pos id) = id
to_index (negsuc n) = 2 ^ 64 - 1 - n

-- threadNum_ is the number of the queues.
pub record ThreadPool {ℓ} (F : Type ℓ) : Type ℓ where
  pub queues : List (Queue (WorkItem F))
  pub stop_ : Bool
  pub enable_work_steal : Bool

module _ {ℓ} {F : Type ℓ} where
  abbrev pub new_queues : ℕ → List (Queue (WorkItem F))
  new_queues zero = []
  new_queues (suc n) = new_queue ∷ new_queues n

  unfoldable pub thread_pool : ℕ → Bool → ThreadPool F
  thread_pool thread_num enable_work_steal = record {
    queues = new_queues thread_num;
    stop_ = false;
    enable_work_steal = enable_work_steal;
  }

  abbrev pub thread_num : ThreadPool F → ℕ
  thread_num pool = length pool.queues

  abbrev pub queue_at : ThreadPool F → ℕ → Queue (WorkItem F)
  queue_at pool i = get_or pool.queues i new_queue

  abbrev pub with_queue : ThreadPool F → ℕ → Queue (WorkItem F) → ThreadPool F
  with_queue pool i q = record pool { queues = set pool.queues i q }

  -- `queues_[i].push(item)`; out of range it is undefined.
  unfoldable pub push_at : ℕ → WorkItem F → ThreadPool F → Outcome (ThreadPool F)
  unfolding push
  push_at i item pool =
      if ltb i (thread_num pool)
      then returns (with_queue pool i (push item (queue_at pool i)))
      else faults

  -- The loop of `try_push`, with the rounds left and the round's number; `locks i` is whether round
  -- `i` gets the lock. `none` when no round does.
  unfoldable pub try_push_loop :
      (ℕ → Bool) → ℕ → ℕ → WorkItem F → ThreadPool F → Option (ThreadPool F)
  unfolding try_push
  try_push_loop locks zero i item pool = none
  try_push_loop locks (suc left) i item pool =
      let k = i % thread_num pool in
      let (q, ok) = try_push (locks i) item (queue_at pool k) in
      let rest = try_push_loop locks left (i + 1) item pool in
      if ok then some (with_queue pool k q) else rest

  -- `std::rand() % threadNum_` for what `std::rand()` gave.
  unfoldable pub push_random : ℕ → WorkItem F → ThreadPool F → Outcome (ThreadPool F)
  unfolding push_at
  push_random rand item pool =
      if thread_num pool == 0 then faults else push_at (rand % thread_num pool) item pool

  abbrev pub done : Outcome (ThreadPool F) → Outcome (ThreadPool F × ErrorType)
  done (returns pool) = returns (pool, error_none)
  done (throws e) = throws e
  done faults = faults

  abbrev pub pushed_or :
      Option (ThreadPool F) → ℕ → WorkItem F → ThreadPool F → Outcome (ThreadPool F)
  unfolding push_random
  pushed_or (some pool') rand item pool = returns pool'
  pushed_or none rand item pool = push_random rand item pool

  abbrev pub push_anywhere : (ℕ → Bool) → ℕ → WorkItem F → ThreadPool F → Outcome (ThreadPool F)
  unfolding try_push_loop pushed_or
  push_anywhere locks rand item pool =
      pushed_or
        (if pool.enable_work_steal
          then try_push_loop locks (thread_num pool * 2) 0 item pool
          else none)
        rand item pool

  abbrev pub push_checked : WorkItem F → ℤ → ThreadPool F → Outcome (ThreadPool F)
  unfolding push_at
  push_checked item id pool =
      if is_below id (thread_num pool) then push_at (to_index id) item pool else faults

  abbrev pub push_by_id : (ℕ → Bool) → ℕ → WorkItem F → ℤ → ThreadPool F → Outcome (ThreadPool F)
  unfolding push_anywhere push_checked
  push_by_id locks rand item (negsuc zero) pool = push_anywhere locks rand item pool
  push_by_id locks rand item id pool = push_checked item id pool

  unfoldable pub schedule_by_id :
      (ℕ → Bool) → ℕ → Option F → ℤ → ThreadPool F → Outcome (ThreadPool F × ErrorType)
  unfolding push_by_id
  schedule_by_id locks rand none id pool = returns (pool, error_pool_item_is_null)
  schedule_by_id locks rand (some f) id pool =
      if pool.stop_
      then returns (pool, error_pool_has_stop)
      else done (push_by_id locks rand (record { can_steal = true; fn = some f }) id pool)

  unfoldable pub get_item_count : ThreadPool F → ℕ
  unfolding Queue.size
  get_item_count pool = sum_by Queue.size pool.queues

-- The thread's `current`, the id and the pool whose thread it is, if it is one.
unfoldable pub get_current_id : ℕ → Option (ℕ × ℕ) → ℤ
get_current_id this none = negsuc 0
get_current_id this (some (id, pool)) = if pool == this then pos id else negsuc 0
