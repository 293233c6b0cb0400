-- ===== src/ThreadPool/Schedule.antt =====
-- util/ThreadPool.h: what `scheduleById` answers.
use async_framework.Prelude.{
  ℕ, zero, suc, ◌%◌, ◌<◌, ◌≡◌, refl, ap, ◌∙◌, Bool, true, false, Option, none, some, ltb, ltb-true,
  ◌==◌, if◌then◌else◌, arith,
}
use async_framework.Prelude.Outcome.{Outcome, returns, faults}
use async_framework.Queue.{push}
use async_framework.ThreadPool.{
  WorkItem, error_none, error_pool_has_stop, ℤ, pos, negsuc, ThreadPool, thread_num, queue_at,
  with_queue, push_at, push_random, pushed_or, push_anywhere, push_checked, push_by_id, done,
  schedule_by_id,
}

-- An id that the pool can serve: a thread's, or -1 for any.
abbrev pub IsId : ℕ → ℤ → Type 0
IsId n (pos id) = id < n
IsId n (negsuc zero) = 0 < n
IsId n (negsuc (suc k)) = ⊥

module _ {ℓ} {F : Type ℓ} where
  Pushes : Outcome (ThreadPool F) → Type ℓ
  Pushes o = (pool' : ThreadPool F) × (o ≡ returns pool')

  push_at-Pushes :
      (k : ℕ) (item : WorkItem F) (pool : ThreadPool F)
      → k < thread_num pool
      → Pushes (push_at k item pool)
  unfolding push_at Pushes
  push_at-Pushes k item pool h =
      let within : ltb k (thread_num pool) ≡ true = ground arith in
      (with_queue pool k (push item (queue_at pool k)), rw (push_at, within) refl)

  push_random-Pushes :
      (rand : ℕ) (item : WorkItem F) (pool : ThreadPool F)
      → 0 < thread_num pool
      → Pushes (push_random rand item pool)
  unfolding push_random
  push_random-Pushes rand item pool h =
      let threads : (thread_num pool == 0) ≡ false = ground arith in
      rw (push_random, threads) (push_at-Pushes (rand % thread_num pool) item pool (omega arith))

  pushed_or-Pushes :
      (o : Option (ThreadPool F)) (rand : ℕ) (item : WorkItem F) (pool : ThreadPool F)
      → 0 < thread_num pool
      → Pushes (pushed_or o rand item pool)
  unfolding pushed_or push_random Pushes
  pushed_or-Pushes none rand item pool h = push_random-Pushes rand item pool h
  pushed_or-Pushes (some pool') rand item pool h = (pool', refl)

  push_by_id-Pushes :
      (locks : ℕ → Bool) (rand : ℕ) (item : WorkItem F) (id : ℤ) (pool : ThreadPool F)
      → IsId (thread_num pool) id
      → Pushes (push_by_id locks rand item id pool)
  unfolding push_by_id push_anywhere push_checked Pushes
  push_by_id-Pushes locks rand item (pos id) pool h =
      let (pool', e) = push_at-Pushes id item pool h in
      (
        pool',
        ap (λ (b : Bool). if b then push_at id item pool else faults)
              (ltb-true id (thread_num pool) h)
            ∙ e,
      )
  push_by_id-Pushes locks rand item (negsuc zero) pool h = pushed_or-Pushes _ rand item pool h
  push_by_id-Pushes locks rand item (negsuc (suc k)) pool h = absurd h

  schedule-running :
      (locks : ℕ → Bool) (rand : ℕ) (f : F) (id : ℤ) (pool : ThreadPool F)
      → pool.stop_ ≡ false
      → schedule_by_id locks rand (some f) id pool
        ≡ done (push_by_id locks rand (record { can_steal = true; fn = some f }) id pool)
  unfolding schedule_by_id
  schedule-running locks rand f id pool h =
      let o = done (push_by_id locks rand (record { can_steal = true; fn = some f }) id pool) in
      ap (λ (b : Bool). if b then returns (pool, error_pool_has_stop) else o) h

  -- A pool that is not stopped accepts every function for each of its threads and for any of them,
  -- also when no `try_push` gets its lock.
  pub schedule-accepts :
      (locks : ℕ → Bool) (rand : ℕ) (f : F) (id : ℤ) (pool : ThreadPool F)
      → pool.stop_ ≡ false
      → IsId (thread_num pool) id
      → (pool' : ThreadPool F) × (schedule_by_id locks rand (some f) id pool
          ≡ returns (pool', error_none))
  unfolding Pushes
  schedule-accepts locks rand f id pool running h =
      let item : WorkItem F = record { can_steal = true; fn = some f } in
      let (pool', e) = push_by_id-Pushes locks rand item id pool h in
      (pool', schedule-running locks rand f id pool running ∙ ap done e)
