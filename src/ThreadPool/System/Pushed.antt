-- ===== src/ThreadPool/System/Pushed.antt =====
-- util/ThreadPool.h: what `scheduleById` puts into the pool.
use async_framework.Prelude.{
  ℕ, zero, suc, ◌+◌, ◌*◌, ◌%◌, ◌<◌, ◌≡◌, refl, inl, inr, Bool, true, false, Option, none, some, [],
  ◌∷◌, ◌++◌, ltb, ◌==◌, Bool-cases, if◌then◌else◌, length-set, sum_by, sum_by-append, arith,
}
use async_framework.Prelude.Outcome.{Outcome, returns, throws, faults}
use async_framework.Queue.{push, try_push}
use async_framework.ThreadPool.{
  WorkItem, ErrorType, ℤ, pos, negsuc, ThreadPool, thread_num, queue_at, with_queue, push_at,
  try_push_loop, push_random, pushed_or, push_anywhere, is_below, to_index, push_checked,
  push_by_id, done,
}
use async_framework.ThreadPool.System.{scheduled, accepted}
use async_framework.ThreadPool.System.Weights.{weight_of_item, queued, with_queue-queued}

module _ {ℓ} {F : Type ℓ} (w : F → ℕ) where
  -- A pool that holds `n` more, and is otherwise the same.
  abbrev pub More : ℕ → ThreadPool F → ThreadPool F → Type 0
  More n pool pool' =
      (queued w pool' ≡ queued w pool + n)
      × (thread_num pool' ≡ thread_num pool)
      × (pool'.stop_ ≡ pool.stop_)

  abbrev pub MoreIf : ℕ → ThreadPool F → Outcome (ThreadPool F) → Type 0
  MoreIf n pool (returns pool') = More n pool pool'
  MoreIf n pool _ = Unit {0}

  abbrev pub MoreOr : ℕ → ThreadPool F → Option (ThreadPool F) → Type 0
  MoreOr n pool (some pool') = More n pool pool'
  MoreOr n pool none = Unit {0}

  pushed-More :
      (k : ℕ) (item : WorkItem F) (pool : ThreadPool F)
      → k < thread_num pool
      → let q = queue_at pool k in
        More
          (weight_of_item w item)
          pool
          (with_queue pool k (record q { items = q.items ++ item ∷ [] }))
  pushed-More k item pool h =
      let q = queue_at pool k in
      (
        omega (
          arith,
          with_queue-queued w pool k (record q { items = q.items ++ item ∷ [] }) h,
          sum_by-append (weight_of_item w) q.items (item ∷ []),
        ),
        length-set pool.queues k _,
        refl,
      )

  push_at-More :
      (k : ℕ) (item : WorkItem F) (pool : ThreadPool F)
      → MoreIf (weight_of_item w item) pool (push_at k item pool)
  unfolding push_at push
  push_at-More k item pool = elim (Bool-cases (ltb k (thread_num pool))) [
    | inl within ↦ rw (push_at, within) (pushed-More k item pool (ground arith))
    | inr beyond ↦ rw (push_at, beyond) (record {})
  ]

  try_push_loop-More :
      (locks : ℕ → Bool) (rounds i : ℕ) (item : WorkItem F) (pool : ThreadPool F)
      → 0 < thread_num pool
      → MoreOr (weight_of_item w item) pool (try_push_loop locks rounds i item pool)
  unfolding try_push_loop try_push
  try_push_loop-More locks zero i item pool h = record {}
  try_push_loop-More locks (suc rounds) i item pool h = elim (Bool-cases (locks i)) [
    | inl got ↦ rw (try_push_loop, got) (pushed-More (i % thread_num pool) item pool (omega arith))
    | inr not_got ↦
        rw (try_push_loop, not_got) (try_push_loop-More locks rounds (i + 1) item pool h)
  ]

  push_random-More :
      (rand : ℕ) (item : WorkItem F) (pool : ThreadPool F)
      → MoreIf (weight_of_item w item) pool (push_random rand item pool)
  unfolding push_random
  push_random-More rand item pool = elim (Bool-cases (thread_num pool == 0)) [
    | inl no_thread ↦ rw (push_random, no_thread) (record {})
    | inr threads ↦ rw (push_random, threads) (push_at-More (rand % thread_num pool) item pool)
  ]

  try_push_all-More :
      (locks : ℕ → Bool) (item : WorkItem F) (pool : ThreadPool F)
      → MoreOr (weight_of_item w item) pool (try_push_loop locks (thread_num pool * 2) 0 item pool)
  unfolding try_push_loop
  try_push_all-More locks item pool = elim (Bool-cases (thread_num pool == 0)) [
    | inl no_thread ↦
        let no_round : thread_num pool * 2 ≡ 0 = ground arith in rw no_round (record {})
    | inr threads ↦ try_push_loop-More locks (thread_num pool * 2) 0 item pool (ground arith)
  ]

  pushed_or-More :
      (rand : ℕ) (item : WorkItem F) (pool : ThreadPool F) (o : Option (ThreadPool F))
      → MoreOr (weight_of_item w item) pool o
      → MoreIf (weight_of_item w item) pool (pushed_or o rand item pool)
  unfolding pushed_or push_random
  pushed_or-More rand item pool none h = push_random-More rand item pool
  pushed_or-More rand item pool (some pool') h = h

  push_checked-More :
      (item : WorkItem F) (id : ℤ) (pool : ThreadPool F)
      → MoreIf (weight_of_item w item) pool (push_checked item id pool)
  unfolding push_checked
  push_checked-More item id pool =
      elim (is_below id (thread_num pool))
        as (λ b.
          MoreIf (weight_of_item w item) pool
            (if b then push_at (to_index id) item pool else faults)) [
              | true ↦ push_at-More (to_index id) item pool
              | false ↦ record {}
            ]

  push_by_id-More :
      (locks : ℕ → Bool) (rand : ℕ) (item : WorkItem F) (id : ℤ) (pool : ThreadPool F)
      → MoreIf (weight_of_item w item) pool (push_by_id locks rand item id pool)
  unfolding push_by_id push_anywhere push_checked
  push_by_id-More locks rand item (pos id) pool = push_checked-More item (pos id) pool
  push_by_id-More locks rand item (negsuc (suc n)) pool =
      push_checked-More item (negsuc (suc n)) pool
  push_by_id-More locks rand item (negsuc zero) pool =
      elim pool.enable_work_steal
        as (λ b. MoreIf (weight_of_item w item) pool (
          pushed_or (if b then try_push_loop locks (thread_num pool * 2) 0 item pool else none) rand
            item pool)) [
              | true ↦
                  pushed_or-More rand item pool
                    (try_push_loop locks (thread_num pool * 2) 0 item pool)
                    (try_push_all-More locks item pool)
              | false ↦ push_random-More rand item pool
            ]

  unfoldable pub MoreSaid : Option F → ThreadPool F → Outcome (ThreadPool F × ErrorType) → Type 0
  MoreSaid fn pool o = More (sum_by w (accepted fn o)) pool (scheduled pool o)

  done-More :
      (f : F) (pool : ThreadPool F) (o : Outcome (ThreadPool F))
      → MoreIf (w f) pool o
      → MoreSaid (some f) pool (done o)
  unfolding MoreSaid
  done-More f pool (returns pool') h = (omega (arith, h.0), h.1, h.2)
  done-More f pool (throws e) h = (omega arith, refl, refl)
  done-More f pool faults h = (omega arith, refl, refl)

  pub push_by_id-MoreSaid :
      (locks : ℕ → Bool) (rand : ℕ) (f : F) (id : ℤ) (pool : ThreadPool F)
      → MoreSaid
          (some f)
          pool
          (done (push_by_id locks rand (record { can_steal = true; fn = some f }) id pool))
  push_by_id-MoreSaid locks rand f id pool =
      done-More f pool _ (push_by_id-More locks rand _ id pool)
