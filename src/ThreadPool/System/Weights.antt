-- ===== src/ThreadPool/System/Weights.antt =====
-- util/ThreadPool.h: what queues, items and places weigh, for a weight of each function, and the
-- steps of a thread.
use async_framework.Prelude.{
  ℕ, ◌+◌, ◌*◌, ◌%◌, ◌<◌, ◌≡◌, refl, inl, inr, Bool, true, false, Option, none, some, List, [], ◌∷◌,
  ltb, Bool-cases, if◌then◌else◌, sum_by, sum_by-set, arith,
}
use async_framework.Queue.{Queue, Popped, waits, refused, popped, new_queue, pop, try_pop_if}
use async_framework.ThreadPool.{WorkItem, ThreadPool, thread_num, queue_at, with_queue}
use async_framework.ThreadPool.System.{
  Place, stealing, popping, calling, gone, System, top, can_be_stolen, stolen, fetched, work_step,
}

module _ {ℓ} {F : Type ℓ} (w : F → ℕ) where
  abbrev pub weight : Option F → ℕ
  weight none = 0
  weight (some f) = w f

  abbrev pub weight_of_item : WorkItem F → ℕ
  weight_of_item item = weight item.fn

  abbrev pub weight_of_queue : Queue (WorkItem F) → ℕ
  weight_of_queue q = sum_by weight_of_item q.items

  abbrev pub weight_of_place : Place F → ℕ
  weight_of_place (calling f) = w f
  weight_of_place _ = 0

  abbrev pub queued : ThreadPool F → ℕ
  queued pool = sum_by weight_of_queue pool.queues

  abbrev pub held : System F → ℕ
  held s = queued s.pool + sum_by weight_of_place s.places

  abbrev pub popped_weight : Popped (WorkItem F) → ℕ
  popped_weight (popped item) = weight_of_item item
  popped_weight _ = 0

  pop-weight :
      (q : Queue (WorkItem F))
      → weight_of_queue (pop q).0 + popped_weight (pop q).1 ≡ weight_of_queue q
  unfolding pop
  pop-weight q = go q.items q.stopped
    where
      go :
          (items : List (WorkItem F)) (stopped : Bool)
          → let q : Queue (WorkItem F) = record { items = items; stopped = stopped } in
            weight_of_queue (pop q).0 + popped_weight (pop q).1 ≡ weight_of_queue q
      go [] true = refl
      go [] false = refl
      go (item ∷ items) stopped = omega arith

  try_pop_if-weight :
      (lock : Bool) (q : Queue (WorkItem F))
      → let r = try_pop_if lock (some can_be_stolen) q in
        weight_of_queue r.0 + popped_weight r.1 ≡ weight_of_queue q
  unfolding try_pop_if
  try_pop_if-weight false q = omega arith
  try_pop_if-weight true q = go q.items q.stopped
    where
      go :
          (items : List (WorkItem F)) (stopped : Bool)
          → let q : Queue (WorkItem F) = record { items = items; stopped = stopped } in
            let r = try_pop_if true (some can_be_stolen) q in
            weight_of_queue r.0 + popped_weight r.1 ≡ weight_of_queue q
      go [] stopped = refl
      go (item ∷ items) stopped = elim (Bool-cases item.can_steal) [
        | inl steal ↦ rw steal (omega arith)
        | inr keep ↦ rw keep (omega arith)
      ]

  stolen-weight :
      (i : ℕ) (out : Popped (WorkItem F)) → weight_of_place (stolen i out) ≡ popped_weight out
  stolen-weight i waits = refl
  stolen-weight i refused = refl
  stolen-weight i (popped item) =
      elim item.fn
        as (λ f. weight_of_place (elim f [ some f ↦ calling f | none ↦ popping ]) ≡ weight f) [
          | none ↦ refl
          | some f ↦ refl
        ]

  pub top-weight : (pool : ThreadPool F) → weight_of_place (top pool) ≡ 0
  top-weight pool =
      elim pool.enable_work_steal
        as (λ b. weight_of_place (if b then stealing 0 else popping) ≡ 0) [
          | true ↦ refl
          | false ↦ refl
        ]

  fetched-weight :
      (pool : ThreadPool F) (out : Popped (WorkItem F))
      → weight_of_place (fetched pool out) ≡ popped_weight out
  fetched-weight pool waits = refl
  fetched-weight pool refused =
      elim pool.stop_ as (λ b. weight_of_place (if b then gone else top pool) ≡ 0) [
        | true ↦ refl
        | false ↦ top-weight pool
      ]
  fetched-weight pool (popped item) =
      elim item.fn
        as (λ f. weight_of_place (elim f [ some f ↦ calling f | none ↦ top pool ]) ≡ weight f) [
          | none ↦ top-weight pool
          | some f ↦ refl
        ]

  pub with_queue-queued :
      (pool : ThreadPool F) (k : ℕ) (q : Queue (WorkItem F))
      → k < thread_num pool
      → queued (with_queue pool k q) + weight_of_queue (queue_at pool k)
        ≡ queued pool + weight_of_queue q
  with_queue-queued pool k q h = sum_by-set weight_of_queue pool.queues k q new_queue h

  -- A step of a thread.
  pub work_step-weight :
      (id : ℕ) (lock : Bool) (place : Place F) (pool : ThreadPool F)
      → id < thread_num pool
      → let r = work_step id lock place pool in
        sum_by w r.2 + queued r.0 + weight_of_place r.1 ≡ queued pool + weight_of_place place
  unfolding work_step
  work_step-weight id lock (stealing i) pool h =
      let k = (i + id) % thread_num pool in
      let r = try_pop_if lock (some can_be_stolen) (queue_at pool k) in
      elim (Bool-cases (ltb i (thread_num pool * 2))) [
        | inl round ↦
            rw (work_step, round)
              (omega (
                arith,
                with_queue-queued pool k r.0 (omega arith),
                stolen-weight i r.1,
                try_pop_if-weight lock (queue_at pool k),
              ))
        | inr over ↦ rw (work_step, over) (omega arith)
      ]
  work_step-weight id lock popping pool h =
      let r = pop (queue_at pool id) in
      omega (
        arith,
        with_queue-queued pool id r.0 h,
        fetched-weight pool r.1,
        pop-weight (queue_at pool id),
      )
  work_step-weight id lock (calling f) pool h = omega (arith, top-weight pool)
  work_step-weight id lock gone pool h = omega arith
