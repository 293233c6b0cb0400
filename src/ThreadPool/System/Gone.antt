-- ===== src/ThreadPool/System/Gone.antt =====
-- util/ThreadPool.h: a thread ends only when the pool is stopped and its queue is empty, and a queue
-- that is empty stays empty but for `scheduleById`.
use async_framework.Prelude.{
  ℕ, ◌+◌, ◌*◌, ◌%◌, ◌<◌, ◌≡◌, refl, sym, ◌∙◌, ◌⊎◌, inl, inr, Bool, true, false, none, some, List,
  [], ◌∷◌, ltb, Bool-cases, if◌then◌else◌, get_or-set-cases, get_or-set_here, arith,
}
use async_framework.Queue.{Queue, Popped, waits, refused, popped, new_queue, pop, try_pop_if}
use async_framework.ThreadPool.{WorkItem, ThreadPool, thread_num, queue_at, with_queue}
use async_framework.ThreadPool.System.{
  Place, stealing, popping, calling, gone, top, can_be_stolen, stolen, fetched, work_step,
}

module _ {ℓ} {F : Type ℓ} where
  abbrev pub IsEmpty : Queue (WorkItem F) → Type ℓ
  IsEmpty q = q.items ≡ []

  pop-IsEmpty : (q : Queue (WorkItem F)) → IsEmpty q → IsEmpty (pop q).0
  unfolding pop
  pop-IsEmpty q h = go q.items q.stopped h
    where
      go :
          (items : List (WorkItem F)) (stopped : Bool)
          → items ≡ []
          → IsEmpty (pop (record { items = items; stopped = stopped })).0
      go [] stopped h = refl
      go (item ∷ items) stopped h = absurd (ground (arith, h))

  try_pop_if-IsEmpty :
      (lock : Bool) (q : Queue (WorkItem F))
      → IsEmpty q
      → IsEmpty (try_pop_if lock (some can_be_stolen) q).0
  unfolding try_pop_if
  try_pop_if-IsEmpty false q h = h
  try_pop_if-IsEmpty true q h = go q.items q.stopped h
    where
      go :
          (items : List (WorkItem F)) (stopped : Bool)
          → items ≡ []
          → IsEmpty
              (try_pop_if true (some can_be_stolen) (record { items = items; stopped = stopped })).0
      go [] stopped h = refl
      go (item ∷ items) stopped h = absurd (ground (arith, h))

  -- A queue that is replaced by an emptier one.
  pub with_queue-IsEmpty :
      (pool : ThreadPool F) (k i : ℕ) (q : Queue (WorkItem F))
      → (IsEmpty (queue_at pool k) → IsEmpty q)
      → IsEmpty (queue_at pool i)
      → IsEmpty (queue_at (with_queue pool k q) i)
  with_queue-IsEmpty pool k i q less h = elim (get_or-set-cases pool.queues k i q new_queue) [
    | inl same ↦ rw same h
    | inr (e, here) ↦ rw here (less (rw e h))
  ]

  pub work_step-IsEmpty :
      (id i : ℕ) (lock : Bool) (place : Place F) (pool : ThreadPool F)
      → IsEmpty (queue_at pool i)
      → IsEmpty (queue_at (work_step id lock place pool).0 i)
  unfolding work_step
  work_step-IsEmpty id i lock (stealing n) pool h =
      let k = (n + id) % thread_num pool in
      elim (Bool-cases (ltb n (thread_num pool * 2))) [
        | inl round ↦
            rw (work_step, round)
              (with_queue-IsEmpty pool k i _ (try_pop_if-IsEmpty lock (queue_at pool k)) h)
        | inr over ↦ rw (work_step, over) h
      ]
  work_step-IsEmpty id i lock popping pool h =
      with_queue-IsEmpty pool id i _ (pop-IsEmpty (queue_at pool id)) h
  work_step-IsEmpty id i lock (calling f) pool h = h
  work_step-IsEmpty id i lock gone pool h = h

  pub work_step-stop_ :
      (id : ℕ) (lock : Bool) (place : Place F) (pool : ThreadPool F)
      → (work_step id lock place pool).0.stop_ ≡ pool.stop_
  unfolding work_step
  work_step-stop_ id lock (stealing n) pool = elim (Bool-cases (ltb n (thread_num pool * 2))) [
    | inl round ↦ rw (work_step, round) refl
    | inr over ↦ rw (work_step, over) refl
  ]
  work_step-stop_ id lock popping pool = refl
  work_step-stop_ id lock (calling f) pool = refl
  work_step-stop_ id lock gone pool = refl

  abbrev pub is_gone : Place F → Bool
  is_gone gone = true
  is_gone _ = false

  pub top-is_gone : (pool : ThreadPool F) → is_gone (top pool) ≡ false
  top-is_gone pool =
      elim pool.enable_work_steal as (λ b. is_gone (if b then stealing 0 else popping) ≡ false) [
        | true ↦ refl
        | false ↦ refl
      ]

  stolen-is_gone : (n : ℕ) (out : Popped (WorkItem F)) → is_gone (stolen n out) ≡ false
  stolen-is_gone n waits = refl
  stolen-is_gone n refused = refl
  stolen-is_gone n (popped item) =
      elim item.fn as (λ f. is_gone (elim f [ some f ↦ calling f | none ↦ popping ]) ≡ false) [
        | none ↦ refl
        | some f ↦ refl
      ]

  fetched-is_gone :
      (pool : ThreadPool F) (item : WorkItem F) → is_gone (fetched pool (popped item)) ≡ false
  fetched-is_gone pool item =
      elim item.fn as (λ f. is_gone (elim f [ some f ↦ calling f | none ↦ top pool ]) ≡ false) [
        | none ↦ top-is_gone pool
        | some f ↦ refl
      ]

  refused-is_gone : (pool : ThreadPool F) → is_gone (fetched pool refused) ≡ pool.stop_
  refused-is_gone pool = elim pool.stop_ as (λ b. is_gone (if b then gone else top pool) ≡ b) [
    | true ↦ refl
    | false ↦ top-is_gone pool
  ]

  pop-is_gone :
      (pool : ThreadPool F) (q : Queue (WorkItem F))
      → is_gone (fetched pool (pop q).1) ≡ true
      → (pool.stop_ ≡ true) × IsEmpty (pop q).0
  unfolding pop
  pop-is_gone pool q e = go q.items q.stopped e
    where
      go :
          (items : List (WorkItem F)) (stopped : Bool)
          → let q : Queue (WorkItem F) = record { items = items; stopped = stopped } in
            is_gone (fetched pool (pop q).1) ≡ true → (pool.stop_ ≡ true) × IsEmpty (pop q).0
      go [] true e = (sym (refused-is_gone pool) ∙ e, refl)
      go [] false e = absurd (ground (arith, e))
      go (item ∷ items) stopped e = absurd (ground (arith, e, fetched-is_gone pool item))

  -- A thread ends where `pop` is refused by a stopped pool.
  pub work_step-gone :
      (id : ℕ) (lock : Bool) (place : Place F) (pool : ThreadPool F)
      → id < thread_num pool
      → is_gone (work_step id lock place pool).1 ≡ true
      → (is_gone place ≡ true)
        ⊎ ((pool.stop_ ≡ true) × IsEmpty (queue_at (work_step id lock place pool).0 id))
  unfolding work_step
  work_step-gone id lock (stealing n) pool h e =
      let k = (n + id) % thread_num pool in
      let r = try_pop_if lock (some can_be_stolen) (queue_at pool k) in
      absurd (elim (Bool-cases (ltb n (thread_num pool * 2))) [
        | inl round ↦ ground (arith, stolen-is_gone n r.1, rw (work_step, round) at e)
        | inr over ↦ ground (arith, rw (work_step, over) at e)
      ])
  work_step-gone id lock popping pool h e =
      let (stopped, empty) = pop-is_gone pool (queue_at pool id) e in
      inr
        (stopped, rw (get_or-set_here pool.queues id (pop (queue_at pool id)).0 new_queue h) empty)
  work_step-gone id lock (calling f) pool h e = absurd (ground (arith, e, top-is_gone pool))
  work_step-gone id lock gone pool h e = inl refl
