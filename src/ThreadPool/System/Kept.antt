-- ===== src/ThreadPool/System/Kept.antt =====
-- util/ThreadPool.h: no function is lost and none is called twice. Functions are counted by a weight
-- for each: for every weight, what has been called and what the pool holds weigh as much as what has
-- been put in.
use async_framework.Prelude.{
  ℕ, zero, suc, ◌+◌, ◌*◌, ◌%◌, ◌≡◌, refl, sym, ap, ◌∙◌, inl, inr, Bool, Option, none, some, List,
  [], ◌∷◌, ltb, Bool-cases, length, length-set, sum_by, sum_by-append, sum_by-set, sum_by-set_same,
  arith,
}
use async_framework.Queue
use async_framework.Queue.{new_queue}
use async_framework.ThreadPool.{
  ℤ, ThreadPool, thread_pool, new_queues, thread_num, queue_at, with_queue,
}
use async_framework.ThreadPool.System.{
  Place, stealing, popping, calling, gone, System, Event, working, testing, pushing, halting,
  stopping, top, call_at, push_step, said, taken_by, work_step, place_at, step, steps, taken_in,
  all_taken_in, started, new_places,
}
use async_framework.ThreadPool.System.Weights.{
  weight_of_queue, weight_of_place, queued, held, work_step-weight, top-weight,
}
use async_framework.ThreadPool.System.Pushed.{MoreSaid, push_by_id-MoreSaid}

module _ {ℓ} {F : Type ℓ} where
  -- A thread for each queue.
  abbrev pub IsManned : System F → Type 0
  IsManned s = length s.places ≡ thread_num s.pool

  pub work_step-thread_num :
      (id : ℕ) (lock : Bool) (place : Place F) (pool : ThreadPool F)
      → thread_num (work_step id lock place pool).0 ≡ thread_num pool
  unfolding work_step
  work_step-thread_num id lock (stealing i) pool = elim (Bool-cases (ltb i (thread_num pool * 2))) [
    | inl round ↦ rw (work_step, round) (length-set pool.queues ((i + id) % thread_num pool) _)
    | inr over ↦ rw (work_step, over) refl
  ]
  work_step-thread_num id lock popping pool = length-set pool.queues id _
  work_step-thread_num id lock (calling f) pool = refl
  work_step-thread_num id lock gone pool = refl

  push_step-IsManned :
      (locks : ℕ → Bool) (rand k : ℕ) (c : Option (F × ℤ)) (s : System F)
      → IsManned s
      → IsManned (push_step locks rand k c s)
  unfolding MoreSaid said
  push_step-IsManned locks rand k none s h = h
  push_step-IsManned locks rand k (some (f, id)) s h =
      h ∙ sym (push_by_id-MoreSaid (λ f. 0) locks rand f id s.pool).1

  pub step-IsManned : (e : Event F) (s : System F) → IsManned s → IsManned (step e s).0
  unfolding step MoreSaid
  step-IsManned (working id lock) s h = elim (Bool-cases (ltb id (length s.places))) [
    | inl within ↦
        rw (step, within)
          (length-set s.places id _ ∙ h ∙ sym (work_step-thread_num id lock (place_at s id) s.pool))
    | inr beyond ↦ rw (step, beyond) h
  ]
  step-IsManned (testing fn id) s h = h
  step-IsManned (pushing locks rand k) s h = push_step-IsManned locks rand k (call_at s.calls k) s h
  step-IsManned halting s h = h
  step-IsManned (stopping i) s h = h ∙ sym (length-set s.pool.queues i _)

  length-new_places : (n : ℕ) (place : Place F) → length (new_places n place) ≡ n
  length-new_places zero place = refl
  length-new_places (suc n) place = ap suc (length-new_places n place)

length-new_queues {ℓ} : (F : Type ℓ) (n : ℕ) → length (new_queues {F = F} n) ≡ n
length-new_queues F zero = refl
length-new_queues F (suc n) = ap suc (length-new_queues F n)

pub started-IsManned {ℓ} :
    (F : Type ℓ) (threads : ℕ) (enable_work_steal : Bool)
    → IsManned (started {F = F} threads enable_work_steal)
unfolding started thread_pool
started-IsManned F n steal = length-new_places n _ ∙ sym (length-new_queues F n)

module _ {ℓ} {F : Type ℓ} (w : F → ℕ) where
  stop-queued :
      (pool : ThreadPool F) (i : ℕ)
      → queued w (with_queue pool i (Queue.stop (queue_at pool i))) ≡ queued w pool
  unfolding Queue.stop
  stop-queued pool i =
      sum_by-set_same (weight_of_queue w) pool.queues i (Queue.stop (queue_at pool i)) new_queue
        refl

  push_step-held :
      (locks : ℕ → Bool) (rand k : ℕ) (c : Option (F × ℤ)) (s : System F)
      → 0 + held w (push_step locks rand k c s) ≡ held w s + sum_by w (taken_by locks rand c s.pool)
  unfolding MoreSaid said
  push_step-held locks rand k none s = omega arith
  push_step-held locks rand k (some (f, id)) s =
      omega (arith, (push_by_id-MoreSaid w locks rand f id s.pool).0)

  step-held :
      (e : Event F) (s : System F)
      → IsManned s
      → sum_by w (step e s).1 + held w (step e s).0 ≡ held w s + sum_by w (taken_in e s)
  unfolding step taken_in MoreSaid
  step-held (working id lock) s h = elim (Bool-cases (ltb id (length s.places))) [
    | inl within ↦
        let r = work_step id lock (place_at s id) s.pool in
        rw (step, within)
          (omega (
            arith,
            work_step-weight w id lock (place_at s id) s.pool (ground (arith, h, within)),
            sum_by-set (weight_of_place w) s.places id r.1 gone (ground (arith, within)),
          ))
    | inr beyond ↦ rw (step, beyond) (omega arith)
  ]
  step-held (testing fn id) s h = omega arith
  step-held (pushing locks rand k) s h = push_step-held locks rand k (call_at s.calls k) s
  step-held halting s h = omega arith
  step-held (stopping i) s h = omega (arith, stop-queued s.pool i)

  steps-held :
      (events : List (Event F)) (s : System F)
      → IsManned s
      → sum_by w (steps events s).1 + held w (steps events s).0
        ≡ held w s + sum_by w (all_taken_in events s)
  unfolding steps all_taken_in
  steps-held [] s h = omega arith
  steps-held (e ∷ events) s h =
      let first = step e s in
      omega (
        arith,
        step-held e s h,
        steps-held events first.0 (step-IsManned e s h),
        sum_by-append w first.1 (steps events first.0).1,
        sum_by-append w (taken_in e s) (all_taken_in events first.0),
      )

  new_queues-empty : (n : ℕ) → sum_by (weight_of_queue w) (new_queues n) ≡ 0
  new_queues-empty zero = refl
  new_queues-empty (suc n) = omega (arith, new_queues-empty n)

  new_places-empty :
      (n : ℕ) (place : Place F)
      → weight_of_place w place ≡ 0
      → sum_by (weight_of_place w) (new_places n place) ≡ 0
  new_places-empty zero place h = refl
  new_places-empty (suc n) place h = omega (arith, h, new_places-empty n place h)

  -- From a new pool, after any events: what has been called, and what the queues and the threads
  -- that are about to call hold, is what `scheduleById` has accepted, with every function as often.
  pub steps-kept :
      (threads : ℕ) (enable_work_steal : Bool) (events : List (Event F))
      → let r = steps events (started threads enable_work_steal) in
        sum_by w r.1 + held w r.0
        ≡ sum_by w (all_taken_in events (started threads enable_work_steal))
  unfolding started thread_pool
  steps-kept n steal events =
      let s : System F = started n steal in
      omega (
        arith,
        steps-held events s (started-IsManned F n steal),
        new_queues-empty n,
        new_places-empty n (top (thread_pool n steal)) (top-weight w (thread_pool n steal)),
      )
