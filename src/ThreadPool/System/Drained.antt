-- ===== src/ThreadPool/System/Drained.antt =====
-- util/ThreadPool.h: when all threads have ended, as the destructor waits for them to do, everything
-- that was accepted before has been called.
use async_framework.Prelude.{
  ℕ, zero, suc, ◌<◌, ◌≡◌, refl, sym, ap, ◌∙◌, inl, inr, Bool, true, false, Option, none, some, List,
  [], ◌∷◌, ◌++◌, ltb, Bool-cases, length, get_or, set, length-set, get_or-set-cases, sum_by,
  sum_by-zero, arith,
}
use mathlib.Core.Path.{subst}
use async_framework.Queue.{Queue, Popped, waits, refused, popped, new_queue, pop, try_pop_if}
use async_framework.Queue
use async_framework.ThreadPool.{ℤ, thread_pool, queue_at}
use async_framework.ThreadPool.System.{
  Place, stealing, popping, calling, gone, System, Event, working, testing, pushing, halting,
  stopping, top, work_step, place_at, tested, call_at, push_step, said, step, steps, all_taken_in,
  started, new_places,
}
use async_framework.ThreadPool.System.Weights.{
  weight_of_item, weight_of_queue, weight_of_place, held,
}
use async_framework.ThreadPool.System.Pushed.{MoreSaid, push_by_id-MoreSaid}
use async_framework.ThreadPool.System.Kept.{
  IsManned, step-IsManned, work_step-thread_num, started-IsManned, steps-kept,
}
use async_framework.ThreadPool.System.Gone.{
  IsEmpty, is_gone, with_queue-IsEmpty, work_step-IsEmpty, work_step-stop_, work_step-gone,
  top-is_gone,
}

module _ {ℓ} {F : Type ℓ} where
  -- A thread that has ended leaves a stopped pool and an empty queue.
  abbrev IsOver : System F → Type ℓ
  IsOver s =
      (i : ℕ)
      → i < length s.places
      → is_gone (place_at s i) ≡ true
      → (s.pool.stop_ ≡ true) × IsEmpty (queue_at s.pool i)

  working-IsOver :
      (id : ℕ) (lock : Bool) (s : System F)
      → id < length s.places
      → IsManned s
      → IsOver s
      → let r = work_step id lock (place_at s id) s.pool in
        IsOver (record s { pool = r.0; places = set s.places id r.1 })
  working-IsOver id lock s within manned over i lt e =
      let r = work_step id lock (place_at s id) s.pool in
      let before : is_gone (place_at s i) ≡ true → (r.0.stop_ ≡ true) × IsEmpty (queue_at r.0 i) =
        λ was.
          let (stopped, empty) = over i (rw (length-set s.places id r.1) at lt) was in
          (
            work_step-stop_ id lock (place_at s id) s.pool ∙ stopped,
            work_step-IsEmpty id i lock (place_at s id) s.pool empty,
          ) in
      elim (get_or-set-cases s.places id i r.1 gone) [
        | inl same ↦ before (rw same at e)
        | inr (here, now) ↦
            elim (work_step-gone id lock (place_at s id) s.pool (rw (sym manned) within)
              (rw now at e)) [
                | inl was ↦ before (rw here at was)
                | inr (stopped, empty) ↦ (
                  work_step-stop_ id lock (place_at s id) s.pool ∙ stopped,
                  subst (λ k. IsEmpty (queue_at r.0 k)) here empty,
                )
              ]
      ]

  -- `stop_` is set and no call of `scheduleById` is between its test and its push; a thread that has
  -- ended leaves an empty queue.
  record IsStopping (s : System F) : Type ℓ where
    stopped : s.pool.stop_ ≡ true
    uncalled : s.calls ≡ []
    manned : IsManned s
    over : IsOver s

  push_step-none :
      (locks : ℕ → Bool) (rand k : ℕ) (s : System F)
      → s.calls ≡ []
      → push_step locks rand k (call_at s.calls k) s ≡ s
  push_step-none locks rand k s h = ap (λ calls. push_step locks rand k (call_at calls k) s) h

  tested-stopped : (fn : Option F) (id : ℤ) (calls : List (F × ℤ)) → tested fn id true calls ≡ calls
  tested-stopped none id calls = refl
  tested-stopped (some f) id calls = refl

  step-IsStopping : (e : Event F) (s : System F) → IsStopping s → IsStopping (step e s).0
  unfolding step Queue.stop
  step-IsStopping (working id lock) s ok = elim (Bool-cases (ltb id (length s.places))) [
    | inl within ↦
        let r = work_step id lock (place_at s id) s.pool in
        let after : System F = record s { pool = r.0; places = set s.places id r.1 } in
        let next : IsStopping after = record {
          stopped = work_step-stop_ id lock (place_at s id) s.pool ∙ ok.stopped;
          uncalled = ok.uncalled;
          manned =
              length-set s.places id r.1
              ∙ ok.manned
              ∙ sym (work_step-thread_num id lock (place_at s id) s.pool);
          over = working-IsOver id lock s (ground (arith, within)) ok.manned ok.over;
        } in
        rw (step, within) next
    | inr beyond ↦ rw (step, beyond) ok
  ]
  step-IsStopping (testing fn id) s ok = record {
    stopped = ok.stopped;
    uncalled =
        ap (λ b. tested fn id b s.calls) ok.stopped ∙ tested-stopped fn id s.calls ∙ ok.uncalled;
    manned = ok.manned;
    over = ok.over;
  }
  step-IsStopping (pushing locks rand k) s ok = rw (push_step-none locks rand k s ok.uncalled) ok
  step-IsStopping halting s ok = record {
    stopped = refl;
    uncalled = ok.uncalled;
    manned = ok.manned;
    over = λ i lt e. (refl, (ok.over i lt e).1);
  }
  step-IsStopping (stopping k) s ok = record {
    stopped = ok.stopped;
    uncalled = ok.uncalled;
    manned = step-IsManned (stopping k) s ok.manned;
    over = λ i lt e.
        let (stopped, empty) = ok.over i lt e in
        (stopped, with_queue-IsEmpty s.pool k i (Queue.stop (queue_at s.pool k)) (λ h. h) empty);
  }

  steps-IsStopping :
      (events : List (Event F)) (s : System F) → IsStopping s → IsStopping (steps events s).0
  unfolding steps
  steps-IsStopping [] s ok = ok
  steps-IsStopping (e ∷ events) s ok = steps-IsStopping events (step e s).0 (step-IsStopping e s ok)

  -- A thread ends only once `stop_` is set.
  record IsRunning (s : System F) : Type ℓ where
    manned : IsManned s
    ended : (i : ℕ) → i < length s.places → is_gone (place_at s i) ≡ true → s.pool.stop_ ≡ true

  working-ended :
      (id : ℕ) (lock : Bool) (s : System F)
      → id < length s.places
      → IsRunning s
      → let r = work_step id lock (place_at s id) s.pool in
        (i : ℕ)
        → i < length (set s.places id r.1)
        → is_gone (get_or (set s.places id r.1) i gone) ≡ true
        → r.0.stop_ ≡ true
  working-ended id lock s within ok i lt e =
      let r = work_step id lock (place_at s id) s.pool in
      let same_stop = work_step-stop_ id lock (place_at s id) s.pool in
      let lt' : i < length s.places = rw (length-set s.places id r.1) at lt in
      elim (get_or-set-cases s.places id i r.1 gone) [
        | inl same ↦ same_stop ∙ ok.ended i lt' (rw same at e)
        | inr (here, now) ↦
            elim (work_step-gone id lock (place_at s id) s.pool (rw (sym ok.manned) within)
              (rw now at e)) [
                | inl was ↦ same_stop ∙ ok.ended id within was
                | inr (stopped, empty) ↦ same_stop ∙ stopped
              ]
      ]

  push_step-stop_ :
      (locks : ℕ → Bool) (rand k : ℕ) (c : Option (F × ℤ)) (s : System F)
      → (push_step locks rand k c s).pool.stop_ ≡ s.pool.stop_
  unfolding MoreSaid said
  push_step-stop_ locks rand k none s = refl
  push_step-stop_ locks rand k (some (f, id)) s =
      (push_by_id-MoreSaid (λ f. 0) locks rand f id s.pool).2

  push_step-places :
      (locks : ℕ → Bool) (rand k : ℕ) (c : Option (F × ℤ)) (s : System F)
      → (push_step locks rand k c s).places ≡ s.places
  push_step-places locks rand k none s = refl
  push_step-places locks rand k (some c) s = refl

  step-IsRunning : (e : Event F) (s : System F) → IsRunning s → IsRunning (step e s).0
  unfolding step Queue.stop
  step-IsRunning (working id lock) s ok = elim (Bool-cases (ltb id (length s.places))) [
    | inl within ↦
        let r = work_step id lock (place_at s id) s.pool in
        let after : System F = record s { pool = r.0; places = set s.places id r.1 } in
        let next : IsRunning after = record {
          manned =
              length-set s.places id r.1
              ∙ ok.manned
              ∙ sym (work_step-thread_num id lock (place_at s id) s.pool);
          ended = working-ended id lock s (ground (arith, within)) ok;
        } in
        rw (step, within) next
    | inr beyond ↦ rw (step, beyond) ok
  ]
  step-IsRunning (testing fn id) s ok = record { manned = ok.manned; ended = ok.ended }
  step-IsRunning (pushing locks rand k) s ok = record {
    manned = step-IsManned (pushing locks rand k) s ok.manned;
    ended = λ i lt e.
        push_step-stop_ locks rand k (call_at s.calls k) s
        ∙ ok.ended i (rw (push_step-places locks rand k (call_at s.calls k) s) at lt)
            (rw (push_step-places locks rand k (call_at s.calls k) s) at e);
  }
  step-IsRunning halting s ok = record { manned = ok.manned; ended = λ i lt e. refl }
  step-IsRunning (stopping k) s ok = record {
    manned = step-IsManned (stopping k) s ok.manned;
    ended = ok.ended;
  }

  steps-IsRunning :
      (events : List (Event F)) (s : System F) → IsRunning s → IsRunning (steps events s).0
  unfolding steps
  steps-IsRunning [] s ok = ok
  steps-IsRunning (e ∷ events) s ok = steps-IsRunning events (step e s).0 (step-IsRunning e s ok)

  new_places-at :
      (n : ℕ) (place : Place F) (i : ℕ)
      → i < length (new_places n place)
      → get_or (new_places n place) i gone ≡ place
  new_places-at zero place i h = absurd (omega arith)
  new_places-at (suc n) place zero h = refl
  new_places-at (suc n) place (suc i) h = new_places-at n place i (omega arith)

  started-IsRunning : (n : ℕ) (steal : Bool) → IsRunning (started n steal)
  unfolding started thread_pool
  started-IsRunning n steal =
      let pool = thread_pool n steal in
      record {
        manned = started-IsManned F n steal;
        ended = λ i lt e.
            let not_gone : is_gone (top pool) ≡ true = rw (new_places-at n (top pool) i lt) at e in
            absurd (ground (arith, not_gone, top-is_gone pool));
      }

  steps-append :
      (before after : List (Event F)) (s : System F)
      → (steps (before ++ after) s).0 ≡ (steps after (steps before s).0).0
  unfolding steps
  steps-append [] after s = refl
  steps-append (e ∷ before) after s = steps-append before after (step e s).0

  halted-IsStopping :
      (s : System F)
      → IsRunning s
      → s.pool.stop_ ≡ false
      → s.calls ≡ []
      → IsStopping (step halting s).0
  unfolding step
  halted-IsStopping s ok running uncalled = record {
    stopped = refl;
    uncalled = uncalled;
    manned = ok.manned;
    over = λ i lt e. absurd (ground (arith, running, ok.ended i lt e));
  }

  -- Every thread of the pool has ended.
  abbrev pub IsJoined : System F → Type 0
  IsJoined s = (i : ℕ) → i < length s.places → is_gone (place_at s i) ≡ true

  gone-weight : (w : F → ℕ) (place : Place F) → is_gone place ≡ true → weight_of_place w place ≡ 0
  gone-weight w (stealing n) h = refl
  gone-weight w popping h = refl
  gone-weight w (calling f) h = absurd (ground (arith, h))
  gone-weight w gone h = refl

  joined-held : (w : F → ℕ) (s : System F) → IsManned s → IsOver s → IsJoined s → held w s ≡ 0
  joined-held w s manned over joined = omega (
    arith,
    sum_by-zero (weight_of_queue w) s.pool.queues new_queue (λ i lt.
        let within : i < length s.places = rw manned lt in
        ap (sum_by (weight_of_item w)) (over i within (joined i within)).1),
    sum_by-zero (weight_of_place w) s.places gone
        (λ i lt. gone-weight w (place_at s i) (joined i lt)),
  )

  -- Where the destructor sets `stop_` for the first time while no call of `scheduleById` is between its
  -- test of `stop_` and its push: when every thread has ended, each function has been called as often
  -- as `scheduleById` has accepted it, whatever was stolen, in whatever order the steps came before and
  -- after, and whatever calls of `scheduleById` came after.
  pub joined-drained :
      (w : F → ℕ) (threads : ℕ) (enable_work_steal : Bool) (before after : List (Event F))
      → let s = (steps before (started threads enable_work_steal)).0 in
        let r = steps (before ++ halting ∷ after) (started threads enable_work_steal) in
        s.pool.stop_ ≡ false
        → s.calls ≡ []
        → IsJoined r.0
        → sum_by w r.1
          ≡ sum_by w (all_taken_in (before ++ halting ∷ after) (started threads enable_work_steal))
  unfolding steps
  joined-drained w n steal before after running uncalled joined =
      let s0 : System F = started n steal in
      let s = (steps before s0).0 in
      let events = before ++ halting ∷ after in
      let now = steps-IsStopping after (step halting s).0 (
        halted-IsStopping s (steps-IsRunning before s0 (started-IsRunning n steal)) running
          uncalled) in
      let last : IsStopping (steps events s0).0 =
        rw (steps-append before (halting ∷ after) s0) now in
      omega (
        arith,
        steps-kept w n steal events,
        joined-held w (steps events s0).0 last.manned last.over joined,
      )
