-- ===== src/FutureState/Counts.antt =====
-- The reference counts of a FutureState, and what the last promise leaves behind.
use async_framework.Prelude.{
  ℕ, zero, suc, inl, inr, ◌+◌, ◌-◌, ◌%◌, ◌^◌, ◌<◌, ◌≡◌, refl, Bool, true, false, not, ◌&&◌, some,
  List, [], ◌∷◌, arith, ◌==◌,
}
use mathlib.Core.Path.{subst}
use async_framework.Prelude.Outcome.{returns, runtime_error}
use async_framework.Prelude.Stateful.{M, pure, ◌>>◌, modify, bind_to}
use async_framework.Try.{Try, error}
use async_framework.FutureState.{
  only_continuation, done, FutureState, Executors, has_result, attach_one, detach_one,
  attach_promise, detach_promise, schedule_continuation,
}
use async_framework.FutureState.Delivery.{
  IsUsable, IsUsable-frame, IsWaiting, IsDelivered, schedule_continuation-IsDelivered,
}

pub data RefOp : Type 0 where
  attach detach : RefOp

-- Each operation of the list finds, and leaves, from 1 to 255 references, `m` at the end.
abbrev pub Live : ℕ → List RefOp → ℕ → Type 0
Live n [] m = n ≡ m
Live n (attach ∷ ops) m = (n < 255) × Live (suc n) ops m
Live n (detach ∷ ops) m = (1 < n) × Live (n - 1) ops m

others_left : (b : Bool) (p : ℕ) → 1 < p → (b && p == 1) ≡ false
others_left b p h = ground arith

module _ {ℓ} {A : Type ℓ} where
  pub apply_refs : List RefOp → M (FutureState A) (Unit {0})
  unfolding attach_one detach_one
  apply_refs [] = pure tt
  apply_refs (attach ∷ ops) = do modify attach_one; apply_refs ops
  apply_refs (detach ∷ ops) = do detach_one; apply_refs ops

  -- From `n` references, after any sequence of attachings and detachings whose count stays from 1 to
  -- 255 and ends at `m`, the state is not deleted, counts `m` and is otherwise unchanged.
  apply_refs-Live :
      (ops : List RefOp) (n m : ℕ) (s : FutureState A)
      → Live n ops m
      → apply_refs ops (record s { attached = n; deleted = false })
        ≡ (record s { attached = m; deleted = false }, returns tt)
  unfolding apply_refs
  apply_refs-Live [] n m s h = ground arith
  apply_refs-Live (attach ∷ ops) n m s h = ground (arith, apply_refs-Live ops (suc n) m s h.1)
  apply_refs-Live (detach ∷ ops) n m s h = ground (arith, apply_refs-Live ops (n - 1) m s h.1)

  -- `count` more promises.
  pub attach_promises : ℕ → FutureState A → FutureState A
  attach_promises zero s = s
  attach_promises (suc count) s = attach_promises count (attach_promise s)

  attach_promises_counts :
      (count : ℕ) (s : FutureState A)
      → s.attached < 256
      → (attach_promises count s).attached ≡ (s.attached + count) % 256
  unfolding attach_promises attach_promise
  attach_promises_counts zero s h = omega arith
  attach_promises_counts (suc count) s h =
      omega (arith, attach_promises_counts count (attach_promise s) (omega arith))

  attach_promises_promises :
      (count : ℕ) (s : FutureState A)
      → s.promise_ref + count < 2 ^ 64
      → ((attach_promises count s).promise_ref ≡ s.promise_ref + count)
        × ((attach_promises count s).state ≡ s.state)
  unfolding attach_promises attach_promise
  attach_promises_promises zero s h = (omega arith, refl)
  attach_promises_promises (suc count) s h =
      let (p, q) = attach_promises_promises count (attach_promise s) (omega arith) in
      (omega arith, q)

  abbrev broken : Try A
  broken = error (some (runtime_error "Promise is broken"))

  at_last :
      (env : Executors) (checked : Bool) (s : FutureState A)
      → detach_promise env checked (record s { promise_ref = 1; state = only_continuation })
        ≡ bind_to
            (schedule_continuation env false
              (record s { promise_ref = 0; state = done; try_value = broken }))
            (λ _. detach_one)
  unfolding detach_promise
  at_last env true s = refl
  at_last env false s = refl

  module _ (env : Executors) (checked : Bool) where
    detach_promise_rest :
        (s : FutureState A)
        → 0 < s.promise_ref
        → (not (has_result s) && s.promise_ref == 1) ≡ false
        → detach_promise env checked s ≡ detach_one (record s { promise_ref = s.promise_ref - 1 })
    unfolding detach_promise
    detach_promise_rest s p q = ground arith

    -- A promise is counted and another reference is held: when a promise goes away while there is a
    -- result or another promise is left, only the two counts go down by one.
    pub detach_promise_quiet :
        (s : FutureState A)
        → 0 < s.promise_ref
        → 1 < s.attached
        → (not (has_result s) && s.promise_ref == 1) ≡ false
        → detach_promise env checked s
          ≡ (record s { promise_ref = s.promise_ref - 1; attached = s.attached - 1 }, returns tt)
    unfolding detach_one
    detach_promise_quiet s p a q = rw (detach_promise_rest s p q) (ground arith)

    detach_promise_deletes :
        (s : FutureState A)
        → s.attached ≡ 1
        → 1 < s.promise_ref
        → ((detach_promise env checked s).0.deleted ≡ true)
          × ((detach_promise env checked s).0.promise_ref ≡ s.promise_ref - 1)
    unfolding detach_one
    detach_promise_deletes s a p =
        rw (detach_promise_rest s (omega arith) (others_left (not (has_result s)) s.promise_ref p))
          (ground arith, ground arith)

    -- `attached_` has eight bits: with one reference held, after 256 further promises and the end of
    -- one of them the state is deleted, while it still counts 255 more promises than at first (a count
    -- of promises that does not wrap).
    pub attached_overflow :
        (s : FutureState A)
        → s.attached ≡ 1
        → s.promise_ref + 256 < 2 ^ 64
        → let t = (detach_promise env checked (attach_promises 256 s)).0 in
          (t.deleted ≡ true) × (t.promise_ref ≡ s.promise_ref + 255)
    attached_overflow s a p =
        let c = attach_promises_counts 256 s (omega arith) in
        let (q, _) = attach_promises_promises 256 s p in
        let (d, r) = detach_promise_deletes (attach_promises 256 s) (omega arith) (omega arith) in
        (d, omega arith)

    detach_promise_last :
        (s : FutureState A)
        → s.promise_ref ≡ 1
        → s.state ≡ only_continuation
        → detach_promise env checked s
          ≡ bind_to
              (schedule_continuation env false
                (record s { promise_ref = 0; state = done; try_value = broken }))
              (λ _. detach_one)
    detach_promise_last s p d = subst P e (at_last env checked s)
      where
        P : FutureState A → Type ℓ
        P t =
            detach_promise env checked t
            ≡ bind_to
                (schedule_continuation env false
                  (record t { promise_ref = 0; state = done; try_value = broken }))
                (λ _. detach_one)

        e : record s { promise_ref = 1; state = only_continuation } ≡ s
        e = ground arith

    detach_one-IsDelivered :
        (n k : ℕ) (v : Try A) (s : FutureState A)
        → 1 < n
        → IsDelivered n k v s
        → ((detach_one s).1 ≡ returns tt) × IsDelivered (n - 1) k v (detach_one s).0
    unfolding detach_one
    detach_one-IsDelivered n k v s lo (inl d) = (
      ground arith,
      inl (record {
        settled = ground arith;
        held = ground arith;
        unshared = ground arith;
        destroyed = ground arith;
        value_is = ground arith;
        called = ground arith;
        unqueued = ground arith;
      }),
    )
    detach_one-IsDelivered n k v s lo (inr d) = (
      ground arith,
      inr (record {
        settled = ground arith;
        held = ground arith;
        shared = ground arith;
        stored = ground arith;
        value_is = ground arith;
        uncalled = ground arith;
        queued = ground arith;
      }),
    )

    -- The last promise goes away without a result while a continuation waits, with 2 to 253 references
    -- and executors that answer: the call returns, and the continuation has been called once with the
    -- error "Promise is broken", or one job that will is queued, one reference less being held.
    pub broken_promise :
        (n k : ℕ) (s : FutureState A)
        → 1 < n
        → n + 2 < 256
        → s.promise_ref ≡ 1
        → s.state ≡ only_continuation
        → IsWaiting n k (record s { state = done })
        → IsUsable env s
        → ((detach_promise env checked s).1 ≡ returns tt)
          × IsDelivered (n - 1) k broken (detach_promise env checked s).0
    broken_promise n k s lo hi p d w u =
        let (r, e) = waiting in
        let (q, f) = detach_one-IsDelivered n k broken _ lo e in
        rw (detach_promise_last s p d, r) (q, f)
      where
        open w use {held, unshared, stored, uncalled, unqueued}

        t : FutureState A
        t = record s { promise_ref = 0; state = done; try_value = broken }

        waiting :
            ((schedule_continuation env false t).1 ≡ returns tt)
            × IsDelivered n k broken (schedule_continuation env false t).0
        waiting =
            schedule_continuation-IsDelivered env n k false t (omega arith) hi
              (record {
                ready = refl;
                held = held;
                unshared = unshared;
                stored = stored;
                uncalled = uncalled;
                unqueued = unqueued;
              })
              (IsUsable-frame env s done broken 0 u)
