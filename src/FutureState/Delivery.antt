-- ===== src/FutureState/Delivery.antt =====
-- What `scheduleContinuation` does with a value and a continuation that have met.
use async_framework.Prelude.{
  ℕ, ◌+◌, ◌<◌, ◌≡◌, refl, ap, ◌∙◌, ◌⊎◌, inl, inr, Bool, true, false, none, some, [], ◌∷◌, arith,
}
use async_framework.Prelude.Outcome.{Outcome, returns, throws, faults}
use async_framework.Prelude.Stateful.{◌>>◌, modify}
use async_framework.Try.{Try}
use async_framework.FutureState.{
  State, done, FutureState, Executors, is_std_exception, runs_inplace, submit,
  schedule_continuation, run_job, reschedule_answer, invoke, attach_reference, detach_reference,
  dispatch,
}

-- The answer of an executor that `scheduleContinuation` copes with.
abbrev pub IsHandled : Outcome Bool → Type 0
IsHandled (returns b) = Unit {0}
IsHandled (throws e) = is_std_exception e ≡ true
IsHandled faults = ⊥

abbrev pub IsReturned {ℓ} : {A : Type ℓ} → Outcome A → Type 0
IsReturned (returns a) = Unit {0}
IsReturned _ = ⊥

module _ {ℓ} {A : Type ℓ} where
  -- `currentThreadInExecutor()` is implemented, and where the executor is needed there is one.
  pub record IsUsable (env : Executors) (s : FutureState A) : Type 0 where
    pub known : (trigger : Bool) → IsReturned (runs_inplace env trigger s)
    pub handled :
        (trigger : Bool) → runs_inplace env trigger s ≡ returns false → IsHandled (submit env s)

  -- Only the executor, the context and the forced schedule matter.
  pub IsUsable-frame :
      (env : Executors) (s : FutureState A) (x : State) (v : Try A) (p : ℕ)
      → IsUsable env s
      → IsUsable env (record s { state = x; try_value = v; promise_ref = p })
  unfolding runs_inplace submit
  IsUsable-frame env s x v p u = record { known = u.known; handled = u.handled }

  -- The continuation `k` waits for delivery of the value in `s`, and `n` references are held.
  pub record IsWaiting (n k : ℕ) (s : FutureState A) : Type ℓ where
    pub ready : s.state ≡ done
    pub held : s.attached ≡ n
    pub unshared : s.continuation_ref ≡ 0
    pub stored : s.continuation ≡ some k
    pub uncalled : s.calls ≡ []
    pub unqueued : s.pending ≡ 0

  -- It was called with the value, once, and its object is gone.
  pub record IsCalled (n k : ℕ) (v : Try A) (s : FutureState A) : Type ℓ where
    pub settled : s.state ≡ done
    pub held : s.attached ≡ n
    pub unshared : s.continuation_ref ≡ 0
    pub destroyed : s.continuation ≡ none
    pub value_is : s.try_value ≡ v
    pub called : s.calls ≡ (k, v) ∷ []
    pub unqueued : s.pending ≡ 0

  -- An executor has accepted the job that will call it. The job holds a reference.
  pub record IsQueued (n k : ℕ) (v : Try A) (s : FutureState A) : Type ℓ where
    pub settled : s.state ≡ done
    pub held : s.attached ≡ n + 1
    pub shared : s.continuation_ref ≡ 1
    pub stored : s.continuation ≡ some k
    pub value_is : s.try_value ≡ v
    pub uncalled : s.calls ≡ []
    pub queued : s.pending ≡ 1

  abbrev pub IsDelivered : ℕ → ℕ → Try A → FutureState A → Type ℓ
  IsDelivered n k v s = IsCalled n k v s ⊎ IsQueued n k v s

  inplace-IsCalled :
      (n k : ℕ) (s : FutureState A)
      → 0 < n
      → n + 2 < 256
      → IsWaiting n k s
      → let r = (do modify attach_reference; invoke; detach_reference) s in
        (r.1 ≡ returns tt) × IsCalled n k s.try_value r.0
  unfolding attach_reference invoke detach_reference
  inplace-IsCalled n k s lo hi w = (
    ground arith,
    record {
      settled = ground arith;
      held = ground arith;
      unshared = ground arith;
      destroyed = ground arith;
      value_is = ground arith;
      called = ground arith;
      unqueued = ground arith;
    },
  )

  -- What becomes of the continuation when the executor's answer is `o`.
  reschedule-IsDelivered :
      (n k : ℕ) (s : FutureState A) (o : Outcome Bool)
      → 0 < n
      → n + 2 < 256
      → IsWaiting n k s
      → IsHandled o
      → let r = reschedule_answer o (attach_reference (attach_reference s)) in
        (r.1 ≡ returns tt) × IsDelivered n k s.try_value r.0
  unfolding attach_reference reschedule_answer
  reschedule-IsDelivered n k s (returns true) lo hi w h = (
    ground arith,
    inr (record {
      settled = ground arith;
      held = ground arith;
      shared = ground arith;
      stored = ground arith;
      value_is = ground arith;
      uncalled = ground arith;
      queued = ground arith;
    }),
  )
  reschedule-IsDelivered n k s (returns false) lo hi w h = (
    ground arith,
    inl (record {
      settled = ground arith;
      held = ground arith;
      unshared = ground arith;
      destroyed = ground arith;
      value_is = ground arith;
      called = ground arith;
      unqueued = ground arith;
    }),
  )
  reschedule-IsDelivered n k s (throws e) lo hi w h = (
    ground arith,
    inl (record {
      settled = ground arith;
      held = ground arith;
      unshared = ground arith;
      destroyed = ground arith;
      value_is = ground arith;
      called = ground arith;
      unqueued = ground arith;
    }),
  )
  reschedule-IsDelivered n k s faults lo hi w h = absurd h

  -- A queued job of a held state returns, and has called the continuation once with the value,
  -- destroyed it, and released the job's reference.
  pub run_job-IsCalled :
      (n k : ℕ) (v : Try A) (s : FutureState A)
      → 0 < n
      → IsQueued n k v s
      → ((run_job s).1 ≡ returns tt) × IsCalled n k v (run_job s).0
  unfolding run_job
  run_job-IsCalled n k v s lo w = (
    ground arith,
    record {
      settled = ground arith;
      held = ground arith;
      unshared = ground arith;
      destroyed = ground arith;
      value_is = ground arith;
      called = ground arith;
      unqueued = ground arith;
    },
  )

  module _ (env : Executors) where
    dispatch-IsDelivered :
        (n k : ℕ) (inplace : Bool) (s : FutureState A)
        → 0 < n
        → n + 2 < 256
        → IsWaiting n k s
        → (inplace ≡ false → IsHandled (submit env s))
        → ((dispatch env inplace s).1 ≡ returns tt)
          × IsDelivered n k s.try_value (dispatch env inplace s).0
    unfolding dispatch submit attach_reference
    dispatch-IsDelivered n k true s lo hi w h =
        let (r, c) = inplace-IsCalled n k s lo hi w in (r, inl c)
    dispatch-IsDelivered n k false s lo hi w h =
        reschedule-IsDelivered n k s (submit env s) lo hi w (h refl)

    schedule_inplace :
        (trigger : Bool) (s : FutureState A) (b : Bool)
        → s.state ≡ done
        → runs_inplace env trigger s ≡ returns b
        → schedule_continuation env trigger s ≡ dispatch env b s
    unfolding schedule_continuation
    schedule_inplace trigger s b d e = ground arith

    -- A value and a continuation that have met, with 1 to 253 references: whatever the executor
    -- answers of what `IsUsable` allows, the call returns, and the continuation has been called once
    -- with the value, or one job that will call it is queued.
    pub schedule_continuation-IsDelivered :
        (n k : ℕ) (trigger : Bool) (s : FutureState A)
        → 0 < n
        → n + 2 < 256
        → IsWaiting n k s
        → IsUsable env s
        → ((schedule_continuation env trigger s).1 ≡ returns tt)
          × IsDelivered n k s.try_value (schedule_continuation env trigger s).0
    schedule_continuation-IsDelivered n k trigger s lo hi w u =
        go (runs_inplace env trigger s) refl (u.known trigger)
      where
        go :
            (o : Outcome Bool)
            → runs_inplace env trigger s ≡ o
            → IsReturned o
            → ((schedule_continuation env trigger s).1 ≡ returns tt)
              × IsDelivered n k s.try_value (schedule_continuation env trigger s).0
        go (returns b) e h =
            rw (schedule_inplace trigger s b w.ready e)
              (dispatch-IsDelivered n k b s lo hi w (λ q. u.handled trigger (e ∙ ap returns q)))
        go (throws x) e h = absurd h
        go faults e h = absurd h
