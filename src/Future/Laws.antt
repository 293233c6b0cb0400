-- ===== src/Future/Laws.antt =====
-- What a client of `Promise` and `Future` observes.
use async_framework.Prelude.{ℕ, ◌≡◌, refl, Bool, true, false, Option, some, arith}
use async_framework.Prelude.Outcome.{Error, logic_error, runtime_error, returns, throws, faults}
use async_framework.Prelude.Stateful.{M, pure, ◌>>=◌, ◌>>◌}
use async_framework.Try.{Try, monostate, value_of}
use async_framework.FutureState.{Executors}
use async_framework.Promise.{Heap, Promise, create, set_value, set_try}
use async_framework.Promise
use async_framework.Future.{
  Future, of_try, valid, has_result, result, value_of_future, get_value, get_future,
  make_ready_future, make_ready_future_error, set_executor, Waited, ready, wait,
}
use async_framework.Future

module _ {ℓ} {A : Type ℓ} (env : Executors) (checked : Bool) where
  -- A promise, its future, and the result `t`.
  abbrev pub promised : Try A → M (Heap A) (Promise × Future A)
  promised t = do p ← create; (p', f) ← get_future p; set_try env checked p' t; pure (p', f)

  -- Then both are destroyed.
  abbrev pub ended : Try A → M (Heap A) (Unit {0})
  ended t = do (p, f) ← promised t; Promise.destroy env checked p; Future.destroy f

  -- On any heap, for a new promise that is given the result `t`: `value()` of the future made before
  -- does what `value()` of `t` does.
  pub promised_result :
      (h : Heap A) (t : Try A) → ((do (p, f) ← promised t; value_of_future f) h).1 ≡ value_of t
  unfolding create get_future set_try value_of_future
  promised_result h t = ground arith

  -- On any heap: a new promise, its future and a result, then both ends destroyed, return without an
  -- error, and the state is deleted, with no reference and no promise counted and `t` as its value.
  pub ended_deleted :
      (h : Heap A) (t : Try A)
      → let (g, o) = ended t h in
        let s = g.states h.next in
        (o ≡ returns tt)
        × (s.deleted ≡ true)
        × (s.attached ≡ 0)
        × (s.promise_ref ≡ 0)
        × (s.try_value ≡ t)
  unfolding create get_future set_try Promise.destroy Future.destroy
  ended_deleted h t = (ground arith, ground arith, ground arith, ground arith, ground arith)

  -- The same without a result: the last promise leaves the error.
  abbrev pub abandoned : M (Heap A) (Future A)
  abandoned = do p ← create; (p', f) ← get_future p; Promise.destroy env checked p'; pure f

  -- On any heap: the future of a promise that is destroyed without a result has a result, and its
  -- `value()` throws "Promise is broken".
  pub abandoned_value :
      (h : Heap A)
      → ((do f ← abandoned; value_of_future f) h).1 ≡ throws (runtime_error "Promise is broken")
  unfolding create get_future Promise.destroy value_of_future
  abandoned_value h = ground arith

  abbrev pub second_future : M (Heap A) (Promise × Future A)
  second_future = do p ← create; (p', f) ← get_future p; get_future p'

  -- The two states of a promise's future and of the future of a copy made before.
  abbrev pub copied_futures : M (Heap A) (Option ℕ × Option ℕ)
  copied_futures = do
    p ← create
    q ← Promise.copy p
    (p', f) ← get_future p
    (q', g) ← get_future q
    pure (f.shared_state, g.shared_state)

  -- On any heap: a second `getFuture()` of one promise throws, but with a copy that was made before
  -- the first, both the promise and the copy give a future, of the same state.
  pub copy_two_futures :
      (h : Heap A)
      → ((second_future h).1 ≡ throws (logic_error "Promise already has a future"))
        × ((copied_futures h).1 ≡ returns (some h.next, some h.next))
  unfolding create get_future Promise.copy
  copy_two_futures h = (refl, refl)

module _ {A : Type 0} (env : Executors) (k : ℕ) where
  -- For a future with a shared state, an empty inline state and no value in the shared state, the
  -- empty inline state counts as a result: `hasResult()` holds, `wait()` returns at once, and `get()`
  -- throws "Try object is empty".
  pub pending_get :
      (h : Heap A) (p : ℕ) (f : Future A)
      → f.shared_state ≡ some p
      → f.local_state.try_value ≡ monostate
      → (h.states p).try_value ≡ monostate
      → ((has_result f h).1 ≡ returns true)
        × ((wait env k f h).1 ≡ returns ready)
        × ((get_value env k f h).1 ≡ throws (logic_error "Try object is empty"))
  unfolding has_result wait get_value value_of_future
  pending_get h p f a l t = (ground arith, ground arith, ground arith)

  -- A ready future of an exception is not valid: `get()` throws "Future is broken." in place of the
  -- exception, and `hasResult()` goes through the null pointer.
  pub error_future_get :
      (h : Heap A) (e : Error)
      → let f : Future A = make_ready_future_error (some e) in
        (valid f ≡ false)
        × ((has_result f h).1 ≡ faults)
        × ((get_value env k f h).1 ≡ throws (logic_error "Future is broken."))
  unfolding make_ready_future_error valid has_result get_value
  error_future_get h e = (refl, refl, refl)
