-- ===== src/Future/Then/Laws.antt =====
-- Chains of `thenValue` on ready futures.
use async_framework.Prelude.{ℕ, ◌≡◌, refl, Bool, true, Option, none, arith}
use mathlib.Core.Path.{subst}
use async_framework.Prelude.Outcome.{Error, logic_error, Outcome, returns, throws, faults}
use async_framework.Prelude.Outcome
use async_framework.Prelude.Stateful.{M, lift, ◌>>=◌, ◌>>◌}
use async_framework.Try.{Try, value, error, monostate, make_try_call, value_of}
use async_framework.FutureState.{Executors}
use async_framework.Promise.{Heap, create}
use async_framework.Future.{Future, get_future, of_try, set_executor, value_of_future}
use async_framework.Future.Then.{
  then_impl, value_callback, then_body, then_body_future, second_heap,
}

module _ {ℓ} {A : Type ℓ} where
  abbrev pub ready_on : Option ℕ → A → Future A
  ready_on ex v = record {
    shared_state = none;
    local_state = record { try_value = value v; executor = ex };
  }

  -- The future that a callback's outcome turns into, on the executor of the future before.
  abbrev pub settled : Option ℕ → Outcome A → Outcome (Future A)
  settled ex o = Outcome.◌>>=◌ (make_try_call o) λ t.
      returns
        (record { shared_state = none; local_state = record { try_value = t; executor = ex } })

-- `then_ready`, by what the callback does.
abbrev then_settled {ℓ} : {B : Type ℓ} → Option ℕ → Outcome B → M (Heap B) (Future B)
unfolding make_try_call of_try set_executor
then_settled ex o = do t ← lift (make_try_call o); set_executor ex (of_try t)

returns_eq {ℓ} : {A : Type ℓ} (f g : Future A) → returns f ≡ returns g → f ≡ g
returns_eq f g e = cc

-- A second `thenValue` on what the first one made. If the first callback returned, the second is
-- called with its value; if it threw, the second call throws, and the exception of the callback is
-- lost.
abbrev pub chained {ℓ κ} :
    {A : Type ℓ} {C : Type κ} → Option ℕ → (A → Outcome C) → Outcome A → Outcome (Future C)
chained ex next (returns a) = settled ex (next a)
chained ex next (throws e) = throws (logic_error "Future is broken.")
chained ex next faults = faults

module _ {ℓ} {A B : Type ℓ} (env : Executors) (k : ℕ) where
  -- `thenValue` on a ready value calls the callback at once and keeps the executor; what the callback
  -- throws is caught into the new future.
  pub then_value_ready :
      (ex : Option ℕ) (v : A) (func : A → Outcome B) (h : Heap A × Heap B)
      → then_impl env k (value_callback func) (ready_on ex v) h ≡ (h, settled ex (func v))
  unfolding then_impl value_callback then_settled
  then_value_ready ex v func h = go (func v)
    where
      go : (o : Outcome B) → second_heap {A = A} (then_settled ex o) h ≡ (h, settled ex o)
      go (returns b) = refl
      go (throws e) = refl
      go faults = refl

  -- `thenValue` on the ready future `f` that an outcome `o` was turned into: after a value it is the
  -- second callback's outcome; after an exception it throws "Future is broken.", which is not the
  -- exception; a fault stays one.
  pub then_value_chain :
      (ex : Option ℕ) (o : Outcome A) (f : Future A) (next : A → Outcome B) (h : Heap A × Heap B)
      → settled ex o ≡ returns f
      → then_impl env k (value_callback next) f h ≡ (h, chained ex next o)
  unfolding then_impl
  then_value_chain ex (returns a) f next h e =
      subst (λ g. then_impl env k (value_callback next) g h ≡ (h, settled ex (next a)))
        (returns_eq _ f e) (then_value_ready ex a next h)
  then_value_chain ex (throws x) f next h e =
      subst (λ g. then_impl env k (value_callback next) g h ≡ (h, chained ex next (throws x)))
        (returns_eq _ f e) refl
  then_value_chain ex faults f next h e = cc

-- What the new future's `value()` does after a callback that returned the ready future of `r`. One of
-- an exception is not valid, and fails the assertion of its `setContinuation`.
abbrev forwarded {ℓ} : {B : Type ℓ} → Try B → Outcome B
forwarded (error e) = faults
forwarded r = value_of r

module _ {A B : Type 0} (env : Executors) (checked : Bool) where
  -- A fresh promise, its future, and the run of the continuation of `thenImpl` on the result `t`.
  abbrev pub continued : Bool → (A → Outcome B) → Try A → M (Heap B) B
  continued is_try func t = do
    p ← create
    (p', f) ← get_future p
    then_body env checked is_try p' (value_callback func) t
    value_of_future f

  -- What a shared future's `thenValue` continuation leaves in the new future: its `value()` does what
  -- `value()` of the first result followed by the callback does, also where one of them throws.
  pub continued_value :
      (is_try : Bool) (func : A → Outcome B) (t : Try A) (h : Heap B)
      → (continued is_try func t h).1 ≡ Outcome.◌>>=◌ (value_of t) func
  unfolding create get_future then_body value_callback value_of_future
  continued_value is_try func monostate h = ground arith
  continued_value is_try func t h = ground arith

  abbrev continued_by : Bool → (Try A → Try B) → Try A → M (Heap B) B
  continued_by is_try func t = do
    p ← create
    (p', f) ← get_future p
    then_body_future env checked is_try 0 p' (λ t h. (h, returns (of_try (func t)))) t
    value_of_future f

  -- The same for a callback that returns a ready future.
  continued_by_future :
      (func : Try A → Try B) (t : Try A) (h : Heap B)
      → (continued_by true func t h).1 ≡ forwarded (func t)
  unfolding create get_future then_body_future value_of_future of_try value_of
  continued_by_future func t h = go (func t)
    where
      go : (r : Try B) → (continued_by true (λ x. r) t h).1 ≡ forwarded r
      go monostate = ground arith
      go (value b) = ground arith
      go (error e) = refl
