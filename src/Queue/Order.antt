-- ===== src/Queue/Order.antt =====
-- The order of util/Queue.h.
use async_framework.Prelude.{
  ◌≡◌, ◌≢◌, refl, sym, ap, ◌∙◌, Bool, true, false, none, some, List, [], ◌∷◌, ◌++◌, if◌then◌else◌,
  arith, append_nil, append_assoc,
}
use mathlib.Core.Path.{subst}
use async_framework.Queue.{
  Queue, Popped, waits, refused, popped, push, try_push, pop, try_pop, try_pop_if, stop, Call,
  pushing, try_pushing, popping, try_popping, try_popping_if, stopping, call, put, puts, taken,
  calls_run,
}

module _ {ℓ} {A : Type ℓ} where
  abbrev IsDone : Popped A → Type 0
  IsDone waits = ⊥
  IsDone _ = Unit {0}

  -- One call: what is taken out is at the front, what is put in at the end.
  call_order :
      (c : Call A) (items : List A) (b : Bool)
      → let (q, out) = call c (record { items = items; stopped = b }) in
        taken out ++ q.items ≡ items ++ put c
  unfolding call push try_push pop try_pop try_pop_if stop
  call_order (pushing x) items b = refl
  call_order (try_pushing false x) items b = sym (append_nil items)
  call_order (try_pushing true x) items b = refl
  call_order popping [] true = refl
  call_order popping [] false = refl
  call_order popping (x ∷ items) b = sym (append_nil (x ∷ items))
  call_order (try_popping false) items b = sym (append_nil items)
  call_order (try_popping true) [] b = refl
  call_order (try_popping true) (x ∷ items) b = sym (append_nil (x ∷ items))
  call_order (try_popping_if false p) items b = sym (append_nil items)
  call_order (try_popping_if true p) [] b = refl
  call_order (try_popping_if true none) (x ∷ items) b = sym (append_nil (x ∷ items))
  call_order (try_popping_if true (some f)) (x ∷ items) b = go (f x)
    where
      go :
          (t : Bool)
          → let r : Queue A × Popped A =
              if t
              then (record { items = items; stopped = b }, popped x)
              else (record { items = x ∷ items; stopped = b }, refused) in
            taken r.1 ++ (r.0).items ≡ (x ∷ items) ++ []
      go true = sym (append_nil (x ∷ items))
      go false = sym (append_nil (x ∷ items))
  call_order stopping items b = sym (append_nil items)

  -- In any sequence of calls from any queue: what has been taken out, in order, followed by what is
  -- still in the queue, is what was in the queue followed by what has been put in, in order. Nothing
  -- is lost, doubled or overtaken.
  pub calls_run_order :
      (calls : List (Call A)) (q : Queue A)
      → (calls_run calls q).1 ++ (calls_run calls q).0.items ≡ q.items ++ puts calls
  unfolding calls_run
  calls_run_order [] q = sym (append_nil q.items)
  calls_run_order (c ∷ calls) q =
      let q' = (call c q).0 in
      let out = taken (call c q).1 in
      append_assoc out (calls_run calls q').1 (calls_run calls q').0.items
      ∙ ap (λ l. out ++ l) (calls_run_order calls q')
      ∙ sym (append_assoc out q'.items (puts calls))
      ∙ ap (λ l. l ++ puts calls) (call_order c q.items q.stopped)
      ∙ append_assoc q.items (put c) (puts calls)

  call_stopped :
      (c : Call A) (items : List A)
      → (call c (record { items = items; stopped = true })).0.stopped ≡ true
  unfolding call push try_push pop try_pop try_pop_if stop
  call_stopped (pushing x) items = refl
  call_stopped (try_pushing false x) items = refl
  call_stopped (try_pushing true x) items = refl
  call_stopped popping [] = refl
  call_stopped popping (x ∷ items) = refl
  call_stopped (try_popping false) items = refl
  call_stopped (try_popping true) [] = refl
  call_stopped (try_popping true) (x ∷ items) = refl
  call_stopped (try_popping_if false p) items = refl
  call_stopped (try_popping_if true p) [] = refl
  call_stopped (try_popping_if true none) (x ∷ items) = refl
  call_stopped (try_popping_if true (some f)) (x ∷ items) = go (f x)
    where
      go :
          (t : Bool)
          → let r : Queue A × Popped A =
              if t
              then (record { items = items; stopped = true }, popped x)
              else (record { items = x ∷ items; stopped = true }, refused) in
            (r.0).stopped ≡ true
      go true = refl
      go false = refl
  call_stopped stopping items = refl

  run_stopped :
      (calls : List (Call A)) (items : List A)
      → (calls_run calls (record { items = items; stopped = true })).0.stopped ≡ true
  unfolding calls_run
  run_stopped [] items = refl
  run_stopped (c ∷ calls) items =
      let q = (call c (record { items = items; stopped = true })).0 in
      subst (λ b. (calls_run calls (record { items = q.items; stopped = b })).0.stopped ≡ true)
        (sym (call_stopped c items)) (run_stopped calls q.items)

  no_wait :
      (items : List A) (b : Bool)
      → b ≡ true
      → (pop (record { items = items; stopped = b })).1 ≢ waits
  unfolding pop
  no_wait [] true h e = subst IsDone e (record {})
  no_wait [] false h e = absurd (ground (arith, h))
  no_wait (x ∷ items) b h e = subst IsDone e (record {})

  -- After `stop()` and any further calls, `pop` does not wait.
  pub stopped_no_wait :
      (calls : List (Call A)) (q : Queue A) → (pop (calls_run calls (stop q)).0).1 ≢ waits
  unfolding stop
  stopped_no_wait calls q = no_wait _ _ (run_stopped calls q.items)
