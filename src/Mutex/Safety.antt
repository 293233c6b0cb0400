-- ===== src/Mutex/Safety.antt =====
-- What every schedule of coro/Mutex.h keeps.
use async_framework.Prelude.{
  ℕ, ◌≡◌, ◌≢◌, refl, sym, ap, ◌∙◌, arith, Option, none, some, List, [], ◌∷◌,
}
use mathlib.Core.Path.{subst}
use async_framework.Mutex.{Word, suspended, failed, unlocked, locked, System, unused, turn, run}
use async_framework.Mutex.Spec.{
  Lock, free_lock, Moves, none_left, then_moves, owns, waits, holds, count, Agrees, Rep, Stage,
}
use async_framework.Mutex.Refine.{turn-Rep}

unused-Rep : Rep unused free_lock
unused-Rep = record {
  agrees = (refl, refl, refl);
  owners = λ j. refl;
  waiting = λ j. refl;
  stages = λ j. record {};
}

run-Rep_from :
    (a : Lock) (s : System) (turns : List ℕ)
    → Rep s a
    → (b : Lock) × Moves turns a b × Rep (run s turns) b
unfolding run
run-Rep_from a s [] r = (a, none_left a, r)
run-Rep_from a s (i ∷ turns) r =
    let (b, step, q) = turn-Rep s a i r in
    let (c, rest, t) = run-Rep_from b (turn s i) turns q in
    (c, then_moves i turns a b c step rest, t)

-- After any schedule of the atomic operations of any coroutines on an unused mutex, the system stands
-- for a lock that the schedule leads to from the free one, by one move of the coroutine of each turn:
-- the mutex refines a lock with one owner that the owner hands over in the order of queueing.
pub run-Rep : (turns : List ℕ) → (b : Lock) × Moves turns free_lock b × Rep (run unused turns) b
run-Rep turns = run-Rep_from free_lock unused turns unused-Rep

holds_unique : (o : Option ℕ) (i j : ℕ) → holds o i ≡ 1 → holds o j ≡ 1 → i ≡ j
holds_unique none i j e d = absurd (omega (arith, e))
holds_unique (some h) i j e d = ground (arith, e, d)

-- Mutual exclusion: after any schedule, two coroutines that hold the lock, or are inside `unlock()` and
-- have not released it or handed it over yet, are the same.
pub owner_unique :
    (turns : List ℕ) (i j : ℕ)
    → owns ((run unused turns).phase i) ≡ 1
    → owns ((run unused turns).phase j) ≡ 1
    → i ≡ j
owner_unique turns i j hi hj =
    let (b, m, r) = run-Rep turns in
    holds_unique b.owner i j (sym (r.owners i) ∙ hi) (sym (r.owners j) ∙ hj)

held_if_queued :
    (s : System) (a : Lock) (i : ℕ)
    → Rep s a
    → waits (s.phase i) ≡ 1
    → (h : ℕ) × (owns (s.phase h) ≡ 1)
held_if_queued s a i r e = go s.mutex.state r.agrees
  where
    go : (w : Word) → Agrees w s.mutex.waiters a → (h : ℕ) × (owns (s.phase h) ≡ 1)
    go unlocked g = absurd (omega (arith, e, r.waiting i ∙ ap (count i) g.1))
    go (locked l) g = (g.0.0, r.owners g.0.0 ∙ ap (λ o. holds o g.0.0) g.0.1 ∙ ground arith)

-- No lost waiter: after any schedule, while a coroutine is suspended, some coroutine owns the lock
-- and has yet to unlock it.
pub waiter_has_owner :
    (turns : List ℕ) (i : ℕ)
    → (run unused turns).phase i ≡ suspended
    → (h : ℕ) × (owns ((run unused turns).phase h) ≡ 1)
waiter_has_owner turns i e =
    let (b, m, r) = run-Rep turns in held_if_queued (run unused turns) b i r (ap waits e)

-- After any schedule, no assertion of the mutex has failed.
pub no_failure : (turns : List ℕ) (i : ℕ) → (run unused turns).phase i ≢ failed
no_failure turns i e =
    let (b, m, r) = run-Rep turns in subst (λ p. Stage p (run unused turns).mutex) e (r.stages i)
