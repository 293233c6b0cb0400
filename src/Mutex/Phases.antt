-- ===== src/Mutex/Phases.antt =====
-- Counting and phases for the turns of coro/Mutex.h.
use mathlib.Core.Path.{subst}
use async_framework.Prelude.{
  ==_iff, ℕ, ◌+◌, ◌≤◌, ◌≡◌, ◌≢◌, refl, sym, ap, ◌∙◌, arith, Option, none, some, List, [], ◌∷◌, ◌++◌,
  ◌==◌, if◌then◌else◌, length, length-append, Bool, true, false,
}
use async_framework.Mutex.{
  locked, Mutex, Phase, outside, loading, expecting, holding, releasing, taking, resuming,
  suspended, failed, set_phase, reverse_onto,
}
use async_framework.Mutex.Spec.{owns, waits, holds, count, fifo, Stage}

pub count-append : (j : ℕ) (l k : List ℕ) → count j (l ++ k) ≡ count j l + count j k
count-append j [] k = omega arith
count-append j (i ∷ l) k = ground (arith, count-append j l k)

pub append_assoc : (l k m : List ℕ) → (l ++ k) ++ m ≡ l ++ (k ++ m)
append_assoc [] k m = refl
append_assoc (i ∷ l) k m = ap (λ t. i ∷ t) (append_assoc l k m)

pub reverse_onto-fifo : (l head : List ℕ) → reverse_onto l head ≡ fifo l ++ head
unfolding reverse_onto
reverse_onto-fifo [] head = refl
reverse_onto-fifo (i ∷ l) head =
    reverse_onto-fifo l (i ∷ head) ∙ sym (append_assoc (fifo l) (i ∷ []) head)

pub append_nil : (l : List ℕ) → l ++ [] ≡ l
append_nil [] = refl
append_nil (i ∷ l) = ap (λ t. i ∷ t) (append_nil l)

pub length-fifo : (l : List ℕ) → length (fifo l) ≡ length l
length-fifo [] = refl
length-fifo (i ∷ l) = omega (arith, length-append (fifo l) (i ∷ []), length-fifo l)

-- Where a coroutine does not own the lock, it relies on nothing.
pub Stage-other : (p : Phase) (m m' : Mutex) → owns p ≡ 0 → Stage p m → Stage p m'
Stage-other outside m m' e h = record {}
Stage-other loading m m' e h = record {}
Stage-other (expecting q) m m' e h = record {}
Stage-other suspended m m' e h = record {}
Stage-other holding m m' e h = record {}
Stage-other releasing m m' e h = absurd (omega (arith, e))
Stage-other taking m m' e h = absurd (omega (arith, e))
Stage-other resuming m m' e h = record {}
Stage-other failed m m' e h = h

-- New awaiters change nothing that a coroutine relies on.
pub Stage-grown :
    (p : Phase) (l : List ℕ) (i : ℕ) (ws : List ℕ)
    → Stage p (record { state = locked l; waiters = ws })
    → Stage p (record { state = locked (i ∷ l); waiters = ws })
Stage-grown outside l i ws h = record {}
Stage-grown loading l i ws h = record {}
Stage-grown (expecting q) l i ws h = record {}
Stage-grown suspended l i ws h = record {}
Stage-grown holding l i ws h = record {}
Stage-grown releasing l i ws h = h
Stage-grown taking l i ws h = (h.0, omega arith)
Stage-grown resuming l i ws h = record {}
Stage-grown failed l i ws h = h

pub owns-waits : (p : Phase) → owns p + waits p ≤ 1
owns-waits outside = omega arith
owns-waits loading = omega arith
owns-waits (expecting q) = omega arith
owns-waits suspended = omega arith
owns-waits holding = omega arith
owns-waits releasing = omega arith
owns-waits taking = omega arith
owns-waits resuming = omega arith
owns-waits failed = omega arith

pub holds-other : (o : Option ℕ) (i j : ℕ) → holds o i ≡ 1 → j ≢ i → holds o j ≡ 0
holds-other none i j e n = refl
holds-other (some h) i j e n = ground (arith, e, n)

pub holds-some : (o : Option ℕ) (i : ℕ) → holds o i ≡ 1 → o ≡ some i
holds-some none i e = absurd (omega (arith, e))
holds-some (some h) i e = ap some (ground (arith, e))

-- What holds of the new phase of one coroutine and of the others holds of all.
pub set_all :
    (P : ℕ → Phase → Type 0) (f : ℕ → Phase) (i : ℕ) (p : Phase)
    → P i p
    → ((j : ℕ) → j ≢ i → P j (f j))
    → (j : ℕ) → P j (set_phase f i p j)
set_all P f i p new rest j = go (j == i) refl
  where
    go : (b : Bool) → (j == i) ≡ b → P j (if b then p else f j)
    go true e = subst (λ k. P k p) (sym ((==_iff j i).0 e)) new
    go false e = rest j (λ d. absurd (ground (arith, d, e)))

-- The same of the two coroutines of a resumption.
pub set_two :
    (P : ℕ → Phase → Type 0) (f : ℕ → Phase) (i j : ℕ)
    → P j holding
    → (i ≢ j → P i resuming)
    → ((k : ℕ) → k ≢ i → k ≢ j → P k (f k))
    → (k : ℕ) → P k (set_phase (set_phase f i resuming) j holding k)
set_two P f i j new old rest =
    set_all P (set_phase f i resuming) j holding new
      (λ k n. set_all (λ k p. k ≢ j → P k p) f i resuming old rest k n)
