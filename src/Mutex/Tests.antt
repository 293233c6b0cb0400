-- ===== src/Mutex/Tests.antt =====
-- Runs of coro/Mutex.h.
use async_framework.Prelude.{ℕ, ◌≡◌, ◌≢◌, refl, List, [], ◌∷◌}
use async_framework.Mutex.{suspended, holding, failed, unused, run}
use async_framework.Mutex.Spec.{Lock, Moves, free_lock, owns, Rep}
use async_framework.Mutex.Safety.{run-Rep, owner_unique, waiter_has_owner, no_failure}

-- Coroutine 1 locks, 2 and 3 queue, 1 unlocks and hands over to 2.
abbrev contended : List ℕ
contended = 1 ∷ 2 ∷ 2 ∷ 3 ∷ 2 ∷ 3 ∷ 3 ∷ 1 ∷ 1 ∷ []

handed_to_first :
    ((run unused contended).phase 2 ≡ holding)
    × ((run unused contended).phase 3 ≡ suspended)
    × ((run unused contended).mutex.waiters ≡ 3 ∷ [])
unfolding run
handed_to_first = (refl, refl, refl)

owner_unique_example : ◌≡◌ {A = ℕ} 2 2
unfolding run
owner_unique_example = owner_unique contended 2 2 refl refl

waiter_has_owner_example : (h : ℕ) × (owns ((run unused contended).phase h) ≡ 1)
unfolding run
waiter_has_owner_example = waiter_has_owner contended 3 refl

no_failure_example : (run unused contended).phase 1 ≢ failed
no_failure_example = no_failure contended 1

run-Rep_example : (b : Lock) × Moves contended free_lock b × Rep (run unused contended) b
run-Rep_example = run-Rep contended
