-- ===== src/Semaphore/Tests.antt =====
-- coro/Semaphore.h: runs with one permit.
use async_framework.Prelude.{ℕ, ◌+◌, ◌≤◌, ◌≡◌, refl, List, [], ◌∷◌, sum_by, arith}
use async_framework.SpinLock.{spin_step}
use async_framework.Semaphore.{
  Op, acquire, release, try_acquire, run, step, phase_step, inside_step, started,
}
use async_framework.Semaphore.Permits.{holder, run-permits}

abbrev programs : List (List Op)
programs = (acquire ∷ release 1 ∷ []) ∷ (acquire ∷ []) ∷ (try_acquire ∷ []) ∷ []

-- The first acquires, the second spins, then waits.
abbrev schedule : List ℕ
schedule = 0 ∷ 0 ∷ 1 ∷ 1 ∷ 0 ∷ 0 ∷ 1 ∷ 1 ∷ 1 ∷ 1 ∷ []

second_waits : (run 1 schedule (started 8 1 programs)).acquired ≡ 1
unfolding run step phase_step inside_step spin_step started
second_waits = refl

run-permits_example :
    let z = run 1 schedule (started 8 1 programs) in
    (sum_by holder z.callers ≤ 1)
    × (z.semaphore.count + z.acquired ≡ 1 + z.released)
    × (z.semaphore.count ≤ 1)
run-permits_example = run-permits 1 8 1 programs schedule (omega arith) (omega arith)
