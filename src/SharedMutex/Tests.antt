-- ===== src/SharedMutex/Tests.antt =====
-- Runs of coro/SharedMutex.h.
use async_framework.Prelude.{ℕ, ◌+◌, ◌*◌, ◌^◌, ◌<◌, ◌≤◌, ◌≡◌, refl, List, [], ◌∷◌, ◌⊎◌}
use async_framework.SharedMutex.{
  at_gate1_shared, writing, idle, Want, to_lock, to_lock_shared, run, unused,
}
use async_framework.SharedMutex.Exclusion.{total, queues, writes, reads, fails, run_exclusive}

-- Coroutine 0 reads, 1 waits to write, 2 waits to read, 0 ends, 1 writes.
abbrev contended : List (ℕ × Want)
contended =
    (0, to_lock_shared) ∷ (1, to_lock) ∷ (2, to_lock_shared) ∷ (0, to_lock) ∷ (1, to_lock) ∷ []

writer_first : (run (unused 3) contended).phases ≡ idle ∷ writing ∷ at_gate1_shared ∷ []
unfolding run
writer_first = refl

run_exclusive_example :
    let s = run (unused 3) contended in
    (total queues s.phases + total writes s.phases ≤ 1)
    × ((total writes s.phases ≡ 0) ⊎ (total reads s.phases ≡ 0))
    × (s.state ≡ 2 ^ 31 * (total queues s.phases + total writes s.phases) + total reads s.phases)
    × (total reads s.phases < 2 ^ 31)
    × (total fails s.phases ≡ 0)
run_exclusive_example = run_exclusive 3 contended
