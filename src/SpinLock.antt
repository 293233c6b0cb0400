-- ===== src/SpinLock.antt =====
-- coro/SpinLock.h: the lock by atomic operations. `spinCount_` is not negative.
use async_framework.Prelude.{ℕ, ◌-◌, Bool, true, false, not, ◌==◌, if◌then◌else◌}

pub record SpinLock : Type 0 where
  pub spin_count : ℕ
  pub locked : Bool

-- A coroutine in `coLock`, or a thread in `lock`, with its counter: before its exchange, before its
-- load, or at the end.
pub data Spin : Type 0 where
  trying : ℕ → Spin
  watching : ℕ → Spin
  taken : Spin

unfoldable pub try_lock : SpinLock → SpinLock × Bool
try_lock lock = (record lock { locked = true }, not lock.locked)

abbrev pub co_lock : SpinLock → Spin
co_lock lock = trying lock.spin_count

-- The load, and the counter; at 0 the coroutine yields.
abbrev pub watched : ℕ → SpinLock → Spin
watched counter lock =
    if not lock.locked
    then trying counter
    else if counter == 0
    then watching lock.spin_count
    else watching (counter - 1)

unfoldable pub spin_step : Spin → SpinLock → SpinLock × Spin
unfolding try_lock
spin_step (trying counter) lock =
    let (lock', ok) = try_lock lock in (lock', if ok then taken else watching counter)
spin_step (watching counter) lock = (lock, watched counter lock)
spin_step taken lock = (lock, taken)

abbrev pub unlock : SpinLock → SpinLock
unlock lock = record lock { locked = false }
