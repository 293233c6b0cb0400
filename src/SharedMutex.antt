-- ===== src/SharedMutex.antt =====
-- coro/SharedMutex.h: the readers-writer lock of coroutines, one critical section of `mut_` at a time.
-- A coroutine at a gate may test its predicate again at any of its turns: what wakes it is
-- `ConditionVariable`, whose notifications have no definition in the repository.
pub mod Exclusion
mod Tests
use async_framework.Prelude.{
  ℕ, zero, suc, ◌+◌, ◌-◌, ◌*◌, ◌%◌, ◌^◌, Bool, true, false, Option, none, some, List, [], ◌∷◌, leb,
  ltb, ◌==◌, if◌then◌else◌, get_elem?,
}

abbrev pub write_entered_flag : ℕ
write_entered_flag = 2 ^ 31

abbrev pub max_readers : ℕ
max_readers = 2 ^ 31 - 1

-- state_ is an `unsigned` of 32 bits.
abbrev pub write_entered : ℕ → Bool
write_entered state = leb write_entered_flag state

abbrev pub readers : ℕ → ℕ
readers state = state % write_entered_flag

-- Where a coroutine stands.
pub data Phase : Type 0 where
  idle at_gate1 at_gate2 writing at_gate1_shared reading failed : Phase

-- What a coroutine that is idle calls; whether `mut_.tryLock()` succeeds is an argument.
pub data Want : Type 0 where
  to_lock to_lock_shared : Want
  to_try_lock to_try_lock_shared : Bool → Want

-- `coLock` from the setting of the flag on.
unfoldable pub enter : ℕ → ℕ × Phase
enter state =
    let entered = if write_entered state then state else state + write_entered_flag in
    if readers entered == 0 then (entered, writing) else (entered, at_gate2)

unfoldable pub co_lock : ℕ → ℕ × Phase
unfolding enter
co_lock state = if write_entered state then (state, at_gate1) else enter state

unfoldable pub wait_gate2 : ℕ → ℕ × Phase
wait_gate2 state = if readers state == 0 then (state, writing) else (state, at_gate2)

unfoldable pub try_lock : Bool → ℕ → ℕ × Phase
try_lock false state = (state, idle)
try_lock true state = if state == 0 then (write_entered_flag, writing) else (state, idle)

unfoldable pub unlock : ℕ → ℕ × Phase
unlock state = if write_entered state then (0, idle) else (state, failed)

unfoldable pub co_lock_shared : ℕ → ℕ × Phase
co_lock_shared state =
    if leb max_readers state then (state, at_gate1_shared) else ((state + 1) % 2 ^ 32, reading)

unfoldable pub try_lock_shared : Bool → ℕ → ℕ × Phase
try_lock_shared false state = (state, idle)
try_lock_shared true state =
    if ltb state max_readers then ((state + 1) % 2 ^ 32, reading) else (state, idle)

-- The assertion leaves no wrap of `state_--`.
unfoldable pub unlock_shared : ℕ → ℕ × Phase
unlock_shared state = if readers state == 0 then (state, failed) else (state - 1, idle)

-- The next critical section of a coroutine.
unfoldable pub step : Want → Phase → ℕ → ℕ × Phase
unfolding co_lock wait_gate2 try_lock unlock co_lock_shared try_lock_shared unlock_shared
step to_lock idle state = co_lock state
step to_lock_shared idle state = co_lock_shared state
step (to_try_lock ok) idle state = try_lock ok state
step (to_try_lock_shared ok) idle state = try_lock_shared ok state
step want at_gate1 state = co_lock state
step want at_gate2 state = wait_gate2 state
step want writing state = unlock state
step want at_gate1_shared state = co_lock_shared state
step want reading state = unlock_shared state
step want failed state = (state, failed)

pub record System : Type 0 where
  pub state : ℕ
  pub phases : List Phase

abbrev pub set_phase : List Phase → ℕ → Phase → List Phase
set_phase [] i q = []
set_phase (p ∷ l) zero q = q ∷ l
set_phase (p ∷ l) (suc i) q = p ∷ set_phase l i q

-- A turn of coroutine `i`; there is none of an index out of range.
unfoldable pub turn : System → ℕ × Want → System
unfolding step
turn s (i, want) = elim (get_elem? s.phases i) [
  | none ↦ s
  | some p ↦
      let (state', q) = step want p s.state in
      record { state = state'; phases = set_phase s.phases i q }
]

unfoldable pub run : System → List (ℕ × Want) → System
unfolding turn
run s [] = s
run s (t ∷ turns) = run (turn s t) turns

abbrev pub idle_phases : ℕ → List Phase
idle_phases zero = []
idle_phases (suc n) = idle ∷ idle_phases n

-- A new mutex and `n` coroutines.
abbrev pub unused : ℕ → System
unused n = record { state = 0; phases = idle_phases n }
