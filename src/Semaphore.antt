-- ===== src/Semaphore.antt =====
-- coro/Semaphore.h over coro/SpinLock.h, for any number of coroutines: a step is one operation of the
-- lock, or what a coroutine does while it holds the lock. A coroutine that waits at the condition
-- variable may be resumed at any turn, since notifyOne and notifyAll have no definition.
pub mod Permits
mod Tests
use async_framework.Prelude.{
  ℕ, zero, suc, ◌+◌, ◌-◌, ◌%◌, ◌^◌, Bool, true, false, not, ◌&&◌, List, [], ◌∷◌, ◌==◌, ltb, leb,
  if◌then◌else◌, length, get_or, set,
}
use async_framework.SpinLock.{SpinLock, Spin, trying, watching, taken, co_lock, spin_step, unlock}

pub record Semaphore : Type 0 where
  pub lock : SpinLock
  pub count : ℕ

pub data Op : Type 0 where
  acquire : Op
  release : ℕ → Op
  try_acquire : Op

-- `inside` and `leaving` hold the lock, and so does a coroutine that is `suspending`: it has been put
-- on the list of the condition variable. One is `rejected`, or has `failed` with the lock, where an
-- assertion fails.
pub data Phase : Type 0 where
  between : Phase
  locking : Op → Spin → Phase
  inside : Op → Phase
  suspending : Phase
  waiting : Phase
  leaving : Phase
  rejected : Phase
  failed : Phase

-- A coroutine with the calls that it has still to make.
pub record Caller : Type 0 where
  pub phase : Phase
  pub program : List Op

-- After a step: what it has acquired and what it has released.
pub record Turned : Type 0 where
  pub semaphore : Semaphore
  pub phase : Phase
  pub acquired : ℕ
  pub released : ℕ

abbrev pub less : Semaphore → Semaphore
less s = record s { count = s.count - 1 }

abbrev pub more : ℕ → Semaphore → Semaphore
more update s = record s { count = (s.count + update) % 2 ^ 64 }

abbrev pub turned : Semaphore → Phase → Turned
turned s phase = record { semaphore = s; phase = phase; acquired = 0; released = 0 }

-- With the lock, where `max` is LeastMaxValue.
unfoldable pub inside_step : ℕ → Op → Semaphore → Turned
inside_step max acquire s =
    if ltb 0 s.count
    then record { semaphore = less s; phase = leaving; acquired = 1; released = 0 }
    else turned s suspending
inside_step max (release update) s =
    if leb s.count ((max + (2 ^ 64 - update)) % 2 ^ 64)
    then record { semaphore = more update s; phase = leaving; acquired = 0; released = update }
    else turned s failed
inside_step max try_acquire s =
    if s.count == 0
    then turned s leaving
    else record { semaphore = less s; phase = leaving; acquired = 1; released = 0 }

abbrev pub locked_by : Op → Spin → Phase
locked_by op taken = inside op
locked_by op spin = locking op spin

-- The assertion of `release` comes before the lock.
abbrev pub is_allowed : ℕ → Op → Bool
is_allowed max (release update) = leb update max && not (update == 0)
is_allowed max _ = true

abbrev pub next_call : ℕ → List Op → Semaphore → Phase
next_call max [] s = between
next_call max (op ∷ program) s = if is_allowed max op then locking op (co_lock s.lock) else rejected

abbrev pub rest_of : Phase → List Op → List Op
rest_of between (op ∷ program) = program
rest_of _ program = program

unfoldable pub phase_step : ℕ → List Op → Phase → Semaphore → Turned
unfolding inside_step spin_step
phase_step max program between s = turned s (next_call max program s)
phase_step max program (locking op spin) s =
    let (lock, spin') = spin_step spin s.lock in
    turned (record s { lock = lock }) (locked_by op spin')
phase_step max program (inside op) s = inside_step max op s
phase_step max program suspending s = turned (record s { lock = unlock s.lock }) waiting
phase_step max program waiting s = turned s (locking acquire (co_lock s.lock))
phase_step max program leaving s = turned (record s { lock = unlock s.lock }) between
phase_step max program rejected s = turned s rejected
phase_step max program failed s = turned s failed

pub record System : Type 0 where
  pub semaphore : Semaphore
  pub callers : List Caller
  pub acquired : ℕ
  pub released : ℕ

abbrev pub no_caller : Caller
no_caller = record { phase = between; program = [] }

unfoldable pub step : ℕ → ℕ → System → System
unfolding phase_step
step max id z =
    let caller = get_or z.callers id no_caller in
    let t = phase_step max caller.program caller.phase z.semaphore in
    let after : Caller = record {
      phase = t.phase;
      program = rest_of caller.phase caller.program;
    } in
    if ltb id (length z.callers)
    then record {
      semaphore = t.semaphore;
      callers = set z.callers id after;
      acquired = z.acquired + t.acquired;
      released = z.released + t.released;
    }
    else z

unfoldable pub run : ℕ → List ℕ → System → System
unfolding step
run max [] z = z
run max (id ∷ schedule) z = run max schedule (step max id z)

abbrev pub callers_of : List (List Op) → List Caller
callers_of [] = []
callers_of (program ∷ programs) =
    record { phase = between; program = program } ∷ callers_of programs

unfoldable pub started : ℕ → ℕ → List (List Op) → System
started spin_count desired programs = record {
  semaphore = record { lock = record { spin_count = spin_count; locked = false }; count = desired };
  callers = callers_of programs;
  acquired = 0;
  released = 0;
}
