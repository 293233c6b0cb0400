-- ===== src/Mutex.antt =====
-- coro/Mutex.h: the lock-free mutex of coroutines, one atomic operation at a time. A coroutine, and
-- the `LockAwaiter` it waits in, is a number. A pointer to an awaiter stands for the list that its
-- `next_` pointers make, so that a compare-exchange compares the heads. `unlock` up to its load is
-- one turn: only the holder changes `waiters_` or unlocks.
pub mod Spec
pub mod Phases
pub mod Turns
pub mod Refine
pub mod Safety
mod Tests
use async_framework.Prelude.{
  ℕ, Bool, true, false, Option, none, some, List, [], ◌∷◌, ◌==◌, if◌then◌else◌,
}

-- state_: `this` is unlocked, and otherwise the awaiters newly queued, the last one first; none of
-- them is nullptr.
pub data Word : Type 0 where
  unlocked : Word
  locked : List ℕ → Word

pub record Mutex : Type 0 where
  pub state : Word
  pub waiters : List ℕ

abbrev pub queued : Word → List ℕ
queued unlocked = []
queued (locked l) = l

-- A value of the type `void *` that a thread has loaded.
pub data Pointer : Type 0 where
  this_mutex : Pointer
  null_pointer : Pointer
  awaiter : ℕ → Pointer

abbrev pub load : Word → Pointer
load unlocked = this_mutex
load (locked []) = null_pointer
load (locked (i ∷ l)) = awaiter i

abbrev pub equals : Pointer → Pointer → Bool
equals this_mutex this_mutex = true
equals null_pointer null_pointer = true
equals (awaiter i) (awaiter j) = i == j
equals _ _ = false

-- Where a coroutine stands: outside; before the load and in the loop of `lockAsyncImpl`, with the
-- value it expects; suspended; holding the lock; in `unlock` before the compare-exchange and before
-- the exchange, and in its call of `resume()`, which runs the resumed coroutine and returns when that
-- one suspends or ends. `failed` is a failed assertion.
pub data Phase : Type 0 where
  outside loading : Phase
  expecting : Pointer → Phase
  suspended holding releasing taking resuming failed : Phase

-- What an operation does to the coroutine that runs it: it moves on, or it resumes another.
pub data Next : Type 0 where
  moves : Phase → Next
  resumes : ℕ → Next

unfoldable pub try_lock : Mutex → Mutex × Bool
try_lock m =
    if equals (load m.state) this_mutex then (record m { state = locked [] }, true) else (m, false)

-- `await_ready`, before `await_suspend`.
unfoldable pub await_ready : Mutex → Mutex × Next
unfolding try_lock
await_ready m = let (m', ok) = try_lock m in (m', moves (if ok then holding else loading))

-- A turn of the loop of `lockAsyncImpl`.
unfoldable pub lock_async_impl : ℕ → Pointer → Mutex → Mutex × Next
lock_async_impl i this_mutex m =
    if equals (load m.state) this_mutex
    then (record m { state = locked [] }, moves holding)
    else (m, moves (expecting (load m.state)))
lock_async_impl i old_value m =
    if equals (load m.state) old_value
    then (record m { state = locked (i ∷ queued m.state) }, moves suspended)
    else (m, moves (expecting (load m.state)))

-- The end of `unlock`, `head` being `waitersHead`.
unfoldable pub resume_head : List ℕ → Mutex → Mutex × Next
resume_head [] m = (m, moves failed)
resume_head (j ∷ rest) m = (record m { waiters = rest }, resumes j)

-- `unlock` up to the load of the state, for no waiters in FIFO order.
unfoldable pub unlock_load : Pointer → Mutex → Mutex × Next
unlock_load null_pointer m = (m, moves releasing)
unlock_load _ m = (m, moves taking)

unfoldable pub unlock : Mutex → Mutex × Next
unfolding resume_head unlock_load
unlock m =
    if equals (load m.state) this_mutex
    then (m, moves failed)
    else elim m.waiters [ [] ↦ unlock_load (load m.state) m | j ∷ rest ↦ resume_head (j ∷ rest) m ]

-- The compare-exchange of `unlock`.
unfoldable pub release_lock : Mutex → Mutex × Next
release_lock m =
    if equals (load m.state) null_pointer
    then (record m { state = unlocked }, moves outside)
    else (m, moves taking)

-- The loop of `unlock` that turns the new awaiters round.
unfoldable pub reverse_onto : List ℕ → List ℕ → List ℕ
reverse_onto [] head = head
reverse_onto (i ∷ l) head = reverse_onto l (i ∷ head)

-- The exchange of `unlock`, and what follows it; it is reached with no waiters in FIFO order.
unfoldable pub take_queued : Mutex → Mutex × Next
unfolding reverse_onto resume_head
take_queued m = elim m.state [
  | unlocked ↦ (m, moves failed)
  | locked l ↦ resume_head (reverse_onto l []) (record m { state = locked [] })
]

-- The next atomic operation of coroutine `i`. One outside starts `co_await coLock()`, one that holds
-- the lock calls `unlock()`.
unfoldable pub operate : ℕ → Phase → Mutex → Mutex × Next
unfolding await_ready lock_async_impl unlock release_lock take_queued
operate i outside m = await_ready m
operate i loading m = (m, moves (expecting (load m.state)))
operate i (expecting old_value) m = lock_async_impl i old_value m
operate i suspended m = (m, moves suspended)
operate i holding m = unlock m
operate i releasing m = release_lock m
operate i taking m = take_queued m
operate i resuming m = (m, moves outside)
operate i failed m = (m, moves failed)

pub record System : Type 0 where
  pub mutex : Mutex
  pub phase : ℕ → Phase

abbrev pub set_phase : (ℕ → Phase) → ℕ → Phase → ℕ → Phase
set_phase f i p j = if j == i then p else f j

abbrev pub applied : System → ℕ → Mutex × Next → System
applied s i (m, moves p) = record { mutex = m; phase = set_phase s.phase i p }
applied s i (m, resumes j) = record {
  mutex = m;
  phase = set_phase (set_phase s.phase i resuming) j holding;
}

unfoldable pub turn : System → ℕ → System
unfolding operate
turn s i = applied s i (operate i (s.phase i) s.mutex)

unfoldable pub run : System → List ℕ → System
unfolding turn
run s [] = s
run s (i ∷ turns) = run (turn s i) turns

abbrev pub unused : System
unused = record { mutex = record { state = unlocked; waiters = [] }; phase = λ i. outside }
