-- ===== src/Mutex/Spec.antt =====
-- What coro/Mutex.h promises: a lock with one owner and a queue.
use async_framework.Prelude.{
  ℕ, ◌+◌, ◌<◌, ◌≡◌, Option, none, some, List, [], ◌∷◌, ◌++◌, ◌==◌, if◌then◌else◌, length,
}
use async_framework.Mutex.{
  Word, unlocked, locked, queued, Mutex, Phase, holding, releasing, taking, suspended, failed,
  System,
}

pub record Lock : Type 0 where
  pub owner : Option ℕ
  pub queue : List ℕ

abbrev pub free_lock : Lock
free_lock = record { owner = none; queue = [] }

-- What a turn of coroutine `i` does. It acquires a free lock; it puts itself at the end of the queue of
-- a held one; the owner hands over to the first of the queue, or releases when there is none.
pub data Move (i : ℕ) (a b : Lock) : Type 0 where
  stay : b.owner ≡ a.owner → b.queue ≡ a.queue → Move i a b
  acquire : a.owner ≡ none → a.queue ≡ [] → b.owner ≡ some i → b.queue ≡ [] → Move i a b
  enqueue : (h : ℕ) → a.owner ≡ some h → b.owner ≡ some h → b.queue ≡ a.queue ++ i ∷ [] → Move i a b
  hand_over : (j : ℕ) → a.owner ≡ some i → b.owner ≡ some j → a.queue ≡ j ∷ b.queue → Move i a b
  release : a.owner ≡ some i → a.queue ≡ [] → b.owner ≡ none → b.queue ≡ [] → Move i a b

-- The moves of the coroutines of a schedule, one for each turn.
pub data Moves : List ℕ → Lock → Lock → Type 0 where
  none_left : (a : Lock) → Moves [] a a
  then_moves :
      (i : ℕ) (turns : List ℕ) (a b c : Lock) → Move i a b → Moves turns b c → Moves (i ∷ turns) a c

abbrev pub owns : Phase → ℕ
owns holding = 1
owns releasing = 1
owns taking = 1
owns _ = 0

abbrev pub waits : Phase → ℕ
waits suspended = 1
waits _ = 0

abbrev pub holds : Option ℕ → ℕ → ℕ
holds none j = 0
holds (some h) j = if j == h then 1 else 0

abbrev pub count : ℕ → List ℕ → ℕ
count j [] = 0
count j (i ∷ l) = (if j == i then 1 else 0) + count j l

-- New awaiters in FIFO order.
abbrev pub fifo : List ℕ → List ℕ
fifo [] = []
fifo (i ∷ l) = fifo l ++ i ∷ []

abbrev pub Agrees : Word → List ℕ → Lock → Type 0
Agrees unlocked ws a = (a.owner ≡ none) × (a.queue ≡ []) × (ws ≡ [])
Agrees (locked l) ws a = ((h : ℕ) × (a.owner ≡ some h)) × (a.queue ≡ ws ++ fifo l)

-- What a coroutine inside `unlock` relies on.
abbrev pub Stage : Phase → Mutex → Type 0
Stage releasing m = m.waiters ≡ []
Stage taking m = (m.waiters ≡ []) × (0 < length (queued m.state))
Stage failed m = ⊥
Stage _ m = Unit {0}

-- The system stands for the lock.
pub record Rep (s : System) (a : Lock) : Type 0 where
  pub agrees : Agrees s.mutex.state s.mutex.waiters a
  pub owners : (j : ℕ) → owns (s.phase j) ≡ holds a.owner j
  pub waiting : (j : ℕ) → waits (s.phase j) ≡ count j a.queue
  pub stages : (j : ℕ) → Stage (s.phase j) s.mutex
