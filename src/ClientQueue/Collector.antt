-- ===== src/ClientQueue/Collector.antt =====
-- coro_apps/coro_io/client_pool.hpp: `enqueue` and `collect_idle_timeout_client` of a pool that is
-- kept, by their atomic steps. The threads are counted by where they stand. A client queue is here
-- the sizes of its halves; which half is selected matters only for the choice of the half, which is
-- free here.
pub mod Running
pub mod Present
use async_framework.Prelude.{ℕ, ◌+◌, ◌-◌, ◌≤◌, ◌<◌, ◌≡◌, Bool, true, false}
use async_framework.ClientQueue.{word}

-- The elements of queue_ and the value of size_ of a half; the threads in `enqueue` after
-- `++size_[index]`, which gave 1 or more, and those that have taken an element and have not counted
-- it.
pub record Side : Type 0 where
  pub queue : ℕ
  pub size : ℕ
  pub entering_first : ℕ
  pub entering : ℕ
  pub leaving : ℕ

-- The threads of `enqueue` before its `compare_exchange_strong`; and the collectors before
-- `--collecter_cnt_`, before the first and the second load of `size()`, and before their
-- `compare_exchange_strong`.
pub record Counters : Type 0 where
  pub side0 : Side
  pub side1 : Side
  pub collecter_cnt : ℕ
  pub pending : ℕ
  pub collecting : ℕ
  pub loading : ℕ
  pub loading_second : ℕ
  pub restarting : ℕ

abbrev pub side_at : Bool → Counters → Side
side_at false c = c.side0
side_at true c = c.side1

abbrev pub with_side : Bool → Side → Counters → Counters
with_side false s c = record c { side0 = s }
with_side true s c = record c { side1 = s }

-- A step on one half, and how many threads it makes `pending`. There are fewer than 2 ^ 64 clients, as
-- each is an object in memory.
pub data Entering : Side → Side → ℕ → Type 0 where
  counts_first :
      (s : Side)
      → s.size ≡ 0
      → Entering s (record s { size = 1; entering_first = s.entering_first + 1 }) 0
  counts :
      (s : Side)
      → 0 < s.size
      → s.size + 1 < word
      → Entering s (record s { size = s.size + 1; entering = s.entering + 1 }) 0
  stores_first :
      (s : Side)
      → 0 < s.entering_first
      → Entering s (record s { queue = s.queue + 1; entering_first = s.entering_first - 1 }) 1
  stores :
      (s : Side)
      → 0 < s.entering
      → Entering s (record s { queue = s.queue + 1; entering = s.entering - 1 }) 0

-- The queue has no memory for the element.
pub data Refusing : Side → Side → Type 0 where
  refuses_first :
      (s : Side)
      → 0 < s.entering_first
      → Refusing s (record s { size = s.size - 1; entering_first = s.entering_first - 1 })
  refuses :
      (s : Side)
      → 0 < s.entering
      → Refusing s (record s { size = s.size - 1; entering = s.entering - 1 })

-- `try_dequeue`, and `clear_old` for more elements than one.
pub data Leaving : Side → Side → Type 0 where
  removes :
      (n : ℕ)
      → (s : Side) → n ≤ s.queue
      → Leaving s (record s { queue = s.queue - n; leaving = s.leaving + n })
  uncounts :
      (n : ℕ)
      → (s : Side) → n ≤ s.leaving
      → Leaving s (record s { size = s.size - n; leaving = s.leaving - n })

pub data Starting : Counters → Counters → Type 0 where
  starts :
      (c : Counters)
      → 0 < c.pending
      → c.collecter_cnt ≡ 0
      → Starting c
          (record c { collecter_cnt = 1; pending = c.pending - 1; collecting = c.collecting + 1 })
  finds_one :
      (c : Counters)
      → 0 < c.pending
      → 0 < c.collecter_cnt
      → Starting c (record c { pending = c.pending - 1 })

-- From `--collecter_cnt_` to the next round or the end.
pub data Collecting : Counters → Counters → Type 0 where
  finishes :
      (c : Counters)
      → 0 < c.collecting
      → Collecting c (record c {
        collecter_cnt = c.collecter_cnt - 1;
        collecting = c.collecting - 1;
        loading = c.loading + 1;
      })
  loads_zero :
      (c : Counters)
      → 0 < c.loading
      → c.side0.size ≡ 0
      → Collecting c (record c { loading = c.loading - 1; loading_second = c.loading_second + 1 })
  loads_more :
      (c : Counters)
      → 0 < c.loading
      → 0 < c.side0.size
      → Collecting c (record c { loading = c.loading - 1; restarting = c.restarting + 1 })
  ends_empty :
      (c : Counters)
      → 0 < c.loading_second
      → c.side1.size ≡ 0
      → Collecting c (record c { loading_second = c.loading_second - 1 })
  loads_second :
      (c : Counters)
      → 0 < c.loading_second
      → 0 < c.side1.size
      → Collecting c
          (record c { loading_second = c.loading_second - 1; restarting = c.restarting + 1 })
  restarts :
      (c : Counters)
      → 0 < c.restarting
      → c.collecter_cnt ≡ 0
      → Collecting c (record c {
        collecter_cnt = 1;
        restarting = c.restarting - 1;
        collecting = c.collecting + 1;
      })
  ends_found :
      (c : Counters)
      → 0 < c.restarting
      → 0 < c.collecter_cnt
      → Collecting c (record c { restarting = c.restarting - 1 })

-- A step of some thread, where `refusals` says whether a queue may refuse an element.
pub data Step (refusals : Bool) : Counters → Counters → Type 0 where
  enters :
      (index : Bool)
      → (c : Counters) → {s : Side} → {n : ℕ} → Entering (side_at index c) s n
      → Step refusals c (record (with_side index s c) { pending = c.pending + n })
  refused :
      refusals ≡ true
      → (index : Bool) → (c : Counters) → {s : Side} → Refusing (side_at index c) s
      → Step refusals c (with_side index s c)
  leaves :
      (index : Bool)
      → (c : Counters) → {s : Side} → Leaving (side_at index c) s
      → Step refusals c (with_side index s c)
  starting : {c c' : Counters} → Starting c c' → Step refusals c c'
  collects : {c c' : Counters} → Collecting c c' → Step refusals c c'

pub data Steps (refusals : Bool) : Counters → Counters → Type 0 where
  here : (c : Counters) → Steps refusals c c
  then_step :
      {c c' c'' : Counters} → Steps refusals c c' → Step refusals c' c'' → Steps refusals c c''

abbrev pub no_side : Side
no_side = record { queue = 0; size = 0; entering_first = 0; entering = 0; leaving = 0 }

-- A new pool.
abbrev pub no_clients : Counters
no_clients = record {
  side0 = no_side;
  side1 = no_side;
  collecter_cnt = 0;
  pending = 0;
  collecting = 0;
  loading = 0;
  loading_second = 0;
  restarting = 0;
}
