-- ===== src/ClientQueue/Collector/Present.antt =====
-- coro_apps/coro_io/client_pool.hpp: while there are clients, a collector runs or a thread is about to
-- start one.
use async_framework.Prelude.{ℕ, ◌+◌, ◌≤◌, ◌<◌, ◌≡◌, refl, ◌⊎◌, inl, inr, true, false, arith}
use async_framework.ClientQueue.Collector.{
  Side, Counters, Entering, counts_first, counts, stores_first, stores, Leaving, removes, uncounts,
  Starting, starts, finds_one, Collecting, finishes, loads_zero, loads_more, ends_empty,
  loads_second, restarts, ends_found, Step, enters, refused, leaves, starting, collects, Steps,
  here, then_step, no_clients,
}
use async_framework.ClientQueue.Collector.Running.{Steps-IsKept}

-- The threads that run the collector or will look whether it runs.
abbrev pub watching : Counters → ℕ
watching c = c.collecter_cnt + c.pending + c.loading + c.restarting

-- A half without clients, or one that some of `n` or of those that have put in its first client will
-- see to.
abbrev pub IsSeen : Side → ℕ → Type 0
IsSeen s n = (s.size ≡ 0) ⊎ (0 < s.entering_first + n)

pub record IsWatched (c : Counters) : Type 0 where
  pub first : IsSeen c.side0 (watching c)
  pub second : IsSeen c.side1 (watching c + c.loading_second)

Entering-IsSeen : {s s' : Side} {n : ℕ} → Entering s s' n → (m : ℕ) → IsSeen s m → IsSeen s' (m + n)
Entering-IsSeen (counts_first s empty) m h = inr (omega arith)
Entering-IsSeen (counts s more small) m h = omega arith
Entering-IsSeen (stores_first s there) m h = inr (omega arith)
Entering-IsSeen (stores s there) m h = omega arith

Leaving-IsSeen : {s s' : Side} → Leaving s s' → (m : ℕ) → IsSeen s m → IsSeen s' m
Leaving-IsSeen (removes n s there) m h = h
Leaving-IsSeen (uncounts n s there) m h = omega arith

more-IsSeen : (s : Side) (m n : ℕ) → m ≤ n → IsSeen s m → IsSeen s n
more-IsSeen s m n le h = omega arith

Starting-IsWatched : {c c' : Counters} → Starting c c' → IsWatched c → IsWatched c'
Starting-IsWatched (starts c there none_runs) ok = record {
  first = inr (omega arith);
  second = inr (omega arith);
}
Starting-IsWatched (finds_one c there runs) ok = record {
  first = inr (omega arith);
  second = inr (omega arith);
}

Collecting-IsWatched : {c c' : Counters} → Collecting c c' → IsWatched c → IsWatched c'
Collecting-IsWatched (finishes c there) ok = record {
  first = inr (omega arith);
  second = inr (omega arith);
}
Collecting-IsWatched (loads_zero c there zero_there) ok = record {
  first = inl zero_there;
  second = inr (omega arith);
}
Collecting-IsWatched (loads_more c there more) ok = record {
  first = inr (omega arith);
  second = inr (omega arith);
}
Collecting-IsWatched (ends_empty c there zero_there) ok = record {
  first = ok.first;
  second = inl zero_there;
}
Collecting-IsWatched (loads_second c there more) ok = record {
  first = inr (omega arith);
  second = inr (omega arith);
}
Collecting-IsWatched (restarts c there none_runs) ok = record {
  first = inr (omega arith);
  second = inr (omega arith);
}
Collecting-IsWatched (ends_found c there runs) ok = record {
  first = inr (omega arith);
  second = inr (omega arith);
}

Step-IsWatched : {c c' : Counters} → Step false c c' → IsWatched c → IsWatched c'
Step-IsWatched (enters false c {s} {n} e) ok = record {
  first = more-IsSeen s (watching c + n) _ (omega arith) (Entering-IsSeen e (watching c) ok.first);
  second = more-IsSeen c.side1 (watching c + c.loading_second) _ (omega arith) ok.second;
}
Step-IsWatched (enters true c {s} {n} e) ok = record {
  first = more-IsSeen c.side0 (watching c) _ (omega arith) ok.first;
  second =
      more-IsSeen s (watching c + c.loading_second + n) _ (omega arith)
        (Entering-IsSeen e (watching c + c.loading_second) ok.second);
}
Step-IsWatched (refused may index c e) ok = cc
Step-IsWatched (leaves false c {s} e) ok = record {
  first = Leaving-IsSeen e (watching c) ok.first;
  second = ok.second;
}
Step-IsWatched (leaves true c {s} e) ok = record {
  first = ok.first;
  second = Leaving-IsSeen e (watching c + c.loading_second) ok.second;
}
Step-IsWatched (starting e) ok = Starting-IsWatched e ok
Step-IsWatched (collects e) ok = Collecting-IsWatched e ok

Steps-IsWatched : {c c' : Counters} → Steps false c c' → IsWatched c → IsWatched c'
Steps-IsWatched (here c) ok = ok
Steps-IsWatched (then_step run e) ok = Step-IsWatched e (Steps-IsWatched run ok)

-- The threads that are between two of their steps and may start a collector.
unfoldable pub between : Counters → ℕ
between c =
    c.side0.entering_first + c.side1.entering_first + c.pending + c.loading + c.loading_second
    + c.restarting

-- From a new pool that is kept and whose queues refuse no element, after any steps: while the queue
-- is not empty and no thread is between two steps of `enqueue` or of the end of a collector's round,
-- exactly one collector runs.
pub Steps-collecting :
    {c : Counters}
    → Steps false no_clients c
    → between c ≡ 0
    → 0 < c.side0.size + c.side1.size
    → c.collecting ≡ 1
unfolding between
Steps-collecting {c} run calm more =
    let kept =
      Steps-IsKept run (record { first = refl; second = refl; running = (refl, omega arith) }) in
    let watched = Steps-IsWatched run (record { first = inl refl; second = inl refl }) in
    omega (arith, kept.running.0, kept.running.1, watched.first, watched.second)
