-- ===== src/ClientQueue/Collector/Running.antt =====
-- coro_apps/coro_io/client_pool.hpp: there is one collector at most, and there is one when there are
-- clients.
use async_framework.Prelude.{ℕ, ◌+◌, ◌≤◌, ◌≡◌, refl, Bool, true, false, arith}
use async_framework.ClientQueue.Collector.{
  Side, Counters, side_at, with_side, Entering, counts_first, counts, stores_first, stores,
  Refusing, refuses_first, refuses, Leaving, removes, uncounts, Starting, starts, finds_one,
  Collecting, finishes, loads_zero, loads_more, ends_empty, loads_second, restarts, ends_found,
  Step, enters, refused, leaves, starting, collects, Steps, here, then_step,
}

-- A size counts the elements and the threads that are at one.
abbrev pub IsSized : Side → Type 0
IsSized s = s.size ≡ s.queue + s.entering_first + s.entering + s.leaving

-- `collecter_cnt_` counts the collectors that run.
abbrev pub IsOne : Counters → Type 0
IsOne c = (c.collecting ≡ c.collecter_cnt) × (c.collecter_cnt ≤ 1)

pub record IsKept (c : Counters) : Type 0 where
  pub first : IsSized c.side0
  pub second : IsSized c.side1
  pub running : IsOne c

Entering-IsSized : {s s' : Side} {n : ℕ} → Entering s s' n → IsSized s → IsSized s'
Entering-IsSized (counts_first s empty) h = omega arith
Entering-IsSized (counts s more small) h = omega arith
Entering-IsSized (stores_first s there) h = omega arith
Entering-IsSized (stores s there) h = omega arith

Refusing-IsSized : {s s' : Side} → Refusing s s' → IsSized s → IsSized s'
Refusing-IsSized (refuses_first s there) h = omega arith
Refusing-IsSized (refuses s there) h = omega arith

Leaving-IsSized : {s s' : Side} → Leaving s s' → IsSized s → IsSized s'
Leaving-IsSized (removes n s there) h = omega arith
Leaving-IsSized (uncounts n s there) h = omega arith

-- The steps of the collectors and of those that start one leave the sizes.
keeps-IsKept :
    (c c' : Counters) → c'.side0 ≡ c.side0 → c'.side1 ≡ c.side1 → IsOne c' → IsKept c → IsKept c'
keeps-IsKept c c' same0 same1 ok' ok = record {
  first = rw same0 ok.first;
  second = rw same1 ok.second;
  running = ok';
}

with_side-IsKept :
    (index : Bool) (s : Side) (c : Counters)
    → (IsSized (side_at index c) → IsSized s)
    → IsKept c
    → IsKept (with_side index s c)
with_side-IsKept false s c keep ok = record {
  first = keep ok.first;
  second = ok.second;
  running = ok.running;
}
with_side-IsKept true s c keep ok = record {
  first = ok.first;
  second = keep ok.second;
  running = ok.running;
}

Starting-IsOne : {c c' : Counters} → Starting c c' → IsOne c → IsOne c'
Starting-IsOne (starts c there none_runs) (counted, one) = (omega arith, omega arith)
Starting-IsOne (finds_one c there runs) ok = ok

Collecting-IsOne : {c c' : Counters} → Collecting c c' → IsOne c → IsOne c'
Collecting-IsOne (finishes c there) (counted, one) = (omega arith, omega arith)
Collecting-IsOne (restarts c there none_runs) (counted, one) = (omega arith, omega arith)
Collecting-IsOne (loads_zero c there zero_there) ok = ok
Collecting-IsOne (loads_more c there more) ok = ok
Collecting-IsOne (ends_empty c there zero_there) ok = ok
Collecting-IsOne (loads_second c there more) ok = ok
Collecting-IsOne (ends_found c there runs) ok = ok

Starting-sides : {c c' : Counters} → Starting c c' → (c'.side0 ≡ c.side0) × (c'.side1 ≡ c.side1)
Starting-sides (starts c there none_runs) = (refl, refl)
Starting-sides (finds_one c there runs) = (refl, refl)

Collecting-sides : {c c' : Counters} → Collecting c c' → (c'.side0 ≡ c.side0) × (c'.side1 ≡ c.side1)
Collecting-sides (finishes c there) = (refl, refl)
Collecting-sides (restarts c there none_runs) = (refl, refl)
Collecting-sides (loads_zero c there zero_there) = (refl, refl)
Collecting-sides (loads_more c there more) = (refl, refl)
Collecting-sides (ends_empty c there zero_there) = (refl, refl)
Collecting-sides (loads_second c there more) = (refl, refl)
Collecting-sides (ends_found c there runs) = (refl, refl)

more_pending-IsKept : (n : ℕ) (c : Counters) → IsKept c → IsKept (record c { pending = n })
more_pending-IsKept n c ok = record { first = ok.first; second = ok.second; running = ok.running }

Step-IsKept : {refusals : Bool} {c c' : Counters} → Step refusals c c' → IsKept c → IsKept c'
Step-IsKept (enters index c {s} {n} e) ok =
    more_pending-IsKept (c.pending + n) (with_side index s c)
      (with_side-IsKept index s c (Entering-IsSized e) ok)
Step-IsKept (refused may index c {s} e) ok = with_side-IsKept index s c (Refusing-IsSized e) ok
Step-IsKept (leaves index c {s} e) ok = with_side-IsKept index s c (Leaving-IsSized e) ok
Step-IsKept (starting {c} {c'} e) ok =
    let (same0, same1) = Starting-sides e in
    keeps-IsKept c c' same0 same1 (Starting-IsOne e ok.running) ok
Step-IsKept (collects {c} {c'} e) ok =
    let (same0, same1) = Collecting-sides e in
    keeps-IsKept c c' same0 same1 (Collecting-IsOne e ok.running) ok

pub Steps-IsKept : {refusals : Bool} {c c' : Counters} → Steps refusals c c' → IsKept c → IsKept c'
Steps-IsKept (here c) ok = ok
Steps-IsKept (then_step run e) ok = Step-IsKept e (Steps-IsKept run ok)
