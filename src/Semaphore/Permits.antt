-- ===== src/Semaphore/Permits.antt =====
-- coro/Semaphore.h: one coroutine at most holds the lock, and no permit is lost or made.
use async_framework.Prelude.{
  ℕ, zero, suc, ◌+◌, ◌-◌, ◌^◌, ◌≤◌, ◌<◌, ◌≡◌, ◌∙◌, leb, refl, inl, inr, Bool, true, false, not,
  ◌==◌, List, [], ◌∷◌, ltb, Bool-cases, if◌then◌else◌, length, get_or, sum_by, sum_by-set, arith,
}
use async_framework.SpinLock.{Spin, trying, watching, taken, spin_step}
use async_framework.Semaphore.{
  Semaphore, Op, acquire, release, try_acquire, Phase, between, locking, inside, suspending,
  waiting, leaving, rejected, failed, is_allowed, Caller, Turned, inside_step, locked_by, rest_of,
  phase_step, System, no_caller, step, run, callers_of, started,
}

abbrev pub holds : Phase → ℕ
holds (locking op taken) = 1
holds (inside op) = 1
holds suspending = 1
holds leaving = 1
holds failed = 1
holds _ = 0

-- Whether a call of `release` for too much is under way.
abbrev oversized : ℕ → Op → ℕ
oversized max (release update) = if leb update max then 0 else 1
oversized max _ = 0

abbrev misfits : ℕ → Phase → ℕ
misfits max (locking op spin) = oversized max op
misfits max (inside op) = oversized max op
misfits max _ = 0

abbrev misfit : ℕ → Caller → ℕ
misfit max caller = misfits max caller.phase

locked_by-misfits :
    (max : ℕ) (op : Op) (spin : Spin) → misfits max (locked_by op spin) ≡ oversized max op
locked_by-misfits max op (trying c) = refl
locked_by-misfits max op (watching c) = refl
locked_by-misfits max op taken = refl

is_allowed-oversized : (max : ℕ) (op : Op) → is_allowed max op ≡ true → oversized max op ≡ 0
is_allowed-oversized max acquire e = refl
is_allowed-oversized max (release update) e = ground (arith, e)
is_allowed-oversized max try_acquire e = refl

abbrev pub holder : Caller → ℕ
holder caller = holds caller.phase

abbrev pub bit : Bool → ℕ
bit b = if b then 1 else 0

-- A step of a coroutine in `phase` has moved the lock with it, and the permits.
record Moves (max : ℕ) (phase : Phase) (s : Semaphore) (t : Turned) : Type 0 where
  held : holds t.phase + bit s.lock.locked ≡ holds phase + bit t.semaphore.lock.locked
  permits : t.semaphore.count + t.acquired ≡ s.count + t.released
  bound : t.semaphore.count ≤ max
  fits : misfits max t.phase ≡ 0

inside_step-Moves :
    (max : ℕ) (op : Op) (s : Semaphore)
    → max < 2 ^ 32
    → s.count ≤ max
    → oversized max op ≡ 0
    → Moves max (inside op) s (inside_step max op s)
unfolding inside_step
inside_step-Moves max acquire s small le fit = record {
  held = ground arith;
  permits = ground arith;
  bound = ground arith;
  fits = ground arith;
}
inside_step-Moves max (release update) s small le fit = record {
  held = ground arith;
  permits = ground arith;
  bound = ground arith;
  fits = ground arith;
}
inside_step-Moves max try_acquire s small le fit = record {
  held = ground arith;
  permits = ground arith;
  bound = ground arith;
  fits = ground arith;
}

bit_le : (b : Bool) → bit b ≤ 1
bit_le true = omega arith
bit_le false = omega arith

unheld : (b : Bool) → 1 ≤ bit b → 0 + bit b ≡ 1 + 0
unheld true one = refl
unheld false one = omega (arith, one)

watched-holds :
    (op : Op) (a b : Bool) (x y z : Spin)
    → holds (locked_by op x) ≡ 0
    → holds (locked_by op y) ≡ 0
    → holds (locked_by op z) ≡ 0
    → holds (locked_by op (if a then x else if b then y else z)) ≡ 0
watched-holds op true b x y z hx hy hz = hx
watched-holds op false true x y z hx hy hz = hy
watched-holds op false false x y z hx hy hz = hz

phase_step-Moves :
    (max : ℕ) (program : List Op) (phase : Phase) (s : Semaphore)
    → max < 2 ^ 32
    → s.count ≤ max
    → holds phase ≤ bit s.lock.locked
    → misfits max phase ≡ 0
    → Moves max phase s (phase_step max program phase s)
unfolding phase_step spin_step
phase_step-Moves max [] between s small le one fit = record {
  held = omega arith;
  permits = omega arith;
  bound = le;
  fits = fit;
}
phase_step-Moves max (op ∷ program) between s small le one fit =
    elim (Bool-cases (is_allowed max op)) [
      | inl allowed ↦ rw allowed (record {
        held = omega arith;
        permits = omega arith;
        bound = le;
        fits = is_allowed-oversized max op allowed;
      })
      | inr refused ↦
          rw refused (record { held = omega arith; permits = omega arith; bound = le; fits = refl })
    ]
phase_step-Moves max program (locking op (trying c)) s small le one fit =
    elim (Bool-cases s.lock.locked) [
      | inl up ↦ record {
        held = rw up refl;
        permits = omega arith;
        bound = le;
        fits = locked_by-misfits max op _ ∙ fit;
      }
      | inr down ↦ record {
        held = rw down refl;
        permits = omega arith;
        bound = le;
        fits = locked_by-misfits max op _ ∙ fit;
      }
    ]
phase_step-Moves max program (locking op (watching c)) s small le one fit = record {
  held = omega (
    arith,
    watched-holds op (not s.lock.locked) (c == 0) (trying c) (watching s.lock.spin_count)
        (watching (c - 1)) refl refl refl,
  );
  permits = omega arith;
  bound = le;
  fits = locked_by-misfits max op _ ∙ fit;
}
phase_step-Moves max program (locking op taken) s small le one fit = record {
  held = omega arith;
  permits = omega arith;
  bound = le;
  fits = fit;
}
phase_step-Moves max program (inside op) s small le one fit =
    inside_step-Moves max op s small le fit
phase_step-Moves max program suspending s small le one fit = record {
  held = unheld s.lock.locked one;
  permits = omega arith;
  bound = le;
  fits = fit;
}
phase_step-Moves max program waiting s small le one fit = record {
  held = omega arith;
  permits = omega arith;
  bound = le;
  fits = fit;
}
phase_step-Moves max program leaving s small le one fit = record {
  held = unheld s.lock.locked one;
  permits = omega arith;
  bound = le;
  fits = fit;
}
phase_step-Moves max program rejected s small le one fit = record {
  held = omega arith;
  permits = omega arith;
  bound = le;
  fits = refl;
}
phase_step-Moves max program failed s small le one fit = record {
  held = omega arith;
  permits = omega arith;
  bound = le;
  fits = fit;
}

-- What every step keeps: the lock is held by one of the callers or free, and the permits add up.
record IsKept (max desired : ℕ) (z : System) : Type 0 where
  one : sum_by holder z.callers ≡ bit z.semaphore.lock.locked
  permits : z.semaphore.count + z.acquired ≡ desired + z.released
  bound : z.semaphore.count ≤ max
  fits : sum_by (misfit max) z.callers ≡ 0

sum_by-get_or {ℓ} :
    {A : Type ℓ} (f : A → ℕ) (xs : List A) (i : ℕ) (d : A)
    → i < length xs
    → f (get_or xs i d) ≤ sum_by f xs
sum_by-get_or f [] i d h = omega (arith, h)
sum_by-get_or f (x ∷ xs) zero d h = omega arith
sum_by-get_or f (x ∷ xs) (suc i) d h = omega (arith, sum_by-get_or f xs i d (omega (arith, h)))

step-IsKept :
    (max desired id : ℕ) (z : System)
    → max < 2 ^ 32
    → IsKept max desired z
    → IsKept max desired (step max id z)
unfolding step
step-IsKept max desired id z small ok = elim (Bool-cases (ltb id (length z.callers))) [
  | inl within ↦
      let caller = get_or z.callers id no_caller in
      let t = phase_step max caller.program caller.phase z.semaphore in
      let after : Caller = record {
        phase = t.phase;
        program = rest_of caller.phase caller.program;
      } in
      let inside_list : id < length z.callers = ground (arith, within) in
      let moves =
        phase_step-Moves max caller.program caller.phase z.semaphore small ok.bound
          (omega (arith, sum_by-get_or holder z.callers id no_caller inside_list, ok.one))
          (omega (arith, sum_by-get_or (misfit max) z.callers id no_caller inside_list, ok.fits)) in
      rw within (record {
        one =
            omega (
              arith,
              moves.held,
              ok.one,
              sum_by-set holder z.callers id after no_caller inside_list,
            );
        permits = omega (arith, moves.permits, ok.permits);
        bound = moves.bound;
        fits = omega (
          arith,
          moves.fits,
          ok.fits,
          sum_by-set (misfit max) z.callers id after no_caller inside_list,
        );
      })
  | inr beyond ↦ rw beyond ok
]

run-IsKept :
    (max desired : ℕ) (schedule : List ℕ) (z : System)
    → max < 2 ^ 32
    → IsKept max desired z
    → IsKept max desired (run max schedule z)
unfolding run
run-IsKept max desired [] z small ok = ok
run-IsKept max desired (id ∷ schedule) z small ok =
    run-IsKept max desired schedule (step max id z) small (step-IsKept max desired id z small ok)

callers_of-holds : (programs : List (List Op)) → sum_by holder (callers_of programs) ≡ 0
callers_of-holds [] = refl
callers_of-holds (program ∷ programs) = omega (arith, callers_of-holds programs)

callers_of-misfits :
    (max : ℕ) (programs : List (List Op)) → sum_by (misfit max) (callers_of programs) ≡ 0
callers_of-misfits max [] = refl
callers_of-misfits max (program ∷ programs) = omega (arith, callers_of-misfits max programs)

-- From a new semaphore with `desired` permits, at most LeastMaxValue of 32 bits, for any callers and
-- any schedule: one of them at most holds the lock, the count and what has been acquired are what was
-- there and what has been released, and the count is at most LeastMaxValue.
pub run-permits :
    (max spin_count desired : ℕ) (programs : List (List Op)) (schedule : List ℕ)
    → max < 2 ^ 32
    → desired ≤ max
    → let z = run max schedule (started spin_count desired programs) in
      (sum_by holder z.callers ≤ 1)
      × (z.semaphore.count + z.acquired ≡ desired + z.released)
      × (z.semaphore.count ≤ max)
unfolding started
run-permits max spin_count desired programs schedule small le =
    let z = run max schedule (started spin_count desired programs) in
    let kept = run-IsKept max desired schedule (started spin_count desired programs) small (record {
      one = callers_of-holds programs;
      permits = omega arith;
      bound = le;
      fits = callers_of-misfits max programs;
    }) in
    (omega (arith, kept.one, bit_le z.semaphore.lock.locked), kept.permits, kept.bound)
