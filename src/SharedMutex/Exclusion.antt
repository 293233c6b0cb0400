-- ===== src/SharedMutex/Exclusion.antt =====
-- Readers and writers of coro/SharedMutex.h exclude each other.
use async_framework.Prelude.{
  ℕ, zero, suc, ◌+◌, ◌*◌, ◌^◌, ◌<◌, ◌≤◌, ◌≡◌, refl, sym, ap, arith, Bool, true, false, Option, none,
  some, List, [], ◌∷◌, get_elem?, ◌⊎◌, inl,
}
use mathlib.Core.Option.{none-ne-some, some-injective}
use async_framework.SharedMutex.{
  Phase, idle, at_gate1, at_gate2, writing, at_gate1_shared, reading, failed, Want, to_lock,
  to_lock_shared, to_try_lock, to_try_lock_shared, enter, co_lock, wait_gate2, try_lock, unlock,
  co_lock_shared, try_lock_shared, unlock_shared, step, System, set_phase, turn, run, idle_phases,
  unused,
}

abbrev pub queues : Phase → ℕ
queues at_gate2 = 1
queues _ = 0

abbrev pub writes : Phase → ℕ
writes writing = 1
writes _ = 0

abbrev pub reads : Phase → ℕ
reads reading = 1
reads _ = 0

abbrev pub fails : Phase → ℕ
fails failed = 1
fails _ = 0

abbrev pub total : (Phase → ℕ) → List Phase → ℕ
total g [] = 0
total g (p ∷ l) = g p + total g l

-- Of the state, for the numbers of writers at the second gate and inside, of readers, of failures.
record Counts (state g w r f : ℕ) : Type 0 where
  state_is : state ≡ 2147483648 * (g + w) + r
  one : g + w ≤ 1
  exclusive : (w ≡ 0) ⊎ (r ≡ 0)
  bounded : r < 2147483648
  sound : f ≡ 0

-- The counts with one more coroutine, which stands at the phase `p`.
abbrev With : Phase → ℕ → ℕ → ℕ → ℕ → ℕ → Type 0
With p state g w r f = Counts state (queues p + g) (writes p + w) (reads p + r) (fails p + f)

abbrev After : ℕ × Phase → ℕ → ℕ → ℕ → ℕ → Type 0
After x g w r f = With x.1 x.0 g w r f

module _ (state g w r f : ℕ) where
  co_lock-With : With idle state g w r f → After (co_lock state) g w r f
  unfolding co_lock enter
  co_lock-With c = ground arith

  wait_gate2-With : With at_gate2 state g w r f → After (wait_gate2 state) g w r f
  unfolding wait_gate2
  wait_gate2-With c = ground arith

  try_lock-With : (ok : Bool) → With idle state g w r f → After (try_lock ok state) g w r f
  unfolding try_lock
  try_lock-With true c = ground arith
  try_lock-With false c = ground arith

  unlock-With : With writing state g w r f → After (unlock state) g w r f
  unfolding unlock
  unlock-With c = ground arith

  co_lock_shared-With : With idle state g w r f → After (co_lock_shared state) g w r f
  unfolding co_lock_shared
  co_lock_shared-With c = ground arith

  try_lock_shared-With :
      (ok : Bool) → With idle state g w r f → After (try_lock_shared ok state) g w r f
  unfolding try_lock_shared
  try_lock_shared-With true c = ground arith
  try_lock_shared-With false c = ground arith

  unlock_shared-With : With reading state g w r f → After (unlock_shared state) g w r f
  unfolding unlock_shared
  unlock_shared-With c = ground arith

  -- A step of one coroutine keeps the counts.
  step-With : (want : Want) (p : Phase) → With p state g w r f → After (step want p state) g w r f
  unfolding step
  step-With to_lock idle c = co_lock-With c
  step-With to_lock_shared idle c = co_lock_shared-With c
  step-With (to_try_lock ok) idle c = try_lock-With ok c
  step-With (to_try_lock_shared ok) idle c = try_lock_shared-With ok c
  step-With want at_gate1 c = co_lock-With c
  step-With want at_gate2 c = wait_gate2-With c
  step-With want writing c = unlock-With c
  step-With want at_gate1_shared c = co_lock_shared-With c
  step-With want reading c = unlock_shared-With c
  step-With want failed c = absurd (omega (arith, c.sound))

-- The others of a list.
abbrev rest : (Phase → ℕ) → List Phase → ℕ → ℕ
rest g [] i = 0
rest g (p ∷ l) zero = total g l
rest g (p ∷ l) (suc i) = g p + rest g l i

total-rest :
    (g : Phase → ℕ) (l : List Phase) (i : ℕ) (p : Phase)
    → get_elem? l i ≡ some p
    → total g l ≡ g p + rest g l i
total-rest g [] i p e = absurd (none-ne-some p e)
total-rest g (o ∷ l) zero p e = ap (λ t. g t + total g l) (some-injective o p e)
total-rest g (o ∷ l) (suc i) p e = omega (arith, total-rest g l i p e)

total-set_phase :
    (g : Phase → ℕ) (l : List Phase) (i : ℕ) (p q : Phase)
    → get_elem? l i ≡ some p
    → total g (set_phase l i q) ≡ g q + rest g l i
total-set_phase g [] i p q e = absurd (none-ne-some p e)
total-set_phase g (o ∷ l) zero p q e = refl
total-set_phase g (o ∷ l) (suc i) p q e = omega (arith, total-set_phase g l i p q e)

Counts-eq :
    (state g w r f g' w' r' f' : ℕ)
    → Counts state g w r f
    → g ≡ g'
    → w ≡ w'
    → r ≡ r'
    → f ≡ f'
    → Counts state g' w' r' f'
Counts-eq state g w r f g' w' r' f' c eg ew er ef = record {
  state_is = omega (arith, c.state_is, eg, ew, er);
  one = omega (arith, c.one, eg, ew);
  exclusive = ground (arith, c.exclusive, ew, er);
  bounded = omega (arith, c.bounded, er);
  sound = omega (arith, c.sound, ef);
}

abbrev Inv : System → Type 0
Inv s =
    Counts s.state (total queues s.phases) (total writes s.phases) (total reads s.phases)
      (total fails s.phases)

turn-Inv_at :
    (s : System) (i : ℕ) (want : Want) (p : Phase)
    → get_elem? s.phases i ≡ some p
    → Inv s
    → let (state', q) = step want p s.state in
      Inv (record { state = state'; phases = set_phase s.phases i q })
turn-Inv_at s i want p e c =
    let l = s.phases in
    let q = (step want p s.state).1 in
    let before =
      Counts-eq s.state _ _ _ _ _ _ _ _ c (total-rest queues l i p e) (total-rest writes l i p e)
        (total-rest reads l i p e) (total-rest fails l i p e) in
    Counts-eq (step want p s.state).0 _ _ _ _ _ _ _ _
      (step-With s.state (rest queues l i) (rest writes l i) (rest reads l i) (rest fails l i) want
        p before)
      (sym (total-set_phase queues l i p q e)) (sym (total-set_phase writes l i p q e))
      (sym (total-set_phase reads l i p q e)) (sym (total-set_phase fails l i p q e))

turn-Inv : (s : System) (t : ℕ × Want) → Inv s → Inv (turn s t)
unfolding turn
turn-Inv s (i, want) c = go (get_elem? s.phases i) refl
  where
    go :
        (o : Option Phase)
        → get_elem? s.phases i ≡ o
        → Inv (elim o [
          | none ↦ s
          | some p ↦
              let (state', q) = step want p s.state in
              record { state = state'; phases = set_phase s.phases i q }
        ])
    go none e = c
    go (some p) e = turn-Inv_at s i want p e c

run-Inv : (s : System) (turns : List (ℕ × Want)) → Inv s → Inv (run s turns)
unfolding run
run-Inv s [] c = c
run-Inv s (t ∷ turns) c = run-Inv (turn s t) turns (turn-Inv s t c)

idle_total : (n : ℕ) (g : Phase → ℕ) → g idle ≡ 0 → total g (idle_phases n) ≡ 0
idle_total zero g e = refl
idle_total (suc n) g e = omega (arith, e, idle_total n g e)

unused-Inv : (n : ℕ) → Inv (unused n)
unused-Inv n =
    Counts-eq 0 0 0 0 0 _ _ _ _
      (record {
        state_is = refl;
        one = omega arith;
        exclusive = inl refl;
        bounded = omega arith;
        sound = refl;
      })
      (sym (idle_total n queues refl)) (sym (idle_total n writes refl))
      (sym (idle_total n reads refl)) (sym (idle_total n fails refl))

-- For any number of coroutines and any schedule of their critical sections on a new mutex: at most one
-- writer is inside or at the second gate, a writer inside excludes readers, the state is the flag for
-- such a writer plus the number of readers, which is below 2 ^ 31, and no assertion has failed.
pub run_exclusive :
    (n : ℕ) (turns : List (ℕ × Want))
    → let s = run (unused n) turns in
      (total queues s.phases + total writes s.phases ≤ 1)
      × ((total writes s.phases ≡ 0) ⊎ (total reads s.phases ≡ 0))
      × (s.state ≡ 2 ^ 31 * (total queues s.phases + total writes s.phases) + total reads s.phases)
      × (total reads s.phases < 2 ^ 31)
      × (total fails s.phases ≡ 0)
run_exclusive n turns =
    let c = run-Inv (unused n) turns (unused-Inv n) in
    (c.one, c.exclusive, c.state_is, c.bounded, c.sound)
