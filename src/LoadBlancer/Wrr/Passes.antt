-- ===== src/LoadBlancer/Wrr/Passes.antt =====
-- coro_apps/coro_io/load_blancer.hpp: a pass of the loop of weighted round robin over the servers.
use async_framework.Prelude.{
  ℕ, zero, suc, ◌+◌, ◌≤◌, ◌<◌, ◌≡◌, refl, ap, false, ◌&&◌, Option, some, List, [], ◌∷◌, ◌++◌, leb,
  ltb, ◌==◌, if◌then◌else◌, length, get_or, Bool-cases, inl, inr, arith,
}
use native.Mathlib.Nat.{mod-eq_of_lt}
use async_framework.LoadBlancer.Wrr.{
  WrrLoadBlancer, next_index, next_weight, Visit, selects, passes, visit,
}

abbrev pub picked : Visit → List ℕ
picked (selects i) = i ∷ []
picked _ = []

-- Turns of the loop, without the returns: the servers that it selects.
unfoldable pub visits : ℕ → WrrLoadBlancer → WrrLoadBlancer × List ℕ
visits zero w = (w, [])
visits (suc k) w =
    let (w', seen) = visit w in let (w'', rest) = visits k w' in (w'', picked seen ++ rest)

unfoldable pub count : ℕ → List ℕ → ℕ
count t [] = 0
count t (x ∷ xs) = (if x == t then 1 else 0) + count t xs

pub count-append : (t : ℕ) (xs ys : List ℕ) → count t (xs ++ ys) ≡ count t xs + count t ys
unfolding count
count-append t [] ys = omega arith
count-append t (x ∷ xs) ys = omega (arith, count-append t xs ys)

pub visits-add :
    (j k n : ℕ) (w : WrrLoadBlancer) (t : ℕ)
    → j + k ≡ n
    → ((visits n w).0 ≡ (visits k (visits j w).0).0)
      × (count t (visits n w).1 ≡ count t (visits j w).1 + count t (visits k (visits j w).0).1)
unfolding visits count
visits-add zero k n w t e = let same : n ≡ k = omega (arith, e) in rw same (refl, omega arith)
visits-add (suc j) k zero w t e = absurd (omega (arith, e))
visits-add (suc j) k (suc n) w t e =
    let (ends, counts) = visits-add j k n (visit w).0 t (omega (arith, e)) in
    (ends, rw (count-append, count-append) (omega (arith, counts)))

get_or-beyond : (ws : List ℕ) (t : ℕ) → length ws ≤ t → get_or ws t 0 ≡ 0
get_or-beyond [] t h = refl
get_or-beyond (x ∷ ws) zero h = absurd (omega arith)
get_or-beyond (x ∷ ws) (suc t) h = get_or-beyond ws t (omega arith)

module _ (ws : List ℕ) (g m : ℕ) where
  abbrev pub at : Option ℕ → ℕ → WrrLoadBlancer
  at current weight = record {
    weights = ws;
    max_gcd = g;
    max_weight = m;
    wrr_current = current;
    weight_current = weight;
  }

  abbrev pub seen : ℕ → ℕ → Visit
  seen i weight = if leb weight (get_or ws i 0) then selects i else passes

  visit-next :
      (i weight : ℕ)
      → i + 1 < length ws
      → visit (at (some i) weight) ≡ (at (some (i + 1)) weight, seen (i + 1) weight)
  unfolding visit
  visit-next i weight h =
      let later : ((i + 1) == 0) ≡ false = ground arith in rw (mod-eq_of_lt h, later) refl

  visit-first :
      (current : Option ℕ) (before weight : ℕ)
      → next_index current (length ws) ≡ 0
      → next_weight (at current before) ≡ weight
      → 0 < weight
      → visit (at current before) ≡ (at (some 0) weight, seen 0 weight)
  unfolding visit
  visit-first current before weight i h pos =
      let some_weight : (weight == 0) ≡ false = ground arith in rw (i, h, some_weight) refl

  picked-seen :
      (i weight t : ℕ)
      → count t (picked (seen i weight)) ≡ (if i == t && leb weight (get_or ws t 0) then 1 else 0)
  unfolding count
  picked-seen i weight t = elim (Bool-cases (leb weight (get_or ws i 0))) [
    | inl heavy ↦ rw heavy (ground (arith, heavy, same_index t))
    | inr light ↦ rw light (ground (arith, light, same_index t))
  ]
    where
      same_index : (t : ℕ) → i ≡ t → get_or ws i 0 ≡ get_or ws t 0
      same_index t e = ap (λ x. get_or ws x 0) e

  -- From one index to a later one.
  walk :
      (k i weight t : ℕ)
      → i + k < length ws
      → ((visits k (at (some i) weight)).0 ≡ at (some (i + k)) weight)
        × (count t (visits k (at (some i) weight)).1
            ≡ (if ltb i t && leb t (i + k) && leb weight (get_or ws t 0) then 1 else 0))
  unfolding visits count
  walk zero i weight t h = let same : i + 0 ≡ i = omega arith in rw same (refl, ground arith)
  walk (suc k) i weight t h =
      let (ends, counts) = walk k (i + 1) weight t (omega arith) in
      let same : i + suc k ≡ i + 1 + k = omega arith in
      rw (visit-next i weight (omega arith), same)
        (ends, rw (count-append, picked-seen) (ground (arith, counts)))

  -- A pass over all servers, that starts with a positive weight.
  pub pass :
      (current : Option ℕ) (before weight t n : ℕ)
      → suc n ≡ length ws
      → next_index current (length ws) ≡ 0
      → next_weight (at current before) ≡ weight
      → 0 < weight
      → ((visits (suc n) (at current before)).0 ≡ at (some n) weight)
        × (count t (visits (suc n) (at current before)).1
            ≡ (if leb weight (get_or ws t 0) then 1 else 0))
  unfolding visits
  pass current before weight t n size i h pos =
      let (ends, counts) = walk n 0 weight t (omega (arith, size)) in
      let same : 0 + n ≡ n = omega arith in
      rw (visit-first current before weight i h pos) (
        rw same at ends,
        rw (count-append, picked-seen) (ground (arith, counts, get_or-beyond ws t, size, pos)),
      )
