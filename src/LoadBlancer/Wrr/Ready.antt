-- ===== src/LoadBlancer/Wrr/Ready.antt =====
-- coro_apps/coro_io/load_blancer.hpp: what holds of a `WRRLoadBlancer` between calls.
use native.Mathlib.Nat.{mod_self, mod-eq_of_lt}
use async_framework.Prelude.{
  ℕ, suc, ◌+◌, ◌≤◌, ◌<◌, ◌≡◌, refl, ap, ◌⊎◌, inl, inr, Option, none, some, List, [], ◌∷◌, leb,
  Bool-cases, length, get_or, arith,
}
use async_framework.LoadBlancer.Wrr.{
  WrrLoadBlancer, get_max_weight, new_wrr, next_index, Visit, nothing, selects, passes, visit,
  go_on,
}

-- What holds between calls: a server has the largest weight, which the current one does not exceed,
-- and the current one is positive from the first selection on if any is.
pub record IsReady (w : WrrLoadBlancer) : Type 0 where
  pub nonempty : 0 < length w.weights
  pub heaviest : w.max_weight ≡ get_max_weight w.weights
  pub below : w.weight_current ≤ w.max_weight
  pub started : (w.wrr_current ≡ none) ⊎ (0 < w.max_weight → 0 < w.weight_current)

pub new_wrr-IsReady : (weights : List ℕ) → 0 < length weights → IsReady (new_wrr weights)
unfolding new_wrr
new_wrr-IsReady weights h = record {
  nonempty = h;
  heaviest = refl;
  below = omega arith;
  started = inl refl;
}

abbrev pub index_after : WrrLoadBlancer → ℕ
index_after w = next_index w.wrr_current (length w.weights)

pub index_after-lt : (w : WrrLoadBlancer) → 0 < length w.weights → index_after w < length w.weights
index_after-lt w h = go w.wrr_current
  where
    go : (c : Option ℕ) → next_index c (length w.weights) < length w.weights
    go none = omega arith
    go (some i) = omega arith

first-index : (w : WrrLoadBlancer) → 0 < length w.weights → w.wrr_current ≡ none → index_after w ≡ 0
first-index w h e = rw e (omega arith)

pub visit-positive :
    (w : WrrLoadBlancer) → IsReady w → 0 < w.max_weight → 0 < (visit w).0.weight_current
unfolding visit
visit-positive w ready h = elim ready.started [
  | inl e ↦ ground (arith, first-index w ready.nonempty e, h)
  | inr positive ↦ ground (arith, positive h)
]

pub visit-IsReady : (w : WrrLoadBlancer) → IsReady w → IsReady (visit w).0
unfolding visit
visit-IsReady w ready = record {
  nonempty = ready.nonempty;
  heaviest = ready.heaviest;
  below = ground (arith, ready.below);
  started = inr (visit-positive w ready);
}

-- The server of the largest weight.
pub heaviest_index :
    (weights : List ℕ)
    → 0 < length weights
    → (j : ℕ) × (j < length weights) × (get_or weights j 0 ≡ get_max_weight weights)
unfolding get_max_weight
heaviest_index [] h = absurd (omega arith)
heaviest_index (w ∷ []) h = (0, omega arith, ground arith)
heaviest_index (w ∷ x ∷ weights) h =
    let (j, lt, e) = heaviest_index (x ∷ weights) (omega arith) in
    elim (Bool-cases (leb (get_max_weight (x ∷ weights)) w)) [
      | inl first ↦ (0, omega arith, ground (arith, first))
      | inr later ↦ (suc j, omega arith, ground (arith, e, later))
    ]

-- The index after the next one.
pub next-cases :
    (i n : ℕ)
    → i < n
    → ((next_index (some i) n ≡ i + 1) × (i + 1 < n)) ⊎ ((next_index (some i) n ≡ 0) × (i + 1 ≡ n))
next-cases i n h = elim (Bool-cases (leb n (i + 1))) [
  | inl last ↦ let e : i + 1 ≡ n = ground arith in inr (rw e (mod_self n), e)
  | inr inside ↦ inl (mod-eq_of_lt (ground arith), ground arith)
]

-- What the loop returns: a server, or none if all weights are 0.
abbrev pub Chosen : WrrLoadBlancer → Option ℕ → Type 0
Chosen w none = w.max_weight ≡ 0
Chosen w (some i) =
    (i < length w.weights) × (w.wrr_current ≡ some i) × (w.weight_current ≤ get_or w.weights i 0)

pub record IsResult (weights : List ℕ) (r : WrrLoadBlancer × Option ℕ) : Type 0 where
  pub ready : IsReady r.0
  pub same : r.0.weights ≡ weights
  pub positive : 0 < r.0.max_weight → 0 < r.0.weight_current
  pub chosen : Chosen r.0 r.1

unfoldable pub Returns : List ℕ → Option (WrrLoadBlancer × Option ℕ) → Type 0
Returns weights o = (r : WrrLoadBlancer × Option ℕ) × (o ≡ some r) × IsResult weights r

pub visit-selects :
    (w : WrrLoadBlancer) (i : ℕ)
    → IsReady w
    → (visit w).1 ≡ selects i
    → (index_after w ≡ i) × ((visit w).0.weight_current ≤ get_or w.weights i 0)
unfolding visit
visit-selects w i ready e = ground (arith, e)

visit-IsResult :
    (w : WrrLoadBlancer) (i : ℕ)
    → IsReady w
    → (visit w).1 ≡ selects i
    → IsResult w.weights ((visit w).0, some i)
unfolding visit
visit-IsResult w i ready e =
    let (here, heavy) = visit-selects w i ready e in
    record {
      ready = visit-IsReady w ready;
      same = refl;
      positive = visit-positive w ready;
      chosen = (rw here at (index_after-lt w ready.nonempty), ap some here, heavy);
    }

visit-nothing :
    (w : WrrLoadBlancer)
    → IsReady w
    → (visit w).1 ≡ nothing
    → IsResult w.weights ((visit w).0, none)
unfolding visit
visit-nothing w ready e = record {
  ready = visit-IsReady w ready;
  same = refl;
  positive = visit-positive w ready;
  chosen = ground (arith, e);
}

pub go_on-Returns :
    (w : WrrLoadBlancer) (v : Visit) (rest : Option (WrrLoadBlancer × Option ℕ))
    → IsReady w
    → (visit w).1 ≡ v
    → (v ≡ passes → Returns w.weights rest)
    → Returns w.weights (go_on (visit w).0 v rest)
unfolding Returns
go_on-Returns w nothing rest ready e h = (_, refl, visit-nothing w ready e)
go_on-Returns w (selects i) rest ready e h = (_, refl, visit-IsResult w i ready e)
go_on-Returns w passes rest ready e h = h refl
