-- ===== src/LoadBlancer/Wrr/Ends.antt =====
-- coro_apps/coro_io/load_blancer.hpp: the loop of `select_host_with_weight_round_robin` ends.
use async_framework.Prelude.{
  ℕ, zero, suc, ◌+◌, ◌-◌, ◌≤◌, ◌<◌, ◌≡◌, ◌≢◌, refl, sym, ◌∙◌, ◌⊎◌, inl, inr, Option, none, some,
  List, leb, Bool-cases, length, get_or, arith,
}
use async_framework.LoadBlancer.Wrr.{
  WrrLoadBlancer, get_max_weight, passes, visit, select_host_with_weight_round_robin, set_selected,
  select,
}
use async_framework.LoadBlancer.Wrr.Ready.{
  IsReady, IsResult, Returns, go_on-Returns, heaviest_index, index_after, index_after-lt,
  next-cases, visit-IsReady,
}

-- The server at `j` is `d` turns away.
abbrev Away : ℕ → ℕ → WrrLoadBlancer → Type 0
Away d j w = (index_after w + d ≡ j) ⊎ (index_after w + d ≡ length w.weights + j)

passes-heavier :
    (w : WrrLoadBlancer)
    → IsReady w
    → (visit w).1 ≡ passes
    → get_or w.weights (index_after w) 0 ≢ w.max_weight
unfolding visit
passes-heavier w ready e top = ground (arith, e, top, (visit-IsReady w ready).below)

nearer :
    (d j : ℕ) (w : WrrLoadBlancer)
    → IsReady w
    → get_or w.weights j 0 ≡ w.max_weight
    → j < length w.weights
    → Away d j w
    → (visit w).1 ≡ passes
    → (0 < d) × Away (d - 1) j (visit w).0
unfolding visit
nearer d j w ready top within away e =
    let lt = index_after-lt w ready.nonempty in
    let other : index_after w ≢ j = λ here. passes-heavier w ready e (rw (sym here) at top) in
    ground (arith, next-cases (index_after w) (length w.weights) lt, other, away, lt)

-- The heaviest server is `d` turns away, and the bound is larger.
ends_in :
    (d fuel j : ℕ) (w : WrrLoadBlancer)
    → IsReady w
    → d < fuel
    → get_or w.weights j 0 ≡ w.max_weight
    → j < length w.weights
    → Away d j w
    → Returns w.weights (select_host_with_weight_round_robin fuel w)
unfolding select_host_with_weight_round_robin visit
ends_in d zero j w ready lt top within away = absurd (omega arith)
ends_in d (suc fuel) j w ready lt top within away = go_on-Returns w (visit w).1 _ ready refl (λ e.
    let (pos, away') = nearer d j w ready top within away e in
    ends_in (d - 1) fuel j (visit w).0 (visit-IsReady w ready) (omega arith) top within away')

-- An index is at most `n - 1` turns from the next one.
away :
    (j : ℕ) (w : WrrLoadBlancer)
    → IsReady w
    → j < length w.weights
    → (d : ℕ) × (d < length w.weights) × Away d j w
away j w ready h =
    let lt = index_after-lt w ready.nonempty in
    elim (Bool-cases (leb (index_after w) j)) [
      | inl ahead ↦ (j - index_after w, ground arith, inl (ground arith))
      | inr behind ↦ (length w.weights + j - index_after w, ground arith, inr (ground arith))
    ]

pub host-Returns :
    (w : WrrLoadBlancer)
    → IsReady w
    → Returns w.weights (select_host_with_weight_round_robin (length w.weights) w)
host-Returns w ready =
    let (j, within, top) = heaviest_index w.weights ready.nonempty in
    let (d, lt, way) = away j w ready within in
    ends_in d (length w.weights) j w ready lt (top ∙ sym ready.heaviest) within way

-- What a call of the worker picks.
pub record IsPick (weights : List ℕ) (r : WrrLoadBlancer × ℕ) : Type 0 where
  pub ready : IsReady r.0
  pub same : r.0.weights ≡ weights
  pub within : r.1 < length weights
  pub current : r.0.wrr_current ≡ some r.1
  pub heavy : r.0.weight_current ≤ get_or weights r.1 0
  pub positive : 0 < get_max_weight weights → 0 < get_or weights r.1 0

set_selected-IsPick :
    (weights : List ℕ) (w : WrrLoadBlancer) (o : Option ℕ)
    → IsResult weights (w, o)
    → (r : WrrLoadBlancer × ℕ) × (set_selected (some (w, o)) ≡ some r) × IsPick weights r
set_selected-IsPick weights w none result = (
  _,
  refl,
  record {
    ready = record {
      nonempty = result.ready.nonempty;
      heaviest = result.ready.heaviest;
      below = result.ready.below;
      started = inr result.positive;
    };
    same = result.same;
    within = rw result.same at result.ready.nonempty;
    current = refl;
    heavy = omega (arith, result.ready.below, result.chosen);
    positive =
        λ h. absurd (omega (arith, rw (result.same, result.chosen) at result.ready.heaviest, h));
  },
)
set_selected-IsPick weights w (some i) result =
    let (within, current, heavy) = result.chosen in
    let heaviest = rw result.same at result.ready.heaviest in
    (
      _,
      refl,
      record {
        ready = record {
          nonempty = result.ready.nonempty;
          heaviest = result.ready.heaviest;
          below = result.ready.below;
          started = inr result.positive;
        };
        same = result.same;
        within = rw result.same at within;
        current = refl;
        heavy = rw result.same at heavy;
        positive = λ h.
            omega (arith, rw result.same at heavy, result.positive (omega (arith, heaviest, h)));
      },
    )

-- From every state that calls leave, the loop of `select_host_with_weight_round_robin` ends within
-- as many turns as there are servers, and the call picks a server whose weight is not below the
-- current one, and not 0 unless all are.
pub select-IsPick :
    (w : WrrLoadBlancer)
    → IsReady w
    → (r : WrrLoadBlancer × ℕ) × (select w ≡ some r) × IsPick w.weights r
unfolding select Returns
select-IsPick w ready =
    let (found, e, result) = host-Returns w ready in
    let (r, e', pick) = set_selected-IsPick w.weights found.0 found.1 result in
    (r, rw (select, e) e', pick)
