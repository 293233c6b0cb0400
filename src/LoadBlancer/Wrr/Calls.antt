-- ===== src/LoadBlancer/Wrr/Calls.antt =====
-- coro_apps/coro_io/load_blancer.hpp: the servers that calls of `WRRLoadBlancer` pick, one after the
-- other.
use async_framework.Prelude.{
  ℕ, zero, suc, ◌<◌, ◌≡◌, ◌≢◌, refl, sym, ap, ◌∙◌, Option, none, some, List, [], ◌∷◌, ◌++◌, length,
  arith,
}
use async_framework.LoadBlancer.Wrr.{
  WrrLoadBlancer, Visit, nothing, selects, passes, visit, go_on,
  select_host_with_weight_round_robin, set_selected, select,
}
use async_framework.LoadBlancer.Wrr.Ready.{
  IsReady, visit-IsReady, visit-positive, visit-selects, Returns,
}
use async_framework.LoadBlancer.Wrr.Ends.{host-Returns}
use async_framework.LoadBlancer.Wrr.Passes.{visits, picked}

abbrev pub cons_pick : ℕ → Option (List ℕ) → Option (List ℕ)
cons_pick i none = none
cons_pick i (some picks) = some (i ∷ picks)

unfoldable pub calls : ℕ → WrrLoadBlancer → Option (List ℕ)
unfolding select
calls zero w = some []
calls (suc k) w = elim (select w) [ none ↦ none | some r ↦ cons_pick r.1 (calls k r.0) ]

go_on_mono :
    (w : WrrLoadBlancer) (v : Visit) (rest rest' : Option (WrrLoadBlancer × Option ℕ))
    (r : WrrLoadBlancer × Option ℕ)
    → (rest ≡ some r → rest' ≡ some r)
    → go_on w v rest ≡ some r
    → go_on w v rest' ≡ some r
go_on_mono w nothing rest rest' r h e = e
go_on_mono w (selects i) rest rest' r h e = e
go_on_mono w passes rest rest' r h e = h e

host_mono :
    (fuel : ℕ) (w : WrrLoadBlancer) (r : WrrLoadBlancer × Option ℕ)
    → select_host_with_weight_round_robin fuel w ≡ some r
    → select_host_with_weight_round_robin (suc fuel) w ≡ some r
unfolding select_host_with_weight_round_robin
host_mono zero w r h = absurd (ground (arith, h))
host_mono (suc fuel) w r h =
    go_on_mono (visit w).0 (visit w).1 (select_host_with_weight_round_robin fuel (visit w).0) _ r
      (host_mono fuel (visit w).0 r) h

host-selects :
    (n i : ℕ) (w : WrrLoadBlancer)
    → 0 < n
    → (visit w).1 ≡ selects i
    → select_host_with_weight_round_robin n w ≡ some ((visit w).0, some i)
unfolding select_host_with_weight_round_robin
host-selects zero i w h e = absurd (omega arith)
host-selects (suc n) i w h e =
    ap (λ v. go_on (visit w).0 v (select_host_with_weight_round_robin n (visit w).0)) e

host-passes :
    (n : ℕ) (w : WrrLoadBlancer) (r : WrrLoadBlancer × Option ℕ)
    → (visit w).1 ≡ passes
    → select_host_with_weight_round_robin n w ≡ some r
    → select_host_with_weight_round_robin n (visit w).0 ≡ some r
unfolding select_host_with_weight_round_robin
host-passes zero w r e h = absurd (ground (arith, h))
host-passes (suc n) w r e h =
    host_mono n (visit w).0 r (
      sym (ap (λ v. go_on (visit w).0 v (select_host_with_weight_round_robin n (visit w).0)) e) ∙ h)

select-selects :
    (i : ℕ) (w : WrrLoadBlancer)
    → IsReady w
    → (visit w).1 ≡ selects i
    → select w ≡ some ((visit w).0, i)
unfolding select visit
select-selects i w ready e =
    rw (select, host-selects (length w.weights) i w ready.nonempty e)
      (let (here, heavy) = visit-selects w i ready e in rw here refl)

select-passes :
    (w : WrrLoadBlancer) → IsReady w → (visit w).1 ≡ passes → select w ≡ select (visit w).0
unfolding select Returns
select-passes w ready e =
    let (r, found, result) = host-Returns w ready in
    ap set_selected (found ∙ sym (host-passes (length w.weights) w r e found))

calls_congr : (k : ℕ) (w w' : WrrLoadBlancer) → select w ≡ select w' → calls k w ≡ calls k w'
unfolding calls
calls_congr zero w w' e = refl
calls_congr (suc k) w w' e =
    ap
      (λ (o : Option (WrrLoadBlancer × ℕ)). elim o [
        | none ↦ none
        | some r ↦ cons_pick r.1 (calls k r.0)
      ])
      e

calls_step :
    (k : ℕ) (w w' : WrrLoadBlancer) (i : ℕ)
    → select w ≡ some (w', i)
    → calls (suc k) w ≡ cons_pick i (calls k w')
unfolding calls
calls_step k w w' i e =
    ap
      (λ (o : Option (WrrLoadBlancer × ℕ)). elim o [
        | none ↦ none
        | some r ↦ cons_pick r.1 (calls k r.0)
      ])
      e

visit-something : (w : WrrLoadBlancer) → IsReady w → 0 < w.max_weight → (visit w).1 ≢ nothing
unfolding visit
visit-something w ready h e = ground (arith, visit-positive w ready h, e)

-- The turns of the loop and the calls pick the same servers.
pub calls-visits :
    (turns : ℕ) (w : WrrLoadBlancer)
    → IsReady w
    → 0 < w.max_weight
    → let picks = (visits turns w).1 in calls (length picks) w ≡ some picks
unfolding visits calls visit
calls-visits zero w ready h = refl
calls-visits (suc turns) w ready h =
    step (visit w).1 refl (calls-visits turns (visit w).0 (visit-IsReady w ready) h)
  where
    step :
        (v : Visit)
        → (visit w).1 ≡ v
        → (let picks = (visits turns (visit w).0).1 in
            calls (length picks) (visit w).0 ≡ some picks)
        → let picks = picked v ++ (visits turns (visit w).0).1 in
          calls (length picks) w ≡ some picks
    step nothing e rest = absurd (visit-something w ready h e)
    step (selects i) e rest =
        calls_step _ w (visit w).0 i (select-selects i w ready e) ∙ ap (cons_pick i) rest
    step passes e rest = calls_congr _ w (visit w).0 (select-passes w ready e) ∙ rest
