-- ===== src/LoadBlancer/Wrr.antt =====
-- coro_apps/coro_io/load_blancer.hpp: `WRRLoadBlancer`, weighted round robin. The weights are not
-- negative, and fit an `int`. `none` is the index -1.
pub mod Gcd
pub mod Ready
pub mod Ends
pub mod Passes
pub mod Calls
pub mod Shares
use async_framework.Prelude.{
  ℕ, zero, suc, ◌+◌, ◌-◌, ◌%◌, Bool, true, false, Option, none, some, List, [], ◌∷◌, ◌&&◌, leb,
  ◌==◌, if◌then◌else◌, length, get_or,
}
use Prim.Native.Nat.{max, min}
use Gcd.{gcd}

pub record WrrLoadBlancer : Type 0 where
  pub weights : List ℕ
  pub max_gcd : ℕ
  pub max_weight : ℕ
  pub wrr_current : Option ℕ
  pub weight_current : ℕ

abbrev pub gcd_loop : List ℕ → ℕ → ℕ
unfolding gcd
gcd_loop [] res = res
gcd_loop (w ∷ weights) res = gcd_loop weights (gcd (max res w) (min res w))

-- From the first weight; there is one.
unfoldable pub get_max_weight_gcd : List ℕ → ℕ
get_max_weight_gcd weights = gcd_loop weights (get_or weights 0 0)

-- `std::max_element`
unfoldable pub get_max_weight : List ℕ → ℕ
get_max_weight [] = 0
get_max_weight (w ∷ weights) = max w (get_max_weight weights)

unfoldable pub new_wrr : List ℕ → WrrLoadBlancer
unfolding get_max_weight_gcd get_max_weight
new_wrr weights = record {
  weights = weights;
  max_gcd = get_max_weight_gcd weights;
  max_weight = get_max_weight weights;
  wrr_current = none;
  weight_current = 0;
}

-- `(wrr_current_ + 1) % weights_.size()`
abbrev pub next_index : Option ℕ → ℕ → ℕ
next_index none n = 0 % n
next_index (some i) n = (i + 1) % n

-- `weight_current_` at the server of index 0.
abbrev pub next_weight : WrrLoadBlancer → ℕ
next_weight w =
    let lower = w.weight_current - w.max_gcd in if leb lower 0 then w.max_weight else lower

-- What a turn of the loop does: it returns -1, returns an index, or goes on.
pub data Visit : Type 0 where
  nothing : Visit
  selects : ℕ → Visit
  passes : Visit

-- A turn of the loop of `select_host_with_weight_round_robin`. A weight that has been lowered and is
-- still positive is not 0.
unfoldable pub visit : WrrLoadBlancer → WrrLoadBlancer × Visit
visit w =
    let i = next_index w.wrr_current (length w.weights) in
    let weight = if i == 0 then next_weight w else w.weight_current in
    (
      record w { wrr_current = some i; weight_current = weight },
      if i == 0 && weight == 0
          then nothing
          else if leb weight (get_or w.weights i 0)
          then selects i
          else passes,
    )

-- The loop with a bound on its turns; the inner `none` is the -1 that it returns.
abbrev pub go_on :
    WrrLoadBlancer → Visit → Option (WrrLoadBlancer × Option ℕ) → Option (WrrLoadBlancer × Option ℕ)
go_on w nothing rest = some (w, none)
go_on w (selects i) rest = some (w, some i)
go_on w passes rest = rest

unfoldable pub select_host_with_weight_round_robin :
    ℕ → WrrLoadBlancer → Option (WrrLoadBlancer × Option ℕ)
unfolding visit
select_host_with_weight_round_robin zero w = none
select_host_with_weight_round_robin (suc fuel) w =
    let (w', seen) = visit w in go_on w' seen (select_host_with_weight_round_robin fuel w')

-- `operator()` up to the choice of the pool: no server is found when all weights are 0, and then the
-- first is taken.
abbrev pub set_selected : Option (WrrLoadBlancer × Option ℕ) → Option (WrrLoadBlancer × ℕ)
set_selected none = none
set_selected (some (w, none)) = some (record w { wrr_current = some 0 }, 0)
set_selected (some (w, some i)) = some (record w { wrr_current = some i }, i)

unfoldable pub select : WrrLoadBlancer → Option (WrrLoadBlancer × ℕ)
unfolding select_host_with_weight_round_robin
select w = set_selected (select_host_with_weight_round_robin (length w.weights) w)
