-- ===== src/Queue/Tests.antt =====
-- Runs of util/Queue.h.
use async_framework.Prelude.{ℕ, ◌≡◌, refl, true, false, some, List, [], ◌∷◌, ◌++◌, leb}
use async_framework.Queue.{
  new_queue, Call, pushing, try_pushing, popping, try_popping_if, calls_run,
}
use async_framework.Queue.Order.{calls_run_order}

abbrev used : List (Call ℕ)
used =
    pushing 1
    ∷ try_pushing true 2
    ∷ try_pushing false 3
    ∷ popping
    ∷ try_popping_if true (some (λ n. leb 5 n))
    ∷ pushing 4
    ∷ []

used_queue :
    ((calls_run used new_queue).0.items ≡ 2 ∷ 4 ∷ []) × ((calls_run used new_queue).1 ≡ 1 ∷ [])
unfolding calls_run
used_queue = (refl, refl)

calls_run_order_example :
    (calls_run used new_queue).1 ++ (calls_run used new_queue).0.items ≡ 1 ∷ 2 ∷ 4 ∷ []
calls_run_order_example = calls_run_order used new_queue
