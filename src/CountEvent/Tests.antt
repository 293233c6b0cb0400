-- ===== src/CountEvent/Tests.antt =====
-- Runs of coro/CountEvent.h.
use async_framework.Prelude.{◌≡◌, arith, some, none, [], ◌∷◌}
use async_framework.CountEvent.{new_event, set_awaiting_coro, downs}
use async_framework.CountEvent.Laws.{last_down_resumes}

last_down_resumes_example :
    let (e, early) = downs 2 (new_event 3) in
    let (e', late) = downs 2 (set_awaiting_coro 7 e) in
    (early ≡ none ∷ none ∷ [])
    × (late ≡ none ∷ some 7 ∷ [])
    × (e' ≡ record { count = 0; awaiting_coro = none })
last_down_resumes_example = last_down_resumes 3 2 7 (omega arith) (omega arith)
