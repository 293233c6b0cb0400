-- ===== src/CountEvent.antt =====
-- coro/CountEvent.h: the counter that collecting coroutines count down. A coroutine handle is a
-- number, and `nullptr` is `none`; each method is one atomic operation.
pub mod Laws
mod Tests
use async_framework.Prelude.{
  ℕ, zero, suc, ◌+◌, ◌-◌, ◌%◌, ◌^◌, Option, none, some, List, [], ◌∷◌, ◌==◌, if◌then◌else◌,
}

pub record CountEvent : Type 0 where
  pub count : ℕ  -- size_t
  pub awaiting_coro : Option ℕ

unfoldable pub new_event : ℕ → CountEvent
new_event count = record { count = (count + 1) % 2 ^ 64; awaiting_coro = none }

-- The new object and the one that it was moved from.
unfoldable pub move_event : CountEvent → CountEvent × CountEvent
move_event other = (other, record { count = 0; awaiting_coro = none })

-- `fetch_sub`, for `n` below 2 ^ 64.
abbrev pub fetch_sub : ℕ → ℕ → ℕ
fetch_sub count n = (count + (2 ^ 64 - n)) % 2 ^ 64

unfoldable pub down : ℕ → CountEvent → CountEvent × Option ℕ
down n e =
    if e.count == 1
    then (record { count = fetch_sub e.count n; awaiting_coro = none }, e.awaiting_coro)
    else (record e { count = fetch_sub e.count n }, none)

unfoldable pub down_count : ℕ → CountEvent → CountEvent × ℕ
down_count n e = (record e { count = fetch_sub e.count n }, e.count)

unfoldable pub set_awaiting_coro : ℕ → CountEvent → CountEvent
set_awaiting_coro h e = record e { awaiting_coro = some h }

-- Calls `down()` that many times, with what they return, in order.
unfoldable pub downs : ℕ → CountEvent → CountEvent × List (Option ℕ)
unfolding down
downs zero e = (e, [])
downs (suc k) e = let (e', r) = down 1 e in let (e'', rs) = downs k e' in (e'', r ∷ rs)
