-- ===== src/CountEvent/Laws.antt =====
-- Who is resumed by coro/CountEvent.h.
use async_framework.Prelude.{
  ℕ, zero, suc, ◌+◌, ◌-◌, ◌^◌, ◌<◌, ◌≤◌, ◌≡◌, refl, ap, ◌∙◌, arith, Option, none, some, List, [],
  ◌∷◌, ◌++◌,
}
use async_framework.CountEvent.{CountEvent, new_event, down, set_awaiting_coro, downs}

abbrev pub nones : ℕ → List (Option ℕ)
nones zero = []
nones (suc k) = none ∷ nones k

down_early :
    (c : ℕ) (o : Option ℕ)
    → 1 < c
    → c < 2 ^ 64
    → down 1 (record { count = c; awaiting_coro = o })
      ≡ (record { count = c - 1; awaiting_coro = o }, none)
unfolding down
down_early c o l h = ground arith

-- Calls that do not reach the end.
downs_early :
    (k c : ℕ) (o : Option ℕ)
    → k < c
    → c < 2 ^ 64
    → downs k (record { count = c; awaiting_coro = o })
      ≡ (record { count = c - k; awaiting_coro = o }, nones k)
unfolding downs
downs_early zero c o l h = ground arith
downs_early (suc k) c o l h =
    rw (down_early c o (omega arith) h, downs_early k (c - 1) o (omega arith) (omega arith))
      (ground arith)

downs-suc :
    (k : ℕ) (e e' : CountEvent) (r : Option ℕ)
    → down 1 e ≡ (e', r)
    → downs (suc k) e ≡ ((downs k e').0, r ∷ (downs k e').1)
unfolding downs
downs-suc k e e' r h = ap (λ x. ((downs k x.0).0, x.1 ∷ (downs k x.0).1)) h

-- Calls to the end.
downs_all :
    (k : ℕ) (o : Option ℕ)
    → suc k < 2 ^ 64
    → downs (suc k) (record { count = suc k; awaiting_coro = o })
      ≡ (record { count = 0; awaiting_coro = none }, nones k ++ o ∷ [])
unfolding down downs
downs_all zero o h = refl
downs_all (suc k) o h =
    downs-suc (suc k) _ _ _ (down_early (suc (suc k)) o (omega arith) h)
    ∙ ap (λ (x : CountEvent × List (Option ℕ)). (x.0, none ∷ x.1))
        (ap (λ c. downs (suc k) (record { count = c; awaiting_coro = o })) (omega arith)
          ∙ downs_all k o (omega arith))

-- For `n` tasks, fewer than 2 ^ 64 - 1: of `n + 1` calls of `down()`, `m` of them before the awaiting
-- coroutine `h` is set, which the last is not, all answer nullptr but the last, which answers `h`; then
-- the count is 0 and no coroutine is kept.
pub last_down_resumes :
    (n m h : ℕ)
    → m ≤ n
    → n + 1 < 2 ^ 64
    → let (e, early) = downs m (new_event n) in
      let (e', late) = downs (suc (n - m)) (set_awaiting_coro h e) in
      (early ≡ nones m)
      × (late ≡ nones (n - m) ++ some h ∷ [])
      × (e' ≡ record { count = 0; awaiting_coro = none })
unfolding new_event set_awaiting_coro
last_down_resumes n m h l b =
    let counted : downs m (new_event n)
        ≡ (record { count = n + 1 - m; awaiting_coro = none }, nones m) =
      ap (λ c. downs m (record { count = c; awaiting_coro = none })) (omega arith)
      ∙ downs_early m (n + 1) none (omega arith) b in
    let ended : downs (suc (n - m)) (set_awaiting_coro h (downs m (new_event n)).0)
        ≡ (record { count = 0; awaiting_coro = none }, nones (n - m) ++ some h ∷ []) =
      ap (λ (x : CountEvent × List (Option ℕ)). downs (suc (n - m)) (set_awaiting_coro h x.0))
        counted
      ∙ ap (λ c. downs (suc (n - m)) (record { count = c; awaiting_coro = some h })) (omega arith)
      ∙ downs_all (n - m) (some h) (omega arith) in
    (ap (λ x. x.1) counted, ap (λ x. x.1) ended, ap (λ x. x.0) ended)

-- `down(n)` for `n` from 2 on, which takes the whole count at once, answers nullptr: the coroutine is
-- kept, with a count of 0.
pub down_many :
    (n h : ℕ)
    → 1 < n
    → n < 2 ^ 64
    → down n (record { count = n; awaiting_coro = some h })
      ≡ (record { count = 0; awaiting_coro = some h }, none)
unfolding down
down_many n h l b = ground arith
