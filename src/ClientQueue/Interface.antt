-- ===== src/ClientQueue/Interface.antt =====
-- moodycamel::ConcurrentQueue, of which coro_apps/util/concurrentqueue.h is a copy: its operations and
-- what its documentation says of them. `held` is the number of the elements.
use async_framework.Prelude.{ℕ, ◌+◌, ◌≤◌, ◌≡◌, Bool, true, false, Option, none, some}

-- What a call of `try_dequeue` did.
abbrev pub Removed {ℓ} : {C : Type ℓ} → ℕ → ℕ → Option C → Type 0
Removed before after none = after ≡ before
Removed before after (some client) = after + 1 ≡ before

abbrev pub Added : ℕ → ℕ → Bool → Type 0
Added before after true = after ≡ before + 1
Added before after false = after ≡ before

pub record ConcurrentQueue {ℓ} (C Q : Type ℓ) : Type ℓ where
  pub new_queue : ℕ → Q
  pub enqueue : C → Q → Q × Bool
  pub try_dequeue : Q → Q × Option C
  pub try_dequeue_bulk : ℕ → Q → Q × ℕ
  pub held : Q → ℕ
  pub held-new_queue : (n : ℕ) → held (new_queue n) ≡ 0
  pub held-enqueue :
      (client : C) (q : Q) → Added (held q) (held (enqueue client q).0) (enqueue client q).1
  pub held-try_dequeue : (q : Q) → Removed (held q) (held (try_dequeue q).0) (try_dequeue q).1
  pub held-try_dequeue_bulk :
      (max : ℕ) (q : Q) → held (try_dequeue_bulk max q).0 + (try_dequeue_bulk max q).1 ≡ held q
  pub try_dequeue_bulk_le : (max : ℕ) (q : Q) → (try_dequeue_bulk max q).1 ≤ max
