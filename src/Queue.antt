-- ===== src/Queue.antt =====
-- util/Queue.h: the blocking queue of a thread pool. Each method is one critical section of its
-- mutex; whether `try_to_lock` succeeds is an argument, and a `pop` that would wait does nothing.
pub mod Order
mod Tests
use async_framework.Prelude.{
  Bool, true, false, not, Option, none, some, ℕ, List, [], ◌∷◌, ◌++◌, if◌then◌else◌, length,
}

pub record Queue {ℓ} (A : Type ℓ) : Type ℓ where
  pub items : List A
  pub stopped : Bool

-- What `pop` does: it waits, answers false, or true with the element.
pub data Popped {ℓ} (A : Type ℓ) : Type ℓ where
  waits : Popped A
  refused : Popped A
  popped : A → Popped A

module _ {ℓ} {A : Type ℓ} where
  abbrev pub new_queue : Queue A
  new_queue = record { items = []; stopped = false }

  unfoldable pub push : A → Queue A → Queue A
  push x q = record q { items = q.items ++ x ∷ [] }

  unfoldable pub try_push : Bool → A → Queue A → Queue A × Bool
  try_push false x q = (q, false)
  try_push true x q = (record q { items = q.items ++ x ∷ [] }, true)

  unfoldable pub pop : Queue A → Queue A × Popped A
  pop q = elim q.items [
    | [] ↦ (q, if q.stopped then refused else waits)
    | x ∷ rest ↦ (record q { items = rest }, popped x)
  ]

  unfoldable pub try_pop : Bool → Queue A → Queue A × Popped A
  try_pop false q = (q, refused)
  try_pop true q = elim q.items [
    | [] ↦ (q, refused)
    | x ∷ rest ↦ (record q { items = rest }, popped x)
  ]

  -- No predicate is `none`.
  unfoldable pub try_pop_if : Bool → Option (A → Bool) → Queue A → Queue A × Popped A
  try_pop_if false predict q = (q, refused)
  try_pop_if true predict q = elim q.items [
    | [] ↦ (q, refused)
    | x ∷ rest ↦
        if elim predict [ none ↦ true | some f ↦ f x ]
        then (record q { items = rest }, popped x)
        else (q, refused)
  ]

  unfoldable pub size : Queue A → ℕ
  size q = length q.items

  unfoldable pub empty : Queue A → Bool
  empty q = elim q.items [ [] ↦ true | x ∷ rest ↦ false ]

  unfoldable pub stop : Queue A → Queue A
  stop q = record q { stopped = true }

-- A call of one of the threads, in the order of the critical sections.
pub data Call {ℓ} (A : Type ℓ) : Type ℓ where
  pushing : A → Call A
  try_pushing : Bool → A → Call A
  popping : Call A
  try_popping : Bool → Call A
  try_popping_if : Bool → Option (A → Bool) → Call A
  stopping : Call A

module _ {ℓ} {A : Type ℓ} where
  -- The queue after a call, what it has put in, and what it has taken out.
  unfoldable pub call : Call A → Queue A → Queue A × Popped A
  unfolding push try_push pop try_pop try_pop_if stop
  call (pushing x) q = (push x q, refused)
  call (try_pushing ok x) q = ((try_push ok x q).0, refused)
  call popping q = pop q
  call (try_popping ok) q = try_pop ok q
  call (try_popping_if ok predict) q = try_pop_if ok predict q
  call stopping q = (stop q, refused)

  abbrev pub put : Call A → List A
  put (pushing x) = x ∷ []
  put (try_pushing true x) = x ∷ []
  put _ = []

  abbrev pub taken : Popped A → List A
  taken (popped x) = x ∷ []
  taken _ = []

  abbrev pub puts : List (Call A) → List A
  puts [] = []
  puts (c ∷ calls) = put c ++ puts calls

  -- The queue after the calls, and everything taken out, in order.
  unfoldable pub calls_run : List (Call A) → Queue A → Queue A × List A
  unfolding call
  calls_run [] q = (q, [])
  calls_run (c ∷ calls) q =
      let (q', out) = call c q in let (q'', outs) = calls_run calls q' in (q'', taken out ++ outs)
