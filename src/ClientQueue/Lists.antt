-- ===== src/ClientQueue/Lists.antt =====
-- A moodycamel queue of numbers as a list, for the tests of client_queue.hpp and client_pool.hpp.
use async_framework.Prelude.{
  ℕ, zero, suc, ◌+◌, ◌≤◌, ◌≡◌, refl, Bool, true, Option, none, some, List, [], ◌∷◌, ◌++◌, length,
  length-append, arith,
}
use async_framework.ClientQueue.Interface.{ConcurrentQueue, Removed}

abbrev put : ℕ → List ℕ → List ℕ × Bool
put client q = (q ++ client ∷ [], true)

abbrev take_one : List ℕ → List ℕ × Option ℕ
take_one [] = ([], none)
take_one (client ∷ q) = (q, some client)

abbrev take_some : ℕ → List ℕ → List ℕ × ℕ
take_some zero q = (q, 0)
take_some (suc n) [] = ([], 0)
take_some (suc n) (client ∷ q) = let (rest, taken) = take_some n q in (rest, taken + 1)

pub take_one-Removed : (q : List ℕ) → Removed (length q) (length (take_one q).0) (take_one q).1
take_one-Removed [] = refl
take_one-Removed (client ∷ q) = omega arith

pub length-take_some :
    (n : ℕ) (q : List ℕ) → length (take_some n q).0 + (take_some n q).1 ≡ length q
length-take_some zero q = omega arith
length-take_some (suc n) [] = refl
length-take_some (suc n) (client ∷ q) = omega (arith, length-take_some n q)

pub take_some_le : (n : ℕ) (q : List ℕ) → (take_some n q).1 ≤ n
take_some_le zero q = omega arith
take_some_le (suc n) [] = omega arith
take_some_le (suc n) (client ∷ q) = omega (arith, take_some_le n q)

abbrev pub lists : ConcurrentQueue ℕ (List ℕ)
lists = record {
  new_queue = λ n. [];
  enqueue = put;
  try_dequeue = take_one;
  try_dequeue_bulk = take_some;
  held = length;
  held-new_queue = λ n. refl;
  held-enqueue = λ client q. length-append q (client ∷ []);
  held-try_dequeue = take_one-Removed;
  held-try_dequeue_bulk = length-take_some;
  try_dequeue_bulk_le = take_some_le;
}
