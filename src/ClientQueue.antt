-- ===== src/ClientQueue.antt =====
-- coro_apps/coro_io/detail/client_queue.hpp: the idle clients of a pool, in two queues. New clients go
-- into the selected one; the collector drops those of the other one and swaps the two. The queues are
-- moodycamel's, a library of which only the interface is used here.
pub mod Interface
pub mod Sizes
pub mod Collector
pub mod Lists
mod Tests
use async_framework.Prelude.{
  ℕ, zero, suc, ◌+◌, ◌-◌, ◌%◌, ◌^◌, Bool, true, false, not, Option, none, some, ltb, ◌==◌,
  if◌then◌else◌,
}
use Interface.{ConcurrentQueue}

-- One of queue_ and its part of size_, of 64 bits.
pub record Half {ℓ} (Q : Type ℓ) : Type ℓ where
  pub queue : Q
  pub size : ℕ

-- `selected_index` is whether it is 1.
pub record ClientQueue {ℓ} (Q : Type ℓ) : Type ℓ where
  pub half0 : Half Q
  pub half1 : Half Q
  pub selected_index : Bool

abbrev pub word : ℕ
word = 2 ^ 64

abbrev pub increment : ℕ → ℕ
increment n = (n + 1) % word

abbrev pub subtract : ℕ → ℕ → ℕ
subtract k n = (n + (word - k % word)) % word

module _ {ℓ} {Q : Type ℓ} where
  abbrev pub half_at : Bool → ClientQueue Q → Half Q
  half_at false c = c.half0
  half_at true c = c.half1

  abbrev pub with_half : Bool → Half Q → ClientQueue Q → ClientQueue Q
  with_half false h c = record c { half0 = h }
  with_half true h c = record c { half1 = h }

  unfoldable pub size : ClientQueue Q → ℕ
  size c = (c.half0.size + c.half1.size) % word

  unfoldable pub reselect : ClientQueue Q → ClientQueue Q
  reselect c = record c { selected_index = not c.selected_index }

  abbrev pub enqueued : Half Q → Q × Bool → Half Q × ℕ
  enqueued h (q, true) = (record { queue = q; size = increment h.size }, increment h.size)
  enqueued h (q, false) = (record { queue = q; size = subtract 1 (increment h.size) }, 0)

  abbrev pub dequeued {κ} : {C : Type κ} → Half Q → Q × Option C → Half Q × Option C
  dequeued h (q, some client) = (record { queue = q; size = subtract 1 h.size }, some client)
  dequeued h (q, none) = (record { queue = q; size = h.size }, none)

module _ {ℓ} {C Q : Type ℓ} (api : ConcurrentQueue C Q) where
  unfoldable pub client_queue : ℕ → ClientQueue Q
  client_queue reserve_size = record {
    half0 = record { queue = api.new_queue reserve_size; size = 0 };
    half1 = record { queue = api.new_queue reserve_size; size = 0 };
    selected_index = false;
  }

  unfoldable pub enqueue : C → ClientQueue Q → ClientQueue Q × ℕ
  enqueue client c =
      let h = half_at c.selected_index c in
      let (h', cnt) = enqueued h (api.enqueue client h.queue) in
      (with_half c.selected_index h' c, cnt)

  abbrev pub dequeue_from : Bool → ClientQueue Q → ClientQueue Q × Option C
  dequeue_from index c =
      let h = half_at index c in
      let (h', client) = dequeued h (api.try_dequeue h.queue) in (with_half index h' c, client)

  abbrev pub or_from : Bool → ClientQueue Q × Option C → ClientQueue Q × Option C
  or_from index (c, some client) = (c, some client)
  or_from index (c, none) = dequeue_from index c

  -- The older clients first.
  unfoldable pub try_dequeue : ClientQueue Q → ClientQueue Q × Option C
  try_dequeue c =
      let index = c.selected_index in
      or_from index
        (if (half_at (not index) c).size == 0 then (c, none) else dequeue_from (not index) c)

  unfoldable pub clear_old : ℕ → ClientQueue Q → ClientQueue Q × ℕ
  clear_old max_clear_cnt c =
      let index = not c.selected_index in
      let h = half_at index c in
      let (q, result) = api.try_dequeue_bulk max_clear_cnt h.queue in
      if h.size == 0
      then (c, 0)
      else (with_half index (record { queue = q; size = subtract result h.size }) c, result)
