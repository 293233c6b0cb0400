-- ===== src/ClientQueue/Sizes.antt =====
-- coro_apps/coro_io/detail/client_queue.hpp: the sizes are those of the queues.
use async_framework.Prelude.{
  ℕ, ◌+◌, ◌%◌, ◌≤◌, ◌<◌, ◌≡◌, Bool, true, false, not, Option, none, some, List, [], ◌∷◌, ◌==◌,
  if◌then◌else◌, arith,
}
use async_framework.ClientQueue.{
  Half, ClientQueue, word, subtract, half_at, with_half, size, reselect, client_queue, enqueued,
  enqueue, dequeued, dequeue_from, or_from, try_dequeue, clear_old,
}
use async_framework.ClientQueue.Interface.{ConcurrentQueue, Added, Removed}

pub data Call {ℓ} (C : Type ℓ) : Type ℓ where
  enqueuing : C → Call C
  dequeuing : Call C
  clearing : ℕ → Call C
  reselecting : Call C

at_most_one : (b : Bool) → (if b then 1 else 0) ≤ 1
at_most_one true = omega arith
at_most_one false = omega arith

module _ {ℓ} {C Q : Type ℓ} (api : ConcurrentQueue C Q) where
  abbrev pub IsHalf : Half Q → Type 0
  IsHalf h = h.size ≡ api.held h.queue % word

  pub record IsCounted (c : ClientQueue Q) : Type 0 where
    pub first : IsHalf c.half0
    pub second : IsHalf c.half1

  abbrev pub held : ClientQueue Q → ℕ
  held c = api.held c.half0.queue + api.held c.half1.queue

  -- The queue after a call, and how many clients it has put in and taken out.
  unfoldable pub call : Call C → ClientQueue Q → ClientQueue Q × ℕ × ℕ
  unfolding enqueue try_dequeue clear_old reselect
  call (enqueuing client) c =
      let (c', cnt) = enqueue api client c in
      (c', if (api.enqueue client (half_at c.selected_index c).queue).1 then 1 else 0, 0)
  call dequeuing c =
      let (c', client) = try_dequeue api c in (c', 0, elim client [ some x ↦ 1 | none ↦ 0 ])
  call (clearing max) c = let (c', n) = clear_old api max c in (c', 0, n)
  call reselecting c = (reselect c, 0, 0)

  at-IsHalf : (index : Bool) (c : ClientQueue Q) → IsCounted c → IsHalf (half_at index c)
  at-IsHalf false c ok = ok.first
  at-IsHalf true c ok = ok.second

  with_half-IsCounted :
      (index : Bool) (h : Half Q) (c : ClientQueue Q)
      → IsCounted c
      → IsHalf h
      → IsCounted (with_half index h c)
  with_half-IsCounted false h c ok now = record { first = now; second = ok.second }
  with_half-IsCounted true h c ok now = record { first = ok.first; second = now }

  with_half-held :
      (index : Bool) (h : Half Q) (c : ClientQueue Q)
      → held (with_half index h c) + api.held (half_at index c).queue ≡ held c + api.held h.queue
  with_half-held false h c = omega arith
  with_half-held true h c = omega arith

  enqueued-IsHalf :
      (h : Half Q) (r : Q × Bool)
      → IsHalf h
      → Added (api.held h.queue) (api.held r.0) r.1
      → IsHalf (enqueued h r).0
        × (api.held (enqueued h r).0.queue ≡ api.held h.queue + (if r.1 then 1 else 0))
  enqueued-IsHalf h (q, true) ok more = (omega (arith, ok, more), omega (arith, more))
  enqueued-IsHalf h (q, false) ok more = (omega (arith, ok, more), omega (arith, more))

  abbrev found : Option C → ℕ
  found client = elim client [ some x ↦ 1 | none ↦ 0 ]

  dequeued-IsHalf :
      (h : Half Q) (r : Q × Option C)
      → IsHalf h
      → Removed (api.held h.queue) (api.held r.0) r.1
      → IsHalf (dequeued h r).0
        × (api.held (dequeued h r).0.queue + found (dequeued h r).1 ≡ api.held h.queue)
  dequeued-IsHalf h (q, some client) ok less = (omega (arith, ok, less), omega (arith, less))
  dequeued-IsHalf h (q, none) ok less = (omega (arith, ok, less), omega (arith, less))

  -- The queue keeps its sizes, and what it holds and gives out is what it held.
  unfoldable pub Takes : ClientQueue Q → ClientQueue Q × Option C → Type 0
  Takes c r = IsCounted r.0 × (held r.0 + found r.1 ≡ held c)

  dequeue_from-Takes :
      (index : Bool) (c : ClientQueue Q) → IsCounted c → Takes c (dequeue_from api index c)
  unfolding Takes
  dequeue_from-Takes index c ok =
      let h = half_at index c in
      let r = api.try_dequeue h.queue in
      let (counted, less) =
        dequeued-IsHalf h r (at-IsHalf index c ok) (api.held-try_dequeue h.queue) in
      (
        with_half-IsCounted index (dequeued h r).0 c ok counted,
        omega (arith, with_half-held index (dequeued h r).0 c, less),
      )

  or_from-Takes :
      (index : Bool) (c : ClientQueue Q) (r : ClientQueue Q × Option C)
      → Takes c r
      → Takes c (or_from api index r)
  unfolding Takes
  or_from-Takes index c (c', some client) h = h
  or_from-Takes index c (c', none) h =
      let (counted, less) = dequeue_from-Takes index c' h.0 in (counted, omega (arith, h.1, less))

  pub try_dequeue-Takes : (c : ClientQueue Q) → IsCounted c → Takes c (try_dequeue api c)
  unfolding try_dequeue Takes
  try_dequeue-Takes c ok =
      let old = not c.selected_index in
      or_from-Takes c.selected_index c
        (if (half_at old c).size == 0 then (c, none) else dequeue_from api old c)
        (elim ((half_at old c).size == 0)
          as (λ b. Takes c (if b then (c, none) else dequeue_from api old c)) [
            | true ↦ (ok, omega arith)
            | false ↦ dequeue_from-Takes old c ok
          ])

  Clears : ClientQueue Q → ClientQueue Q × ℕ → Type 0
  Clears c r = IsCounted r.0 × (held r.0 + r.1 ≡ held c)

  clear_old-Clears : (max : ℕ) (c : ClientQueue Q) → IsCounted c → Clears c (clear_old api max c)
  unfolding clear_old Clears
  clear_old-Clears max c ok =
      let index = not c.selected_index in
      let h = half_at index c in
      let r = api.try_dequeue_bulk max h.queue in
      let h' : Half Q = record { queue = r.0; size = subtract r.1 h.size } in
      let less = api.held-try_dequeue_bulk max h.queue in
      elim (h.size == 0) as (λ b. Clears c (if b then (c, 0) else (with_half index h' c, r.1))) [
        | true ↦ (ok, omega arith)
        | false ↦ (
          with_half-IsCounted index h' c ok (omega (arith, at-IsHalf index c ok, less)),
          omega (arith, with_half-held index h' c, less),
        )
      ]

  call-held :
      (k : Call C) (c : ClientQueue Q)
      → IsCounted c
      → let r = call k c in IsCounted r.0 × (held r.0 + r.2 ≡ held c + r.1)
  unfolding call enqueue Takes Clears
  call-held (enqueuing client) c ok =
      let h = half_at c.selected_index c in
      let r = api.enqueue client h.queue in
      let (counted, more) =
        enqueued-IsHalf h r (at-IsHalf c.selected_index c ok) (api.held-enqueue client h.queue) in
      (
        with_half-IsCounted c.selected_index (enqueued h r).0 c ok counted,
        omega (arith, with_half-held c.selected_index (enqueued h r).0 c, more),
      )
  call-held dequeuing c ok =
      let (counted, less) = try_dequeue-Takes c ok in (counted, omega (arith, less))
  call-held (clearing max) c ok =
      let (counted, less) = clear_old-Clears max c ok in (counted, omega (arith, less))
  call-held reselecting c ok = (record { first = ok.first; second = ok.second }, omega arith)

  pub enqueue-held :
      (client : C) (c : ClientQueue Q)
      → IsCounted c
      → IsCounted (enqueue api client c).0 × (held (enqueue api client c).0 ≤ held c + 1)
  unfolding call
  enqueue-held client c ok =
      let (counted, more) = call-held (enqueuing client) c ok in
      let b = (api.enqueue client (half_at c.selected_index c).queue).1 in
      let more' : held (enqueue api client c).0 + 0 ≡ held c + (if b then 1 else 0) = more in
      (counted, omega (arith, more', at_most_one b))

  pub size-held : (c : ClientQueue Q) → IsCounted c → held c < word → size c ≡ held c
  unfolding size
  size-held c ok small = omega (arith, ok.first, ok.second)

  -- The queue after the calls, and how many clients they have put in and taken out.
  unfoldable pub calls_run : List (Call C) → ClientQueue Q → ClientQueue Q × ℕ × ℕ
  unfolding call
  calls_run [] c = (c, 0, 0)
  calls_run (k ∷ calls) c =
      let (c', put, taken) = call k c in
      let (c'', puts, takes) = calls_run calls c' in (c'', put + puts, taken + takes)

  calls_run-held :
      (calls : List (Call C)) (c : ClientQueue Q)
      → IsCounted c
      → let r = calls_run calls c in IsCounted r.0 × (held r.0 + r.2 ≡ held c + r.1)
  unfolding calls_run
  calls_run-held [] c ok = (ok, omega arith)
  calls_run-held (k ∷ calls) c ok =
      let (counted, one) = call-held k c ok in
      let (all, rest) = calls_run-held calls (call k c).0 counted in (all, omega (arith, one, rest))

  -- From a new queue, after any calls: `size()` is the number of clients that have been put in less
  -- those that have been taken out or cleared, if that is below 2 ^ 64.
  pub calls_run-size :
      (reserve_size : ℕ) (calls : List (Call C))
      → let r = calls_run calls (client_queue api reserve_size) in r.1 < word → size r.0 + r.2 ≡ r.1
  unfolding client_queue size
  calls_run-size reserve_size calls small =
      let start = api.held-new_queue reserve_size in
      let (counted, kept) =
        calls_run-held calls (client_queue api reserve_size)
          (record { first = omega (arith, start); second = omega (arith, start) }) in
      omega (arith, counted.first, counted.second, kept, start, small)
