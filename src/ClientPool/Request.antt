-- ===== src/ClientPool/Request.antt =====
-- coro_apps/coro_io/client_pool.hpp: `send_request` and the bound on the idle clients.
use async_framework.Prelude.{
  ◌≤◌, ◌<◌, inl, inr, Bool, true, false, not, Option, none, ltb, ◌==◌, Bool-cases, if◌then◌else◌,
  arith,
}
use async_framework.ClientQueue.{word, size, client_queue}
use async_framework.ClientQueue.Interface.{ConcurrentQueue}
use async_framework.ClientQueue.Sizes.{IsCounted, held, size-held, enqueue-held}
use async_framework.ClientPool.{
  PoolConfig, ClientPool, Network, client_pool, enqueue, kept_client, collect_free_client,
  free_client_count, alive_detect,
}

if_either {ℓ κ μ} :
    {A : Type ℓ} {B : Type κ} (P : A → Type μ) (b : Bool) (x y : A × B)
    → P x.0
    → P y.0
    → P (if b then x else y).0
if_either P true x y h h' = h
if_either P false x y h h' = h'

-- All that `alive_detect` changes in the pool is whether it is alive.
pub alive_detect_only {ℓ κ μ} :
    {C : Type ℓ} {Q : Type κ} (P : ClientPool Q → Type μ) (net : Network C) (pool : ClientPool Q)
    → ((alive : Bool) → P (record pool { is_alive = alive }))
    → P pool
    → P (alive_detect net pool).0
unfolding alive_detect
alive_detect_only {C = C} {Q = Q} P net pool h ok =
    let up : ClientPool Q × Option C = (record pool { is_alive = true }, none) in
    let down : ClientPool Q × Option C = (record pool { is_alive = false }, net.new_client) in
    let same : ClientPool Q × Option C = (pool, none) in
    let counted = ltb 0 (free_client_count (record pool { is_alive = false })) in
    let third = if counted then up else down in
    let second = if not pool.is_alive then same else third in
    let first = if not (free_client_count pool == 0) then same else second in
    if_either P (pool.pool_config.host_alive_detect_duration == 0) same first ok (
      if_either P (not (free_client_count pool == 0)) same second ok (
        if_either P (not pool.is_alive) same third ok
          (if_either P counted up down (h true) (h false))))

module _ {ℓ} {C Q : Type ℓ} (api : ConcurrentQueue C Q) where
  -- The sizes of the queues are counted, and there are at most `max_connection_` free clients.
  pub record IsBounded (pool : ClientPool Q) : Type 0 where
    pub free : IsCounted api pool.free_clients.queue
    pub short : IsCounted api pool.short_connect_clients.queue
    pub bound : held api pool.free_clients.queue ≤ pool.pool_config.max_connection

  pub client_pool-IsBounded : (config : PoolConfig) → IsBounded (client_pool api config)
  unfolding client_pool client_queue
  client_pool-IsBounded config =
      let free = api.held-new_queue config.max_connection in
      let short = api.held-new_queue 0 in
      record {
        free = record { first = omega (arith, free); second = omega (arith, free) };
        short = record { first = omega (arith, short); second = omega (arith, short) };
        bound = omega (arith, free);
      }

  pub alive-IsBounded :
      (alive : Bool) (pool : ClientPool Q)
      → IsBounded pool
      → IsBounded (record pool { is_alive = alive })
  alive-IsBounded alive pool ok = record { free = ok.free; short = ok.short; bound = ok.bound }

  kept_client-IsBounded :
      (client : C) (pool : ClientPool Q)
      → pool.pool_config.max_connection < word
      → IsBounded pool
      → IsBounded (kept_client api client pool)
  unfolding enqueue
  kept_client-IsBounded client pool small ok =
      let free = pool.free_clients.queue in
      let short = pool.short_connect_clients.queue in
      let (counted, more) = enqueue-held api client free ok.free in
      let exact = size-held api free ok.free (omega (arith, ok.bound, small)) in
      elim (Bool-cases (ltb (size free) pool.pool_config.max_connection)) [
        | inl room ↦
            rw room (record {
              free = counted;
              short = ok.short;
              bound = ground (arith, room, exact, more);
            })
        | inr full ↦ rw full (record {
          free = ok.free;
          short = (enqueue-held api client short ok.short).0;
          bound = ok.bound;
        })
      ]

  pub collect_free_client-IsBounded :
      (net : Network C) (client : C) (pool : ClientPool Q)
      → pool.pool_config.max_connection < word
      → IsBounded pool
      → IsBounded (collect_free_client api net client pool)
  unfolding collect_free_client
  collect_free_client-IsBounded net client pool small ok =
      elim (net.has_closed client)
        as (λ b.
          IsBounded
            (if b then pool else record (kept_client api client pool) { is_alive = true })) [
              | true ↦ ok
              | false ↦
                  alive-IsBounded true (kept_client api client pool)
                    (kept_client-IsBounded client pool small ok)
            ]
