-- ===== src/ClientPool.antt =====
-- coro_apps/coro_io/client_pool.hpp: a pool of clients of one host, one call at a time. The network,
-- the kind of client and what happens while a coroutine is suspended are parameters.
pub mod Reconnect
pub mod Request
pub mod Served
pub mod Detect
mod Tests
use async_framework.Prelude.{
  ℕ, zero, suc, ◌+◌, ◌-◌, ◌%◌, ◌^◌, Bool, true, false, not, ◌&&◌, Option, none, some, ltb, ◌==◌,
  if◌then◌else◌,
}
use mathlib.Core.Option
use async_framework.Prelude.Outcome.{Outcome, returns, throws, faults}
use async_framework.ClientQueue.{ClientQueue, size, client_queue, try_dequeue}
use async_framework.ClientQueue
use async_framework.ClientQueue.Interface.{ConcurrentQueue}

pub record PoolConfig : Type 0 where
  pub max_connection : ℕ
  pub connect_retry_count : ℕ
  pub host_alive_detect_duration : ℕ

-- A client_queue with its counter of collectors.
pub record Clients {ℓ} (Q : Type ℓ) : Type ℓ where
  pub queue : ClientQueue Q
  pub collecter_cnt : ℕ

pub record ClientPool {ℓ} (Q : Type ℓ) : Type ℓ where
  pub pool_config : PoolConfig
  pub free_clients : Clients Q
  pub short_connect_clients : Clients Q
  pub is_alive : Bool

-- `connect n` is the n-th attempt of a coroutine to connect its client; `new_client` a client after
-- `init_config`, none if that fails; `kept n` whether the watcher finds the pool when it is locked for
-- the n-th time.
pub record Network {ℓ} (C : Type ℓ) : Type ℓ where
  pub connect : ℕ → C → C × Bool
  pub has_closed : C → Bool
  pub new_client : Option C
  pub kept : ℕ → Bool

abbrev pub word32 : ℕ
word32 = 2 ^ 32

module _ {ℓ} {C Q : Type ℓ} (api : ConcurrentQueue C Q) where
  unfoldable pub client_pool : PoolConfig → ClientPool Q
  client_pool config = record {
    pool_config = config;
    free_clients = record { queue = client_queue api config.max_connection; collecter_cnt = 0 };
    short_connect_clients = record { queue = client_queue api 0; collecter_cnt = 0 };
    is_alive = true;
  }

  -- The first client starts a collector, if none runs.
  unfoldable pub enqueue : C → Clients Q → Clients Q
  unfolding ClientQueue.enqueue
  enqueue client clients =
      let (queue, cnt) = ClientQueue.enqueue api client clients.queue in
      let starts = (cnt == 1) && (clients.collecter_cnt == 0) in
      record { queue = queue; collecter_cnt = if starts then 1 else clients.collecter_cnt }

  abbrev pub kept_client : C → ClientPool Q → ClientPool Q
  kept_client client pool =
      if ltb (size pool.free_clients.queue) pool.pool_config.max_connection
      then record pool { free_clients = enqueue client pool.free_clients }
      else record pool { short_connect_clients = enqueue client pool.short_connect_clients }

  unfoldable pub collect_free_client : Network C → C → ClientPool Q → ClientPool Q
  unfolding enqueue
  collect_free_client net client pool =
      if net.has_closed client then pool else record (kept_client client pool) { is_alive = true }

module _ {ℓ} {Q : Type ℓ} where
  unfoldable pub free_client_count : ClientPool Q → ℕ
  unfolding size
  free_client_count pool =
      (size pool.free_clients.queue + size pool.short_connect_clients.queue) % 2 ^ 64

  -- `alive_detect` to its first attempt to connect: the pool, and the client that it will connect.
  unfoldable pub alive_detect {κ} :
      {C : Type κ} → Network C → ClientPool Q → ClientPool Q × Option C
  unfolding free_client_count
  alive_detect net pool =
      if pool.pool_config.host_alive_detect_duration == 0
      then (pool, none)
      else if not (free_client_count pool == 0)
      then (pool, none)
      else if not pool.is_alive
      then (pool, none)
      else if ltb 0 (free_client_count (record pool { is_alive = false }))
      then (record pool { is_alive = true }, none)
      else (record pool { is_alive = false }, net.new_client)

-- The loop of `reconnect`, of `fuel` rounds at most: the client, or none when it gives up.
unfoldable pub reconnect_loop {ℓ} :
    {C : Type ℓ} → Network C → PoolConfig → ℕ → ℕ → ℕ → C → Option (Outcome (Option C))
reconnect_loop net config zero n i client = none
reconnect_loop net config (suc fuel) n i client =
    let (client', ok) = net.connect n client in
    let i' = (i + 1) % word32 in
    let rest = reconnect_loop net config fuel (suc n) i' client' in
    if not (net.kept n)
    then some faults
    else if ok
    then some (returns (some client'))
    else if not (net.kept (suc n))
    then some faults
    else if ltb i' config.connect_retry_count
    then rest
    else some (returns none)

module _ {ℓ} {C Q : Type ℓ} where
  -- One that gives up starts `alive_detect`.
  abbrev pub given_up : Network C → ClientPool Q → Outcome (Option C) → ClientPool Q
  given_up net pool (returns none) = (alive_detect net pool).0
  given_up net pool _ = pool

  unfoldable pub reconnect :
      ℕ → Network C → C → ClientPool Q → Option (ClientPool Q × Outcome (Option C))
  unfolding reconnect_loop alive_detect
  reconnect fuel net client pool =
      Option.map (λ out. (given_up net pool out, out))
        (reconnect_loop net pool.pool_config fuel 0 (word32 - 1) client)

module _ {ℓ} {C Q : Type ℓ} (api : ConcurrentQueue C Q) where
  -- With the client that `new_client` gives, the one taken from a queue, or the next in turn.
  abbrev pub connected :
      ℕ → Network C → ClientPool Q → Option C → Option (ClientPool Q × Outcome (Option C))
  connected fuel net pool none = some (pool, returns none)
  connected fuel net pool (some client) = reconnect fuel net client pool

  abbrev pub or_connected :
      ℕ → Network C → ClientPool Q → Option C → Option (ClientPool Q × Outcome (Option C))
  or_connected fuel net pool (some client) = some (pool, returns (some client))
  or_connected fuel net pool none = connected fuel net pool net.new_client

  abbrev pub or_short :
      ℕ → Network C → ClientPool Q → Option C → Option (ClientPool Q × Outcome (Option C))
  or_short fuel net pool (some client) = some (pool, returns (some client))
  or_short fuel net pool none =
      let (queue, client) = try_dequeue api pool.short_connect_clients.queue in
      let clients = record pool.short_connect_clients { queue = queue } in
      or_connected fuel net (record pool { short_connect_clients = clients }) client

  unfoldable pub get_client :
      ℕ → Network C → ClientPool Q → Option (ClientPool Q × Outcome (Option C))
  unfolding reconnect
  get_client fuel net pool =
      let (queue, client) = try_dequeue api pool.free_clients.queue in
      let clients = record pool.free_clients { queue = queue } in
      or_short fuel net (record pool { free_clients = clients }) client

  -- After the operation; a client of one that has thrown is not kept.
  abbrev pub operated {κ} :
      {R : Type κ} → Network C → ClientPool Q → Outcome (C × R) → ClientPool Q × Outcome (Option R)
  operated net pool (returns (client, answer)) =
      (collect_free_client api net client pool, returns (some answer))
  operated net pool (throws e) = (pool, throws e)
  operated net pool faults = (pool, faults)

  abbrev pub sent {κ} :
      {R : Type κ}
      → Network C
      → (C → Outcome (C × R))
      → ClientPool Q × Outcome (Option C)
      → ClientPool Q × Outcome (Option R)
  sent net op (pool, returns (some client)) = operated net pool (op client)
  sent net op (pool, returns none) = (pool, returns none)
  sent net op (pool, throws e) = (pool, throws e)
  sent net op (pool, faults) = (pool, faults)

  -- The answer of the operation; none is `connection_refused`.
  unfoldable pub send_request {κ} :
      {R : Type κ}
      → ℕ
      → Network C
      → (C → Outcome (C × R))
      → ClientPool Q
      → Option (ClientPool Q × Outcome (Option R))
  unfolding get_client collect_free_client
  send_request fuel net op pool = Option.map (sent net op) (get_client fuel net pool)
