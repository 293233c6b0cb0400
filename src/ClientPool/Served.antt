-- ===== src/ClientPool/Served.antt =====
-- coro_apps/coro_io/client_pool.hpp: `get_client` and `send_request` come to an end, and with which
-- client.
use async_framework.Prelude.{
  ℕ, suc, ◌-◌, ◌<◌, ◌≡◌, refl, ap, sym, ◌∙◌, true, Option, none, some, arith,
}
use mathlib.Core.Option
use async_framework.Prelude.Outcome.{Outcome, returns, throws, faults}
use async_framework.ClientQueue.{ClientQueue, word, try_dequeue}
use async_framework.ClientQueue.Interface.{ConcurrentQueue}
use async_framework.ClientQueue.Sizes.{Takes, try_dequeue-Takes}
use async_framework.ClientPool.{
  ClientPool, Network, word32, given_up, reconnect, connected, or_connected, or_short, get_client,
  operated, sent, send_request,
}
use async_framework.ClientPool.Reconnect.{Tried, reconnect_loop-Tried}
use async_framework.ClientPool.Request.{
  IsBounded, alive-IsBounded, alive_detect_only, collect_free_client-IsBounded,
}

-- The answer to a request that has got a client, or none.
abbrev pub answer_of {ℓ κ} : {C : Type ℓ} {R : Type κ} → Outcome (C × R) → Outcome (Option R)
answer_of (returns (client, answer)) = returns (some answer)
answer_of (throws e) = throws e
answer_of faults = faults

abbrev pub answer {ℓ κ} :
    {C : Type ℓ} {R : Type κ} → (C → Outcome (C × R)) → Option C → Outcome (Option R)
answer op none = returns none
answer op (some client) = answer_of (op client)

module _ {ℓ} {C Q : Type ℓ} (api : ConcurrentQueue C Q) (net : Network C) where
  abbrev pub attempts : ClientPool Q → ℕ
  attempts pool = suc pool.pool_config.connect_retry_count

  abbrev pub short_first : ClientPool Q → Option C
  short_first pool = (try_dequeue api pool.short_connect_clients.queue).1

  abbrev pub free_first : ClientPool Q → Option C
  free_first pool = (try_dequeue api pool.free_clients.queue).1

  -- Which client a request has: an idle one, the free ones first, or a new one that has been
  -- connected at one of `connect_retry_count + 1` attempts.
  pub data Served (pool : ClientPool Q) : Option C → Type ℓ where
    free : (client : C) → free_first pool ≡ some client → Served pool (some client)
    short :
        (client : C)
        → free_first pool ≡ none
        → short_first pool ≡ some client
        → Served pool (some client)
    fresh :
        (client : C) (out : Option C)
        → free_first pool ≡ none
        → short_first pool ≡ none
        → net.new_client ≡ some client
        → Tried net 0 pool.pool_config.connect_retry_count client out
        → Served pool out
    unconfigured :
        free_first pool ≡ none → short_first pool ≡ none → net.new_client ≡ none → Served pool none

  -- What a request has got from the pool `pool`.
  pub record Got (pool : ClientPool Q) (r : Option (ClientPool Q × Outcome (Option C)))
      : Type ℓ where
    pub after : ClientPool Q
    pub client : Option C
    pub result : r ≡ some (after, returns client)
    pub served : Served pool client
    pub same_config : after.pool_config ≡ pool.pool_config
    pub bounded : IsBounded api pool → IsBounded api after

  given_up-IsBounded :
      (pool : ClientPool Q) (out : Option C)
      → IsBounded api pool
      → IsBounded api (given_up net pool (returns out))
  given_up-IsBounded pool none ok =
      alive_detect_only (IsBounded api) net pool (λ b. alive-IsBounded api b pool ok) ok
  given_up-IsBounded pool (some client) ok = ok

  given_up-config :
      (pool : ClientPool Q) (out : Option C)
      → (given_up net pool (returns out)).pool_config ≡ pool.pool_config
  given_up-config pool none =
      alive_detect_only (λ p. p.pool_config ≡ pool.pool_config) net pool (λ b. refl) refl
  given_up-config pool (some client) = refl

  module _ (start : ClientPool Q) (kept : (k : ℕ) → net.kept k ≡ true)
      (small : start.pool_config.connect_retry_count < word32) where
    connected-Got :
        (pool : ClientPool Q) (new : Option C)
        → free_first start ≡ none
        → short_first start ≡ none
        → net.new_client ≡ new
        → pool.pool_config ≡ start.pool_config
        → (IsBounded api start → IsBounded api pool)
        → Got start (connected api (attempts start) net pool new)
    unfolding reconnect
    connected-Got pool none none_free none_short e same ok = record {
      after = pool;
      client = none;
      result = refl;
      served = unconfigured none_free none_short e;
      same_config = same;
      bounded = ok;
    }
    connected-Got pool (some client) none_free none_short e same ok =
        let same_count : start.pool_config.connect_retry_count
            ≡ pool.pool_config.connect_retry_count =
          ap (λ config. config.connect_retry_count) (sym same) in
        let (out, ends, tried) =
          reconnect_loop-Tried net pool.pool_config start.pool_config.connect_retry_count 0
            (word32 - 1) client (omega (arith, same_count, small)) kept (omega arith)
            (omega (arith, same_count)) in
        record {
          after = given_up net pool (returns out);
          client = out;
          result = ap (Option.map (λ o. (given_up net pool o, o))) ends;
          served = fresh client out none_free none_short e tried;
          same_config = given_up-config pool out ∙ same;
          bounded = λ h. given_up-IsBounded pool out (ok h);
        }

    or_connected-Got :
        (pool : ClientPool Q) (client : Option C)
        → free_first start ≡ none
        → short_first start ≡ client
        → pool.pool_config ≡ start.pool_config
        → (IsBounded api start → IsBounded api pool)
        → Got start (or_connected api (attempts start) net pool client)
    or_connected-Got pool (some client) none_free e same ok = record {
      after = pool;
      client = some client;
      result = refl;
      served = short client none_free e;
      same_config = same;
      bounded = ok;
    }
    or_connected-Got pool none none_free e same ok =
        connected-Got pool net.new_client none_free e refl same ok

    or_short-Got :
        (free_queue : ClientQueue Q) (client : Option C)
        → free_first start ≡ client
        → let pool = record start {
          free_clients = record start.free_clients { queue = free_queue };
        } in
          (IsBounded api start → IsBounded api pool)
          → Got start (or_short api (attempts start) net pool client)
    unfolding Takes
    or_short-Got free_queue (some client) e ok = record {
      after = record start { free_clients = record start.free_clients { queue = free_queue } };
      client = some client;
      result = refl;
      served = free client e;
      same_config = refl;
      bounded = ok;
    }
    or_short-Got free_queue none e ok =
        let next = try_dequeue api start.short_connect_clients.queue in
        or_connected-Got
          (record start {
            free_clients = record start.free_clients { queue = free_queue };
            short_connect_clients = record start.short_connect_clients { queue = next.0 };
          })
          next.1 e refl refl
          (λ h. record {
            free = (ok h).free;
            short = (try_dequeue-Takes api start.short_connect_clients.queue h.short).0;
            bound = (ok h).bound;
          })

    get_client-Got : Got start (get_client api (attempts start) net start)
    unfolding get_client Takes
    get_client-Got =
        let next = try_dequeue api start.free_clients.queue in
        or_short-Got next.0 next.1 refl (λ h.
          let (counted, kept_sum) = try_dequeue-Takes api start.free_clients.queue h.free in
          record { free = counted; short = h.short; bound = omega (arith, h.bound, kept_sum) })

module _ {ℓ κ} {C Q : Type ℓ} {R : Type κ} (api : ConcurrentQueue C Q) where
  operated-Bounded :
      (net : Network C) (pool : ClientPool Q) (out : Outcome (C × R))
      → pool.pool_config.max_connection < word
      → IsBounded api pool
      → ((operated api net pool out).1 ≡ answer_of out)
        × IsBounded api (operated api net pool out).0
  operated-Bounded net pool (returns (client, r)) small ok =
      (refl, collect_free_client-IsBounded api net client pool small ok)
  operated-Bounded net pool (throws e) small ok = (refl, ok)
  operated-Bounded net pool faults small ok = (refl, ok)

  sent-Bounded :
      (net : Network C) (op : C → Outcome (C × R)) (pool : ClientPool Q) (client : Option C)
      → pool.pool_config.max_connection < word
      → IsBounded api pool
      → let r = sent api net op (pool, returns client) in
        (r.1 ≡ answer op client) × IsBounded api r.0
  sent-Bounded net op pool none small ok = (refl, ok)
  sent-Bounded net op pool (some client) small ok = operated-Bounded net pool (op client) small ok

  -- A request to a pool that is kept, whose settings are of 32 bits, whose sizes are right and which has
  -- no more than `max_connection` free clients, comes to an end, and the pool keeps this. It has the
  -- client that `Served` says, and the answer is that of the operation on it; without a client it is
  -- refused.
  pub send_request-Served :
      (net : Network C) (op : C → Outcome (C × R)) (pool : ClientPool Q)
      → ((k : ℕ) → net.kept k ≡ true)
      → pool.pool_config.connect_retry_count < word32
      → pool.pool_config.max_connection < word32
      → IsBounded api pool
      → (client : Option C) × (after : ClientPool Q) × (send_request api
            (suc pool.pool_config.connect_retry_count)
            net
            op
            pool
          ≡ some (after, answer op client))
        × Served api net pool client
        × IsBounded api after
  unfolding send_request
  send_request-Served net op pool kept small small' ok =
      let got = get_client-Got api net pool kept small in
      let same = ap (λ config. config.max_connection) got.same_config in
      let (answers, bounded) =
        sent-Bounded net op got.after got.client (omega (arith, same, small')) (got.bounded ok) in
      (
        got.client,
        (sent api net op (got.after, returns got.client)).0,
        ap (Option.map (sent api net op)) got.result
            ∙ ap (λ a. some ((sent api net op (got.after, returns got.client)).0, a)) answers,
        got.served,
        bounded,
      )
