-- ===== src/ClientPool/Tests.antt =====
-- coro_apps/coro_io/client_pool.hpp: runs. A client is a number.
use async_framework.Prelude.{ℕ, ◌+◌, ◌≡◌, refl, true, false, Option, some, List, ltb, arith}
use async_framework.Prelude.Outcome.{Outcome, returns, faults}
use async_framework.ClientPool.Detect.{IsAlive, detect_loop, detect_loop-IsAlive}
use async_framework.ClientPool.Reconnect.{attempt}
use async_framework.ClientQueue.Lists.{lists}
use async_framework.ClientPool.{
  PoolConfig, ClientPool, Network, client_pool, send_request, reconnect_loop,
}
use async_framework.ClientPool.Request.{client_pool-IsBounded, IsBounded}
use async_framework.ClientPool.Served.{Served, answer, send_request-Served}

abbrev settings : PoolConfig
settings = record {
  max_connection = 100;
  connect_retry_count = 3;
  host_alive_detect_duration = 30000;
}

-- The first attempts fail.
abbrev slow : Network ℕ
slow = record {
  connect = λ n client. (client + 1, ltb 1 n);
  has_closed = λ client. false;
  new_client = some 20;
  kept = λ n. true;
}

abbrev pool : ClientPool (List ℕ)
pool = client_pool lists settings

-- After three attempts.
connected_late : reconnect_loop slow settings 4 0 4294967295 20 ≡ some (returns (some 23))
unfolding reconnect_loop
connected_late = refl

-- The pool that is gone at the end of a wait is dereferenced.
gone_pool :
    reconnect_loop (record slow { kept = λ n. ltb n 1 }) settings 4 0 4294967295 20 ≡ some faults
unfolding reconnect_loop
gone_pool = refl

abbrev twice : ℕ → Outcome (ℕ × ℕ)
twice client = returns (client, client + client)

send_request-Served_example :
    (client : Option ℕ) × (after : ClientPool (List ℕ)) × (send_request lists 4 slow twice pool
      ≡ some (after, answer twice client))
    × Served lists slow pool client
    × IsBounded lists after
unfolding client_pool
send_request-Served_example =
    send_request-Served lists slow twice pool (λ k. refl) (omega arith) (omega arith)
      (client_pool-IsBounded lists settings)

-- While the coroutine waits, another one sets is_alive_ back.
abbrev dying : ℕ → ClientPool (List ℕ) → ClientPool (List ℕ)
dying n p = record p { is_alive = false }

detect_loop-IsAlive_example : IsAlive (detect_loop lists 5 slow dying 0 20 pool)
unfolding attempt
detect_loop-IsAlive_example =
    detect_loop-IsAlive lists 5 2 slow dying 0 20 pool (omega arith) (λ j. refl) refl
