-- ===== src/ClientQueue/Tests.antt =====
-- coro_apps/coro_io/detail/client_queue.hpp and client_pool.hpp: runs. A client is a number, and a
-- moodycamel queue a list.
use async_framework.Prelude.{ℕ, ◌+◌, ◌≡◌, refl, true, false, List, [], ◌∷◌, arith}
use async_framework.ClientQueue.{client_queue, size}
use async_framework.ClientQueue.Lists.{lists}
use async_framework.ClientQueue.Sizes.{
  Call, enqueuing, dequeuing, clearing, reselecting, call, calls_run, calls_run-size,
}
use async_framework.ClientQueue.Collector.{
  Counters, no_side, no_clients, counts_first, counts, stores_first, stores, refuses_first, starts,
  Steps, here, then_step, enters, refused, starting,
}
use async_framework.ClientQueue.Collector.Present.{between, Steps-collecting}

abbrev some_calls : List (Call ℕ)
some_calls =
    enqueuing 3
    ∷ enqueuing 4
    ∷ reselecting
    ∷ enqueuing 5
    ∷ dequeuing
    ∷ clearing 10
    ∷ enqueuing 6
    ∷ []

some_calls-size : size (calls_run lists some_calls (client_queue lists 100)).0 ≡ 2
unfolding size calls_run call client_queue
some_calls-size = refl

calls_run-size_example : size (calls_run lists some_calls (client_queue lists 100)).0 + 2 ≡ 4
unfolding calls_run call client_queue
calls_run-size_example = calls_run-size lists 100 some_calls (omega arith)

abbrev one_collector : Counters
one_collector = record no_clients {
  side0 = record no_side { queue = 1; size = 1 };
  collecter_cnt = 1;
  collecting = 1;
}

one_client : Steps false no_clients one_collector
one_client =
    then_step
      (then_step (then_step (here no_clients) (enters false _ (counts_first _ refl)))
        (enters false _ (stores_first _ (omega arith))))
      (starting (starts _ (omega arith) refl))

Steps-collecting_example : one_collector.collecting ≡ 1
unfolding between
Steps-collecting_example = Steps-collecting one_client refl (omega arith)

-- Where a queue refuses the element that was counted first, a client may stay without a collector.
abbrev left_behind : Counters
left_behind = record no_clients { side0 = record no_side { queue = 1; size = 1 } }

refused_first : Steps true no_clients left_behind
refused_first =
    then_step
      (then_step
        (then_step (then_step (here no_clients) (enters false _ (counts_first _ refl)))
          (enters false _ (counts _ (omega arith) (omega arith))))
        (refused refl false _ (refuses_first _ (omega arith))))
      (enters false _ (stores _ (omega arith)))
