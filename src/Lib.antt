-- ===== src/Lib.antt =====
-- async_framework: futures and promises, the coroutine mutexes, semaphore and counter, the thread pool and its
-- queue, and of the network code the dates, the sharded map, the load balancer and the client pool.
--
-- Try.h, FutureState.h, LocalState.h, Promise.h and Future.h make one chain. A `Promise` and its
-- `Future` point to one `FutureState`, which counts both; the promise side gives a `Try` by
-- `setResult`, the future side a callback by `setContinuation`, and the second of the two schedules
-- the callback, on an executor or in place. A ready `Future` has only a `LocalState`.
-- util/ThreadPool.h has a queue of util/Queue.h for each of its threads, from which the others steal.
-- coro/Semaphore.h uses coro/SpinLock.h.
-- coro/Mutex.h, coro/SharedMutex.h, coro/CountEvent.h, coro_apps/util/time_util.h,
-- coro_apps/util/map_sharded.hpp and coro_apps/coro_io/load_blancer.hpp stand apart. A pool of
-- coro_apps/coro_io/client_pool.hpp keeps its idle clients in two of detail/client_queue.hpp.
--
-- Which file models which part:
--   * Prelude: shared notation. Prelude/Outcome is what a call does: it returns, throws, or is
--     undefined behaviour or a failed `assert` (`faults`). Prelude/Stateful is the state monad over it;
--     its `logic_assert` is `logicAssert` of Common.h.
--   * Try: Try.h. The name `value_of` stands for `value()`.
--   * FutureState: FutureState.h. Every method is a function of the same name in lower case with
--     underscores; the log of calls and of queued jobs is kept beside the members. The answers of an
--     `Executor` are the record `Executors`, a parameter: `IsUsable` asks that it answers, with a
--     Boolean or by throwing a `std::exception`. FutureState/Race takes `setResult` and
--     `setContinuation` apart at their atomic operations: load, compare-exchange from START,
--     compare-exchange to DONE. A schedule is a list of turns of the two threads.
--   * LocalState, Promise, Future: the classes of those headers. Objects that are shared live in a
--     heap, a `Promise` and a `Future` are values. Future/Then is `thenValue`, `thenTry` and `thenImpl`.
--   * TimeUtil: time_util.h. TimeUtil/Calendar is the arithmetic of `faster_mktime`, TimeUtil/Parse is
--     `get_timestamp`, TimeUtil/Print is `get_gmt_time_str` and `get_local_time_str`. A string is the
--     list of its bytes. `gmtime` is a parameter. TimeUtil/Cache is the `thread_local` last second.
--     TimeUtil/RoundTrip reads what is written.
--   * Mutex: coro/Mutex.h, one atomic operation at a time for any number of coroutines. Mutex/Spec is
--     the lock with one owner and a queue that it stands for, Mutex/Turns and Mutex/Refine relate the
--     two, Mutex/Safety draws the conclusions. A coroutine that has handed the lock over is in its call of
--     `resume()`, which is over at any later turn.
--   * SharedMutex: coro/SharedMutex.h, one critical section of its inner lock at a time.
--   * SpinLock: coro/SpinLock.h, Semaphore: coro/Semaphore.h with the lock, a step being an operation of
--     the lock or what is done with it.
--   * CountEvent: coro/CountEvent.h. Queue: util/Queue.h, one critical section at a time.
--   * ThreadPool: util/ThreadPool.h on the model of util/Queue.h. ThreadPool/System is the pool with its
--     threads, its destructor and those that schedule: an event is one critical section of a queue,
--     and `scheduleById` is two, its test of `stop_` and its push.
--     ThreadPool/System/Kept and Drained say what becomes of the functions, ThreadPool/Schedule what
--     `scheduleById` answers.
--   * MapSharded: map_sharded.hpp. MapSharded/MapLock is `map_lock_t`, on lists of entries for the
--     standard map. MapSharded/Placed and Iterate relate the operations to a map as a function of the
--     key, MapSharded/Counted is about `size_`, for several threads in MapSharded/Counted/Racing.
--   * LoadBlancer: load_blancer.hpp. LoadBlancer/Wrr is `WRRLoadBlancer`; its loop ends
--     (LoadBlancer/Wrr/Ends) and gives each server its share (LoadBlancer/Wrr/Shares). Retry and
--     RoundRobin are the loop of `send_request`, Create the errors of `create`.
--   * ClientQueue: detail/client_queue.hpp over ClientQueue/Interface, the queue that it uses.
--     ClientQueue/Collector is `enqueue` and the collector of client_pool.hpp by atomic steps.
--   * ClientPool: client_pool.hpp. ClientPool/Reconnect is the loop of `reconnect`, ClientPool/Request
--     the bound on the free clients, ClientPool/Served the client that a request has,
--     ClientPool/Detect the loop of `alive_detect`; ClientPools is `get_client_pool`. What connects, and
--     whether the pool still exists after a wait, are parameters.
--
-- Numbers: `attached_` and `continuationRef_` wrap at 2 ^ 8, the state of a SharedMutex at 2 ^ 32,
-- the index of round robin at 2 ^ 32, `promiseRef_`, the count of a CountEvent, `size_` of the sharded
-- map and a time at 2 ^ 64. The weights of a load balancer are not negative. Each loop runs over a list
-- or a count, and a loop of atomic operations is a turn of a schedule for each of them;
-- fuel have the loop of `select_host_with_weight_round_robin`, the number of the servers, `std::gcd`,
-- the loop of `reconnect`, `connect_retry_count + 1`, and that of `alive_detect`, which lasts until the
-- host answers.
--
-- Some headers contain typing errors that no compiler accepts (a `switch (case)`, missing return
-- statements); the evident statement is modelled. Memory orders are those of sequential consistency.
-- Not modelled: the coroutine types and the other primitives and algorithms of coro/, whose frames the
-- compiler makes; the executors of executors/ and uthread; the network and file code of coro_apps, which
-- calls asio and the system; and copies of other libraries.
pub mod Prelude
pub mod Try
pub mod FutureState
pub mod LocalState
pub mod Promise
pub mod Future
pub mod ClientQueue
pub mod ClientPool
pub mod ClientPools
pub mod SpinLock
pub mod Semaphore
pub mod ThreadPool
pub mod TimeUtil
pub mod Mutex
pub mod LoadBlancer
pub mod MapSharded
pub mod Queue
pub mod SharedMutex
pub mod CountEvent
