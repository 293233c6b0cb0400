-- ===== src/FutureState/Race/Safety.antt =====
-- `setResult` against `setContinuation`: what every schedule of the two threads guarantees.
use async_framework.Prelude.{
  ℕ, suc, ◌+◌, ◌-◌, ◌<◌, ◌≤◌, ◌≡◌, Bool, false, ◌&&◌, List, [], ◌∷◌, arith,
}
use mathlib.Core.Path.{subst₂}
use async_framework.Try.{Try}
use async_framework.FutureState.{start, FutureState, Executors}
use async_framework.FutureState.Delivery.{IsUsable, IsDelivered}
use async_framework.FutureState.Race.{
  Phase, entered, storing, loading, first, second, delivering, returning, finished, failed,
  result_step, continuation_step, System, Turn, produce, consume, turn, run,
}
use async_framework.FutureState.Race.Invariant.{
  gave, joined, IsHealthy, Inv, run-Inv, Inv-IsHealthy, Inv-early, Inv-late,
}

module _ {ℓ} {A : Type ℓ} where
  -- Nothing has been given, and `n` references are held: by the promises, and by the future.
  pub record IsFresh (n : ℕ) (s : FutureState A) : Type ℓ where
    pub state_is : s.state ≡ start
    pub held : s.attached ≡ n
    pub unshared : s.continuation_ref ≡ 0
    pub uncalled : s.calls ≡ []
    pub unqueued : s.pending ≡ 0

  abbrev pub racing : FutureState A → System A
  racing s = record { shared = s; producer = entered; consumer = entered }

abbrev pub turns_of : Turn → List Turn → ℕ
turns_of t [] = 0
turns_of produce (produce ∷ ts) = suc (turns_of produce ts)
turns_of produce (consume ∷ ts) = turns_of produce ts
turns_of consume (produce ∷ ts) = turns_of consume ts
turns_of consume (consume ∷ ts) = suc (turns_of consume ts)

-- Steps that a thread takes at most before it ends.
abbrev rank : Phase → ℕ
rank entered = 7
rank storing = 6
rank loading = 5
rank first = 4
rank second = 3
rank delivering = 2
rank returning = 1
rank _ = 0

module _ {ℓ} {A : Type ℓ} (env : Executors) (checked : Bool) (v : Try A) (k : ℕ) where
  result_step-rank :
      (s : FutureState A) (p : Phase) → rank (result_step env checked v s p).1 ≤ rank p - 1
  unfolding result_step
  result_step-rank s entered = ground arith
  result_step-rank s p = ground arith

  continuation_step-rank :
      (s : FutureState A) (p : Phase) → rank (continuation_step env k s p).1 ≤ rank p - 1
  unfolding continuation_step
  continuation_step-rank s entered = ground arith
  continuation_step-rank s p = ground arith

  run-rank :
      (y : System A) (ts : List Turn)
      → (rank (run env checked v k y ts).producer ≤ rank y.producer - turns_of produce ts)
        × (rank (run env checked v k y ts).consumer ≤ rank y.consumer - turns_of consume ts)
  unfolding run
  run-rank y [] = omega arith
  run-rank y (produce ∷ ts) =
      omega
        (arith, run-rank (turn env checked v k y produce) ts, result_step-rank y.shared y.producer)
  run-rank y (consume ∷ ts) = omega (
    arith,
    run-rank (turn env checked v k y consume) ts,
    continuation_step-rank y.shared y.consumer,
  )

  module _ (n : ℕ) (s : FutureState A) where
    IsFresh-Inv : IsFresh n s → IsUsable env s → Inv env checked n v k s entered entered
    IsFresh-Inv f u = record {
      state_is = f.state_is;
      value_is = λ e. cc;
      producer_knows = tt;
      consumer_knows = tt;
      settled = (
        record {
          held = f.held;
          unshared = f.unshared;
          uncalled = f.uncalled;
          unqueued = f.unqueued;
          stored = λ e. cc;
        },
        u,
      );
    }

    fresh-run-Inv :
        (ts : List Turn)
        → 0 < n
        → n + 2 < 256
        → IsFresh n s
        → IsUsable env s
        → let z = run env checked v k (racing s) ts in
          Inv env checked n v k z.shared z.producer z.consumer
    fresh-run-Inv ts lo hi f u = run-Inv env checked n v k (racing s) ts lo hi (IsFresh-Inv f u)

    -- From a fresh state with 1 to 253 references, whose executor, if it has one, answers
    -- `currentThreadInExecutor` (the default one throws and is excluded) and whose `schedule` or `checkin`,
    -- where it is called, returns or throws a `std::exception` (`IsUsable`):
    -- in every schedule of `setResult` and `setContinuation`, neither throws nor fails its assertion, and the state is the join of what
    -- each has given.
    pub race-IsHealthy :
        (ts : List Turn)
        → 0 < n
        → n + 2 < 256
        → IsFresh n s
        → IsUsable env s
        → let z = run env checked v k (racing s) ts in
          IsHealthy z.producer
          × IsHealthy z.consumer
          × (z.shared.state ≡ joined (gave z.producer) (gave z.consumer))
    race-IsHealthy ts lo hi f u =
        let i = fresh-run-Inv ts lo hi f u in
        let (p, c) = Inv-IsHealthy env checked n v k i in (p, c, i.state_is)

    -- From a fresh state with 1 to 253 references, whose executor, if it has one, answers
    -- `currentThreadInExecutor` and whose `schedule` or `checkin`, where it is called, returns or throws a
    -- `std::exception` (`IsUsable`): in every schedule, as long as `setResult` and `setContinuation` have not
    -- both made their exchange of the state, nothing has been called and no job is queued.
    pub race_early :
        (ts : List Turn)
        → 0 < n
        → n + 2 < 256
        → IsFresh n s
        → IsUsable env s
        → gave (run env checked v k (racing s) ts).producer
            && gave (run env checked v k (racing s) ts).consumer
          ≡ false
        → ((run env checked v k (racing s) ts).shared.calls ≡ [])
          × ((run env checked v k (racing s) ts).shared.pending ≡ 0)
    race_early ts lo hi f u e = Inv-early env checked n v k (fresh-run-Inv ts lo hi f u) e

    finished_of_rank : (p : Phase) → IsHealthy p → rank p ≤ 0 → p ≡ finished
    finished_of_rank (failed o) h r = absurd h
    finished_of_rank p h r = ground arith

    -- From a fresh state with 1 to 253 references, whose executor, if it has one, answers
    -- `currentThreadInExecutor` (the default one throws and is excluded) and whose `schedule` or `checkin`,
    -- where it is called, returns or throws a `std::exception` (`IsUsable`):
    -- in every schedule with seven turns of each thread,
    -- both have returned, and the continuation has been called once with the value, or exactly one job
    -- that will call it is queued.
    pub race_delivers :
        (ts : List Turn)
        → 0 < n
        → n + 2 < 256
        → IsFresh n s
        → IsUsable env s
        → 7 ≤ turns_of produce ts
        → 7 ≤ turns_of consume ts
        → let z = run env checked v k (racing s) ts in
          (z.producer ≡ finished) × (z.consumer ≡ finished) × IsDelivered n k v z.shared
    race_delivers ts lo hi f u p7 c7 =
        (p, c, Inv-late env checked n v k (subst₂ (Inv env checked n v k z.shared) p c i))
      where
        z : System A
        z = run env checked v k (racing s) ts

        i : Inv env checked n v k z.shared z.producer z.consumer
        i = fresh-run-Inv ts lo hi f u

        p : z.producer ≡ finished
        p =
            finished_of_rank z.producer (Inv-IsHealthy env checked n v k i).0
              (omega (arith, run-rank (racing s) ts))

        c : z.consumer ≡ finished
        c =
            finished_of_rank z.consumer (Inv-IsHealthy env checked n v k i).1
              (omega (arith, run-rank (racing s) ts))
