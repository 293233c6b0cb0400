-- ===== src/FutureState/Race/Invariant.antt =====
-- What holds after any number of turns of the two threads.
use async_framework.Prelude.{
  ℕ, ◌+◌, ◌<◌, ◌≡◌, refl, sym, ◌∙◌, inl, inr, Bool, true, false, ◌&&◌, some, List, [], ◌∷◌, arith,
}
use mathlib.Core.Path.{subst}
use async_framework.Prelude.Outcome.{returns}
use async_framework.Try.{Try}
use async_framework.FutureState.{
  State, start, only_result, only_continuation, done, FutureState, Executors, schedule_continuation,
  runs_inplace, submit,
}
use async_framework.FutureState.Delivery.{
  IsUsable, IsWaiting, IsDelivered, schedule_continuation-IsDelivered,
}
use async_framework.FutureState.Race.{
  Phase, entered, storing, loading, first, second, delivering, returning, finished, failed,
  result_step, continuation_step, System, Turn, produce, consume, turn, run,
}

-- The thread has made its exchange.
abbrev pub gave : Phase → Bool
gave delivering = true
gave returning = true
gave finished = true
gave _ = false

-- The thread has written its part.
abbrev wrote : Phase → Bool
wrote entered = false
wrote storing = false
wrote _ = true

-- The thread has made its exchange, and what follows it but its return.
abbrev pub is_past : Phase → Bool
is_past returning = true
is_past finished = true
is_past _ = false

abbrev pub IsHealthy : Phase → Type 0
IsHealthy (failed o) = ⊥
IsHealthy _ = Unit {0}

-- The shared word is the join of what the two threads have given.
abbrev pub joined : Bool → Bool → State
joined false false = start
joined true false = only_result
joined false true = only_continuation
joined true true = done

-- A thread that tries the second exchange knows that the other one has made its own, and one that
-- delivers, or has delivered, knows that the other one has returned.
abbrev Knows : Phase → Phase → Type 0
Knows second other = gave other ≡ true
Knows delivering other = other ≡ finished
Knows returning other = other ≡ finished
Knows (failed o) other = ⊥
Knows _ other = Unit {0}

joined-both : (a b : Bool) → a && b ≡ true → joined a b ≡ done
joined-both true true e = refl
joined-both true false e = cc
joined-both false b e = cc

module _ {ℓ} {A : Type ℓ} (env : Executors) (checked : Bool) (n : ℕ) (v : Try A) (k : ℕ) where
  pub record Undelivered (c : Phase) (s : FutureState A) : Type ℓ where
    pub held : s.attached ≡ n
    pub unshared : s.continuation_ref ≡ 0
    pub uncalled : s.calls ≡ []
    pub unqueued : s.pending ≡ 0
    pub stored : wrote c ≡ true → s.continuation ≡ some k

  abbrev pub both : Phase → Phase → Bool
  both p c = is_past p && is_past c

  abbrev Settled : Bool → Phase → FutureState A → Type ℓ
  Settled true c s = IsDelivered n k v s
  Settled false c s = Undelivered c s × IsUsable env s

  pub record Inv (s : FutureState A) (p c : Phase) : Type ℓ where
    pub state_is : s.state ≡ joined (gave p) (gave c)
    pub value_is : wrote p ≡ true → s.try_value ≡ v
    pub producer_knows : Knows p c
    pub consumer_knows : Knows c p
    pub settled : Settled (both p c) c s

  IsUsable-value : (s : FutureState A) → IsUsable env s → IsUsable env (record s { try_value = v })
  unfolding runs_inplace submit
  IsUsable-value s u = record { known = u.known; handled = u.handled }

  IsUsable-continuation :
      (s : FutureState A) → IsUsable env s → IsUsable env (record s { continuation = some k })
  unfolding runs_inplace submit
  IsUsable-continuation s u = record { known = u.known; handled = u.handled }

  IsUsable-state :
      (s : FutureState A) (x : State) → IsUsable env s → IsUsable env (record s { state = x })
  unfolding runs_inplace submit
  IsUsable-state s x u = record { known = u.known; handled = u.handled }

  IsDelivered-Inv :
      (s : FutureState A) (p c : Phase)
      → gave p && gave c ≡ true
      → is_past p && is_past c ≡ true
      → Knows p c
      → Knows c p
      → IsDelivered n k v s
      → Inv s p c
  IsDelivered-Inv s p c given past kp kc (inl d) = record {
    state_is = d.settled ∙ sym (joined-both (gave p) (gave c) given);
    value_is = λ _. d.value_is;
    producer_knows = kp;
    consumer_knows = kc;
    settled = rw past (inl d);
  }
  IsDelivered-Inv s p c given past kp kc (inr d) = record {
    state_is = d.settled ∙ sym (joined-both (gave p) (gave c) given);
    value_is = λ _. d.value_is;
    producer_knows = kp;
    consumer_knows = kc;
    settled = rw past (inr d);
  }

  -- One thread is about to deliver, the other has returned.
  deliver-IsDelivered :
      (s : FutureState A) (trigger : Bool) (c : Phase)
      → 0 < n
      → n + 2 < 256
      → s.state ≡ done
      → s.try_value ≡ v
      → wrote c ≡ true
      → Undelivered c s
      → IsUsable env s
      → ((schedule_continuation env trigger s).1 ≡ returns tt)
        × IsDelivered n k v (schedule_continuation env trigger s).0
  deliver-IsDelivered s trigger c lo hi d e q w u =
      let (r, d) = schedule_continuation-IsDelivered env n k trigger s lo hi ready u in
      (r, subst (λ w. IsDelivered n k w (schedule_continuation env trigger s).0) e d)
    where
      ready : IsWaiting n k s
      ready = record {
        ready = d;
        held = w.held;
        unshared = w.unshared;
        stored = w.stored q;
        uncalled = w.uncalled;
        unqueued = w.unqueued;
      }

  produce-Inv :
      (s : FutureState A) (p c : Phase)
      → 0 < n
      → n + 2 < 256
      → Inv s p c
      → let (t, q) = result_step env checked v s p in Inv t q c
  unfolding result_step
  produce-Inv s entered c lo hi i = record {
    state_is = ground arith;
    value_is = ground arith;
    producer_knows = ground arith;
    consumer_knows = ground arith;
    settled = ground arith;
  }
  produce-Inv s storing c lo hi i = record {
    state_is = ground arith;
    value_is = ground arith;
    producer_knows = ground arith;
    consumer_knows = ground arith;
    settled = ground (arith, IsUsable-value s);
  }
  produce-Inv s loading c lo hi i = record {
    state_is = ground arith;
    value_is = ground arith;
    producer_knows = ground arith;
    consumer_knows = ground arith;
    settled = ground arith;
  }
  produce-Inv s first c lo hi i = record {
    state_is = ground arith;
    value_is = ground arith;
    producer_knows = ground arith;
    consumer_knows = ground arith;
    settled = ground (arith, IsUsable-state s only_result);
  }
  produce-Inv s second c lo hi i = record {
    state_is = ground arith;
    value_is = ground arith;
    producer_knows = ground arith;
    consumer_knows = ground arith;
    settled = ground (arith, IsUsable-state s done);
  }
  produce-Inv s delivering c lo hi i =
      rw i.producer_knows (rw d.0 (IsDelivered-Inv _ returning finished refl refl refl tt d.1))
    where
      j : Inv s delivering finished
      j = rw i.producer_knows at i

      d :
          ((schedule_continuation env false s).1 ≡ returns tt)
          × IsDelivered n k v (schedule_continuation env false s).0
      d =
          deliver-IsDelivered s false finished lo hi j.state_is (j.value_is refl) refl j.settled.0
            j.settled.1
  produce-Inv s returning c lo hi i =
      rw i.producer_knows
        (IsDelivered-Inv s finished finished refl refl tt tt (rw i.producer_knows at i.settled))
  produce-Inv s finished c lo hi i = i
  produce-Inv s (failed o) c lo hi i = i

  consume-Inv :
      (s : FutureState A) (p c : Phase)
      → 0 < n
      → n + 2 < 256
      → Inv s p c
      → let (t, q) = continuation_step env k s c in Inv t p q
  unfolding continuation_step
  consume-Inv s p entered lo hi i = record {
    state_is = ground arith;
    value_is = ground arith;
    producer_knows = ground arith;
    consumer_knows = ground arith;
    settled = ground arith;
  }
  consume-Inv s p storing lo hi i = record {
    state_is = ground arith;
    value_is = ground arith;
    producer_knows = ground arith;
    consumer_knows = ground arith;
    settled = ground (arith, IsUsable-continuation s);
  }
  consume-Inv s p loading lo hi i = record {
    state_is = ground arith;
    value_is = ground arith;
    producer_knows = ground arith;
    consumer_knows = ground arith;
    settled = ground arith;
  }
  consume-Inv s p first lo hi i = record {
    state_is = ground arith;
    value_is = ground arith;
    producer_knows = ground arith;
    consumer_knows = ground arith;
    settled = ground (arith, IsUsable-state s only_continuation);
  }
  consume-Inv s p second lo hi i = record {
    state_is = ground arith;
    value_is = ground arith;
    producer_knows = ground arith;
    consumer_knows = ground arith;
    settled = ground (arith, IsUsable-state s done);
  }
  consume-Inv s p delivering lo hi i =
      rw i.consumer_knows (rw d.0 (IsDelivered-Inv _ finished returning refl refl tt refl d.1))
    where
      j : Inv s finished delivering
      j = rw i.consumer_knows at i

      d :
          ((schedule_continuation env true s).1 ≡ returns tt)
          × IsDelivered n k v (schedule_continuation env true s).0
      d =
          deliver-IsDelivered s true delivering lo hi j.state_is (j.value_is refl) refl j.settled.0
            j.settled.1
  consume-Inv s p returning lo hi i =
      rw i.consumer_knows
        (IsDelivered-Inv s finished finished refl refl tt tt (rw i.consumer_knows at i.settled))
  consume-Inv s p finished lo hi i = i
  consume-Inv s p (failed o) lo hi i = i

  pub run-Inv :
      (y : System A) (ts : List Turn)
      → 0 < n
      → n + 2 < 256
      → Inv y.shared y.producer y.consumer
      → let z = run env checked v k y ts in Inv z.shared z.producer z.consumer
  unfolding run
  run-Inv y [] lo hi i = i
  run-Inv y (produce ∷ ts) lo hi i =
      run-Inv (turn env checked v k y produce) ts lo hi
        (produce-Inv y.shared y.producer y.consumer lo hi i)
  run-Inv y (consume ∷ ts) lo hi i =
      run-Inv (turn env checked v k y consume) ts lo hi
        (consume-Inv y.shared y.producer y.consumer lo hi i)

  ungiven : (p c : Phase) → gave p && gave c ≡ false → is_past p && is_past c ≡ false
  ungiven p c e = ground (arith, e)

  Knows-IsHealthy : (p c : Phase) → Knows p c → IsHealthy p
  Knows-IsHealthy (failed o) c h = h
  Knows-IsHealthy entered c h = tt
  Knows-IsHealthy p c h = tt

  pub Inv-IsHealthy : {s : FutureState A} {p c : Phase} → Inv s p c → IsHealthy p × IsHealthy c
  Inv-IsHealthy {p = p} {c = c} i =
      (Knows-IsHealthy p c i.producer_knows, Knows-IsHealthy c p i.consumer_knows)

  pub Inv-early :
      {s : FutureState A} {p c : Phase}
      → Inv s p c
      → gave p && gave c ≡ false
      → (s.calls ≡ []) × (s.pending ≡ 0)
  Inv-early {s = s} {p = p} {c = c} i e =
      let w : Settled false c s = rw (ungiven p c e) at i.settled in (w.0.uncalled, w.0.unqueued)

  pub Inv-late : {s : FutureState A} → Inv s finished finished → IsDelivered n k v s
  Inv-late i = i.settled
