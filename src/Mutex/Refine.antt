-- ===== src/Mutex/Refine.antt =====
-- Every turn of coro/Mutex.h is a move of the lock with one owner and a queue.
use async_framework.Prelude.{
  ℕ, ◌<◌, ◌≡◌, refl, sym, ap, ◌∙◌, arith, List, [], ◌∷◌, ◌++◌, ◌==◌, length, if◌then◌else◌, Bool,
  true, false,
}
use async_framework.Mutex.{
  Word, unlocked, locked, queued, Pointer, this_mutex, null_pointer, awaiter, Phase, outside,
  loading, expecting, moves, holding, releasing, taking, resuming, suspended, failed, System, turn,
  operate, reverse_onto, resume_head, unlock_load, unlock, release_lock, take_queued,
  lock_async_impl, await_ready, try_lock,
}
use async_framework.Mutex.Spec.{Lock, Move, owns, waits, holds, fifo, Rep, Stage}
use async_framework.Mutex.Turns.{sys, Stepped, quiet, acquired, queued_up, released, handed}
use async_framework.Mutex.Phases.{reverse_onto-fifo, append_nil, length-fifo}

module _ (f : ℕ → Phase) (a : Lock) (i : ℕ) where
  -- The loop of `lockAsyncImpl`, for each value it expects and finds.
  lock_async_impl-Stepped :
      (old : Pointer) (w : Word) (ws : List ℕ)
      → Rep (sys w ws f) a
      → f i ≡ expecting old
      → Stepped (sys w ws f) a i (lock_async_impl i old (record { state = w; waiters = ws }))
  unfolding lock_async_impl
  lock_async_impl-Stepped this_mutex unlocked ws r e = acquired ws f a i r
  lock_async_impl-Stepped this_mutex (locked []) ws r e =
      quiet (locked []) ws f a i r _ _ e refl refl (record {})
  lock_async_impl-Stepped this_mutex (locked (x ∷ l)) ws r e =
      quiet (locked (x ∷ l)) ws f a i r _ _ e refl refl (record {})
  lock_async_impl-Stepped null_pointer unlocked ws r e =
      quiet unlocked ws f a i r _ _ e refl refl (record {})
  lock_async_impl-Stepped null_pointer (locked []) ws r e =
      queued_up [] ws f a i r (ap owns e) (ap waits e)
  lock_async_impl-Stepped null_pointer (locked (x ∷ l)) ws r e =
      quiet (locked (x ∷ l)) ws f a i r _ _ e refl refl (record {})
  lock_async_impl-Stepped (awaiter k) unlocked ws r e =
      quiet unlocked ws f a i r _ _ e refl refl (record {})
  lock_async_impl-Stepped (awaiter k) (locked []) ws r e =
      quiet (locked []) ws f a i r _ _ e refl refl (record {})
  lock_async_impl-Stepped (awaiter k) (locked (x ∷ l)) ws r e = go (x == k)
    where
      go :
          (b : Bool)
          → Stepped (sys (locked (x ∷ l)) ws f) a i (
              if b
              then (record { state = locked (i ∷ x ∷ l); waiters = ws }, moves suspended)
              else (record { state = locked (x ∷ l); waiters = ws }, moves (expecting (awaiter x))))
      go true = queued_up (x ∷ l) ws f a i r (ap owns e) (ap waits e)
      go false = quiet (locked (x ∷ l)) ws f a i r _ _ e refl refl (record {})

  -- An owner does not find the mutex unlocked.
  pub owned_locked : (ws : List ℕ) → Rep (sys unlocked ws f) a → owns (f i) ≡ 1 → ⊥
  owned_locked ws r o = absurd (omega (arith, o, r.owners i ∙ ap (λ o. holds o i) r.agrees.0))

  unlock-Stepped :
      (w : Word) (ws : List ℕ)
      → Rep (sys w ws f) a
      → f i ≡ holding
      → Stepped (sys w ws f) a i (unlock (record { state = w; waiters = ws }))
  unfolding unlock unlock_load resume_head
  unlock-Stepped unlocked ws r e = absurd (owned_locked ws r (ap owns e))
  unlock-Stepped (locked []) [] r e = quiet (locked []) [] f a i r _ _ e refl refl refl
  unlock-Stepped (locked (x ∷ l)) [] r e =
      quiet (locked (x ∷ l)) [] f a i r _ _ e refl refl (refl, omega arith)
  unlock-Stepped (locked []) (j ∷ rest) r e =
      handed [] (j ∷ rest) f a i r (ap owns e) j rest [] r.agrees.1
  unlock-Stepped (locked (x ∷ l)) (j ∷ rest) r e =
      handed (x ∷ l) (j ∷ rest) f a i r (ap owns e) j rest (x ∷ l) r.agrees.1

  release_lock-Stepped :
      (w : Word) (ws : List ℕ)
      → Rep (sys w ws f) a
      → f i ≡ releasing
      → ws ≡ []
      → Stepped (sys w ws f) a i (release_lock (record { state = w; waiters = ws }))
  unfolding release_lock
  release_lock-Stepped unlocked ws r e h = absurd (owned_locked ws r (ap owns e))
  release_lock-Stepped (locked []) ws r e h =
      released [] ws f a i r (ap owns e) (r.agrees.1 ∙ ap (λ l. l ++ []) h) h
  release_lock-Stepped (locked (x ∷ l)) ws r e h =
      quiet (locked (x ∷ l)) ws f a i r _ _ e refl refl (h, omega arith)

  -- The resumption of the first of the reversed list `k`.
  resume_head-Stepped :
      (k l ws : List ℕ) (r : Rep (sys (locked l) ws f) a)
      → owns (f i) ≡ 1
      → ws ≡ []
      → 0 < length l
      → k ≡ fifo l
      → Stepped
          (sys (locked l) ws f)
          a
          i
          (resume_head k (record { state = locked []; waiters = ws }))
  unfolding resume_head
  resume_head-Stepped [] l ws r o h n e = absurd (omega (arith, n, length-fifo l, ap length e))
  resume_head-Stepped (j ∷ rest) l ws r o h n e =
      handed l ws f a i r o j rest []
        (r.agrees.1 ∙ ap (λ v. v ++ fifo l) h ∙ sym e ∙ sym (append_nil (j ∷ rest)))

  take_queued-Stepped :
      (w : Word) (ws : List ℕ)
      → Rep (sys w ws f) a
      → f i ≡ taking
      → (ws ≡ []) × (0 < length (queued w))
      → Stepped (sys w ws f) a i (take_queued (record { state = w; waiters = ws }))
  unfolding take_queued
  take_queued-Stepped unlocked ws r e h = absurd (owned_locked ws r (ap owns e))
  take_queued-Stepped (locked l) ws r e h =
      resume_head-Stepped (reverse_onto l []) l ws r (ap owns e) h.0 h.1
        (reverse_onto-fifo l [] ∙ append_nil (fifo l))

  operate-Stepped :
      (p : Phase) (w : Word) (ws : List ℕ)
      → Rep (sys w ws f) a
      → f i ≡ p
      → Stage p (record { state = w; waiters = ws })
      → Stepped (sys w ws f) a i (operate i p (record { state = w; waiters = ws }))
  unfolding operate await_ready try_lock
  operate-Stepped outside unlocked ws r e h = acquired ws f a i r
  operate-Stepped outside (locked []) ws r e h =
      quiet (locked []) ws f a i r _ _ e refl refl (record {})
  operate-Stepped outside (locked (x ∷ l)) ws r e h =
      quiet (locked (x ∷ l)) ws f a i r _ _ e refl refl (record {})
  operate-Stepped loading w ws r e h = quiet w ws f a i r _ _ e refl refl (record {})
  operate-Stepped (expecting old) w ws r e h = lock_async_impl-Stepped old w ws r e
  operate-Stepped suspended w ws r e h = quiet w ws f a i r _ _ e refl refl (record {})
  operate-Stepped resuming w ws r e h = quiet w ws f a i r _ _ e refl refl (record {})
  operate-Stepped holding w ws r e h = unlock-Stepped w ws r e
  operate-Stepped releasing w ws r e h = release_lock-Stepped w ws r e h
  operate-Stepped taking w ws r e h = take_queued-Stepped w ws r e h
  operate-Stepped failed w ws r e h = absurd h

-- In a system that stands for a lock, the next atomic operation of any coroutine is a move of the
-- lock, and the new system stands for what the move leads to.
pub turn-Rep :
    (s : System) (a : Lock) (i : ℕ) → Rep s a → (b : Lock) × Move i a b × Rep (turn s i) b
unfolding turn
turn-Rep s a i r =
    operate-Stepped s.phase a i (s.phase i) s.mutex.state s.mutex.waiters r refl (r.stages i)
