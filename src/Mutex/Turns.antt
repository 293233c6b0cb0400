-- ===== src/Mutex/Turns.antt =====
-- What a turn of coro/Mutex.h can do to the lock with one owner and a queue.
use async_framework.Prelude.{
  ℕ, ◌+◌, ◌≡◌, ◌≢◌, refl, sym, ap, ◌∙◌, arith, none, some, List, [], ◌∷◌, ◌++◌, ◌==◌, if◌then◌else◌,
}
use async_framework.Mutex.{
  Word, unlocked, locked, Mutex, Phase, outside, holding, suspended, System, applied, Next, moves,
  resumes,
}
use async_framework.Mutex.Spec.{
  Lock, Move, stay, acquire, enqueue, hand_over, release, owns, waits, holds, count, fifo, Stage,
  Rep,
}
use async_framework.Mutex.Phases.{
  count-append, append_assoc, Stage-other, Stage-grown, owns-waits, holds-other, holds-some,
  set_all, set_two,
}

abbrev pub sys : Word → List ℕ → (ℕ → Phase) → System
sys w ws f = record { mutex = record { state = w; waiters = ws }; phase = f }

-- A turn of coroutine `i` is a move to a lock that the new system stands for.
abbrev pub Stepped : System → Lock → ℕ → Mutex × Next → Type 0
Stepped s a i x = (b : Lock) × Move i a b × Rep (applied s i x) b

module _ (w : Word) (ws : List ℕ) (f : ℕ → Phase) (a : Lock) (i : ℕ) (r : Rep (sys w ws f) a) where
  pub quiet :
      (p q : Phase)
      → f i ≡ p
      → owns q ≡ owns p
      → waits q ≡ waits p
      → Stage q (record { state = w; waiters = ws })
      → Stepped (sys w ws f) a i (record { state = w; waiters = ws }, moves q)
  quiet p q e o t h = (
    a,
    stay refl refl,
    record {
      agrees = r.agrees;
      owners =
          set_all (λ j p. owns p ≡ holds a.owner j) f i q (o ∙ sym (ap owns e) ∙ r.owners i)
            (λ j n. r.owners j);
      waiting =
          set_all (λ j p. waits p ≡ count j a.queue) f i q (t ∙ sym (ap waits e) ∙ r.waiting i)
            (λ j n. r.waiting j);
      stages =
          set_all (λ j p. Stage p (record { state = w; waiters = ws })) f i q h (λ j n. r.stages j);
    },
  )

module _ (ws : List ℕ) (f : ℕ → Phase) (a : Lock) (i : ℕ) (r : Rep (sys unlocked ws f) a) where
  unowned : (j : ℕ) → owns (f j) ≡ 0
  unowned j = r.owners j ∙ ap (λ o. holds o j) r.agrees.0

  unqueued : (j : ℕ) → waits (f j) ≡ 0
  unqueued j = r.waiting j ∙ ap (count j) r.agrees.1

  -- The exchange of `this` for nullptr.
  pub acquired :
      Stepped (sys unlocked ws f) a i (record { state = locked []; waiters = ws }, moves holding)
  acquired = (
    record { owner = some i; queue = [] },
    acquire r.agrees.0 r.agrees.1 refl refl,
    record {
      agrees = ((i, refl), sym (ap (λ l. l ++ []) r.agrees.2));
      owners =
          set_all (λ j p. owns p ≡ holds (some i) j) f i holding (ground arith)
            (λ j n. ground (arith, unowned j, n));
      waiting = set_all (λ j p. waits p ≡ 0) f i holding refl (λ j n. unqueued j);
      stages =
          set_all (λ j p. Stage p (record { state = locked []; waiters = ws })) f i holding
            (record {}) (λ j n. Stage-other (f j) _ _ (unowned j) (r.stages j));
    },
  )

module _ (l ws : List ℕ) (f : ℕ → Phase) (a : Lock) (i : ℕ) (r : Rep (sys (locked l) ws f) a) where
  -- A new awaiter at the head of the state.
  pub queued_up :
      owns (f i) ≡ 0
      → waits (f i) ≡ 0
      → Stepped
          (sys (locked l) ws f)
          a
          i
          (record { state = locked (i ∷ l); waiters = ws }, moves suspended)
  queued_up o t = (
    record { owner = a.owner; queue = a.queue ++ i ∷ [] },
    enqueue r.agrees.0.0 r.agrees.0.1 r.agrees.0.1 refl,
    record {
      agrees = (r.agrees.0, ap (λ q. q ++ i ∷ []) r.agrees.1 ∙ append_assoc ws (fifo l) (i ∷ []));
      owners =
          set_all (λ j p. owns p ≡ holds a.owner j) f i suspended (sym o ∙ r.owners i)
            (λ j n. r.owners j);
      waiting =
          set_all (λ j p. waits p ≡ count j (a.queue ++ i ∷ [])) f i suspended
            (ground (arith, count-append i a.queue (i ∷ []), r.waiting i, t))
            (λ j n. ground (arith, count-append j a.queue (i ∷ []), r.waiting j, n));
      stages =
          set_all (λ j p. Stage p (record { state = locked (i ∷ l); waiters = ws })) f i suspended
            (record {}) (λ j n. Stage-grown (f j) l i ws (r.stages j));
    },
  )

  module _ (o : owns (f i) ≡ 1) where
    others : (j : ℕ) → j ≢ i → owns (f j) ≡ 0
    others j n = r.owners j ∙ holds-other a.owner i j (sym (r.owners i) ∙ o) n

    owner_here : a.owner ≡ some i
    owner_here = holds-some a.owner i (sym (r.owners i) ∙ o)

    -- The exchange of nullptr for `this`.
    pub released :
        a.queue ≡ []
        → ws ≡ []
        → Stepped
            (sys (locked l) ws f)
            a
            i
            (record { state = unlocked; waiters = ws }, moves outside)
    released e ew = (
      record { owner = none; queue = [] },
      release owner_here e refl refl,
      record {
        agrees = (refl, refl, ew);
        owners = set_all (λ j p. owns p ≡ 0) f i outside refl others;
        waiting =
            set_all (λ j p. waits p ≡ 0) f i outside refl (λ j n. r.waiting j ∙ ap (count j) e);
        stages =
            set_all (λ j p. Stage p (record { state = unlocked; waiters = ws })) f i outside
              (record {}) (λ j n. Stage-other (f j) _ _ (others j n) (r.stages j));
      },
    )

    -- The resumption of the first awaiter.
    pub handed :
        (j : ℕ) (rest l' : List ℕ)
        → a.queue ≡ j ∷ (rest ++ fifo l')
        → Stepped
            (sys (locked l) ws f)
            a
            i
            (record { state = locked l'; waiters = rest }, resumes j)
    handed j rest l' e =
        let counted : (k : ℕ)
            → waits (f k) ≡ (if k == j then 1 else 0) + count k (rest ++ fifo l') =
          λ k. r.waiting k ∙ ap (count k) e in
        (
          record { owner = some j; queue = rest ++ fifo l' },
          hand_over j owner_here refl e,
          record {
            agrees = ((j, refl), refl);
            owners =
                set_two (λ k p. owns p ≡ holds (some j) k) f i j (ground arith)
                  (λ n. ground (arith, n)) (λ k n m. ground (arith, others k n, m));
            waiting =
                set_two (λ k p. waits p ≡ count k (rest ++ fifo l')) f i j
                  (ground (arith, counted j, owns-waits (f j)))
                  (λ n. ground (arith, counted i, owns-waits (f i), o, n))
                  (λ k n m. ground (arith, counted k, m));
            stages =
                set_two (λ k p. Stage p (record { state = locked l'; waiters = rest })) f i j
                  (record {}) (λ n. record {})
                  (λ k n m. Stage-other (f k) _ _ (others k n) (r.stages k));
          },
        )
