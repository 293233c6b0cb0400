-- ===== src/MapSharded/Counted/Racing.antt =====
-- coro_apps/util/map_sharded.hpp: several threads. The critical section of a shard and the atomic
-- addition to `size_` that follows it are two steps, between which other threads run.
use async_framework.Prelude.{
  ℕ, zero, suc, ◌+◌, ◌-◌, ◌%◌, ◌^◌, ◌<◌, ◌≡◌, refl, ◌⊎◌, Bool, true, false, Option, none, List, [],
  ◌∷◌, ◌++◌, if◌then◌else◌, ◌==◌, ltb, Bool-cases, inl, inr, length, get_or, set, arith,
}
use async_framework.Prelude.Outcome.{Outcome, returns, throws, faults}
use async_framework.Prelude.Stateful.{M}
use async_framework.MapSharded.{MapSharded, map_sharded, size, get_sharded, fetch_add, fetch_sub}
use async_framework.MapSharded.Keys.{Key}
use async_framework.MapSharded.MapLock
use async_framework.MapSharded.MapLock.{Entry, Shard, entries, map_find, stored, absent, answered}
use async_framework.MapSharded.MapLock.Chain.{
  erase-std, length-std_erase_if, length-emplaced, try_emplace_with_op-emplaced,
}
use async_framework.MapSharded.Counted.{total, total-set, total-copies, size-total, length-erase_if}

-- An addition to `size_` that a thread has still to make.
pub data Owed : Type 0 where
  adding : ℕ → Owed
  subtracting : ℕ → Owed

-- The critical section of `try_emplace_with_op` with a callback that returns, of `erase` and of a round
-- of `erase_if`, and the addition at a place of the list of those owed. `try_emplace` is the first with a
-- callback that leaves the pointer as it is.
pub data Turn {ℓ} (K V : Type ℓ) : Type ℓ where
  emplacing : K → (Bool → Option V → Option V) → Option V → Turn K V
  erasing : K → Turn K V
  erasing_if : ℕ → (Entry K V → Bool) → Turn K V
  settling : ℕ → Turn K V

pub record Race {ℓ} (K V : Type ℓ) : Type ℓ where
  pub map : MapSharded K V
  pub owed : List Owed

abbrev pub owed_new {ℓ} : {V : Type ℓ} → Outcome (Option V × Bool) → List Owed
owed_new (returns (p, true)) = adding 1 ∷ []
owed_new _ = []

-- A callback that returns, from what it makes of the pointer.
abbrev pub returning {ℓ} :
    {V : Type ℓ} → (Bool → Option V → Option V) → Bool → M (Option V) (Unit {0})
returning op inserted p = (op inserted p, returns tt)

abbrev pub remove : ℕ → List Owed → List Owed
remove i [] = []
remove zero (o ∷ owed) = owed
remove (suc i) (o ∷ owed) = o ∷ remove i owed

abbrev pub settle : Owed → ℕ → ℕ
settle (adding n) size_ = fetch_add n size_
settle (subtracting n) size_ = fetch_sub n size_

abbrev pub settle_at : ℕ → List Owed → ℕ → ℕ
settle_at i [] size_ = size_
settle_at zero (o ∷ owed) size_ = settle o size_
settle_at (suc i) (o ∷ owed) size_ = settle_at i owed size_

unfoldable pub added : List Owed → ℕ
added [] = 0
added (adding n ∷ owed) = n + added owed
added (subtracting n ∷ owed) = added owed

unfoldable pub subtracted : List Owed → ℕ
subtracted [] = 0
subtracted (adding n ∷ owed) = subtracted owed
subtracted (subtracting n ∷ owed) = n + subtracted owed

settle_at-owed :
    (i : ℕ) (owed : List Owed) (size_ t : ℕ)
    → (size_ + added owed) % 2 ^ 64 ≡ (t + subtracted owed) % 2 ^ 64
    → (settle_at i owed size_ + added (remove i owed)) % 2 ^ 64
      ≡ (t + subtracted (remove i owed)) % 2 ^ 64
unfolding added subtracted
settle_at-owed i [] size_ t h = h
settle_at-owed zero (adding n ∷ owed) size_ t h = omega (arith, h)
settle_at-owed zero (subtracting n ∷ owed) size_ t h = omega (arith, h)
settle_at-owed (suc i) (adding n ∷ owed) size_ t h =
    omega (arith, settle_at-owed i owed size_ (t + (2 ^ 64 - n % 2 ^ 64)) (omega (arith, h)))
settle_at-owed (suc i) (subtracting n ∷ owed) size_ t h =
    omega (arith, settle_at-owed i owed size_ (t + n) (omega (arith, h)))

settle_at-word :
    (i : ℕ) (owed : List Owed) (size_ : ℕ) → size_ < 2 ^ 64 → settle_at i owed size_ < 2 ^ 64
settle_at-word i [] size_ h = h
settle_at-word zero (adding n ∷ owed) size_ h = omega arith
settle_at-word zero (subtracting n ∷ owed) size_ h = omega arith
settle_at-word (suc i) (o ∷ owed) size_ h = settle_at-word i owed size_ h

added-append : (o p : List Owed) → added (o ++ p) ≡ added o + added p
unfolding added
added-append [] p = omega arith
added-append (adding n ∷ o) p = omega (arith, added-append o p)
added-append (subtracting n ∷ o) p = added-append o p

subtracted-append : (o p : List Owed) → subtracted (o ++ p) ≡ subtracted o + subtracted p
unfolding subtracted
subtracted-append [] p = omega arith
subtracted-append (adding n ∷ o) p = subtracted-append o p
subtracted-append (subtracting n ∷ o) p = omega (arith, subtracted-append o p)

module _ {ℓ} {K V : Type ℓ} ⦃key : Key K⦄ where
  -- The shard at an index is replaced, and its change of the size owed.
  abbrev pub section : ℕ → Shard K V → List Owed → Race K V → Race K V
  section i shard more r = record {
    map = record { shards = set r.map.shards i shard; size_ = r.map.size_ };
    owed = more ++ r.owed;
  }

  unfoldable pub turn : Turn K V → Race K V → Race K V
  unfolding get_sharded
  turn (emplacing k op v) r = elim (get_sharded k r.map) [
    | returns i ↦
        let (shard, ret) =
          MapLock.try_emplace_with_op k (returning op) v (get_or r.map.shards i none) in
        section i shard (owed_new ret) r
    | throws e ↦ r
    | faults ↦ r
  ]
  turn (erasing k) r = elim (get_sharded k r.map) [
    | returns i ↦
        let (shard, result) = MapLock.erase k (get_or r.map.shards i none) in
        section i shard (if result == 0 then [] else subtracting result ∷ []) r
    | throws e ↦ r
    | faults ↦ r
  ]
  turn (erasing_if i op) r =
      let (shard, result) = MapLock.erase_if op (get_or r.map.shards i none) in
      if ltb i (length r.map.shards) then section i shard (subtracting result ∷ []) r else r
  turn (settling i) r = record {
    map = record { shards = r.map.shards; size_ = settle_at i r.owed r.map.size_ };
    owed = remove i r.owed;
  }

  unfoldable pub turns_run : List (Turn K V) → Race K V → Race K V
  unfolding turn
  turns_run [] r = r
  turns_run (t ∷ turns) r = turns_run turns (turn t r)

  -- `size_` and what is owed to it make the number of entries, as far as 64 bits hold it.
  abbrev pub IsOwed : Race K V → Type 0
  IsOwed r =
      (r.map.size_ + added r.owed) % 2 ^ 64 ≡ (total r.map.shards + subtracted r.owed) % 2 ^ 64

  section-IsOwed :
      (i : ℕ) (shard : Shard K V) (more : List Owed) (r : Race K V)
      → i < length r.map.shards
      → length (entries (get_or r.map.shards i none)) + added more
        ≡ length (entries shard) + subtracted more
      → IsOwed r
      → IsOwed (section i shard more r)
  section-IsOwed i shard more r lt change h = omega (
    arith,
    total-set r.map.shards i shard lt,
    added-append more r.owed,
    subtracted-append more r.owed,
    h,
  )

  emplacing-owed :
      (k : K) (op : Bool → Option V → Option V) (v : Option V) (s : Shard K V)
      → let (s', ret) = MapLock.try_emplace_with_op k (returning op) v s in
        length (entries s) + added (owed_new ret) ≡ length (entries s') + subtracted (owed_new ret)
  unfolding added subtracted
  emplacing-owed k op v s =
      let old = map_find k (entries s) in
      let p = op (absent old) (stored v old) in
      rw (try_emplace_with_op-emplaced k (returning op) v s) (
        rw (length-emplaced k v (entries s) p)
          (elim (absent old)
            as (λ b.
              let ret = answered b (p, returns tt) in
              length (entries s) + added (owed_new ret)
              ≡ length (entries s) + (if b then 1 else 0) + subtracted (owed_new ret)) [
                | true ↦ omega arith
                | false ↦ omega arith
              ]))

  erasing-owed :
      (k : K) (s : Shard K V)
      → let (s', n) = MapLock.erase k s in
        let more = if n == 0 then [] else subtracting n ∷ [] in
        length (entries s) + added more ≡ length (entries s') + subtracted more
  unfolding added subtracted
  erasing-owed k s =
      ground (arith, erase-std k s, length-std_erase_if (λ e. key.equal k e.0) (entries s))

  erasing_if-owed :
      (op : Entry K V → Bool) (s : Shard K V)
      → let (s', n) = MapLock.erase_if op s in
        length (entries s) + added (subtracting n ∷ [])
        ≡ length (entries s') + subtracted (subtracting n ∷ [])
  unfolding added subtracted
  erasing_if-owed op s = omega (arith, length-erase_if op s)

  get_sharded-cases :
      (k : K) (m : MapSharded K V)
      → (get_sharded k m ≡ faults)
        ⊎ ((i : ℕ) × (get_sharded k m ≡ returns i) × (i < length m.shards))
  unfolding get_sharded
  get_sharded-cases k m = go m.shards
    where
      go :
          (shards : List (Shard K V))
          → let m' : MapSharded K V = record { shards = shards; size_ = m.size_ } in
            (get_sharded k m' ≡ faults)
            ⊎ ((i : ℕ) × (get_sharded k m' ≡ returns i) × (i < length shards))
      go [] = inl refl
      go (s ∷ shards) = inr (key.hash k % suc (length shards), refl, omega arith)

  turn-IsOwed : (t : Turn K V) (r : Race K V) → IsOwed r → IsOwed (turn t r)
  unfolding turn
  turn-IsOwed (emplacing k op v) r h = elim (get_sharded-cases k r.map) [
    | inl e ↦ rw (turn, e) h
    | inr (i, e, lt) ↦
        rw (turn, e)
          (section-IsOwed i _ _ r lt (emplacing-owed k op v (get_or r.map.shards i none)) h)
  ]
  turn-IsOwed (erasing k) r h = elim (get_sharded-cases k r.map) [
    | inl e ↦ rw (turn, e) h
    | inr (i, e, lt) ↦
        rw (turn, e) (section-IsOwed i _ _ r lt (erasing-owed k (get_or r.map.shards i none)) h)
  ]
  turn-IsOwed (erasing_if i op) r h = elim (Bool-cases (ltb i (length r.map.shards))) [
    | inl within ↦
        rw (turn, within)
          (section-IsOwed i _ _ r (ground arith) (erasing_if-owed op (get_or r.map.shards i none))
            h)
    | inr beyond ↦ rw (turn, beyond) h
  ]
  turn-IsOwed (settling i) r h = settle_at-owed i r.owed r.map.size_ (total r.map.shards) h

  turns_run-IsOwed :
      (turns : List (Turn K V)) (r : Race K V) → IsOwed r → IsOwed (turns_run turns r)
  unfolding turns_run
  turns_run-IsOwed [] r h = h
  turns_run-IsOwed (t ∷ turns) r h = turns_run-IsOwed turns (turn t r) (turn-IsOwed t r h)

  turn-word : (t : Turn K V) (r : Race K V) → r.map.size_ < 2 ^ 64 → (turn t r).map.size_ < 2 ^ 64
  unfolding turn
  turn-word (emplacing k op v) r h = elim (get_sharded-cases k r.map) [
    | inl e ↦ rw (turn, e) h
    | inr (i, e, lt) ↦ rw (turn, e) h
  ]
  turn-word (erasing k) r h = elim (get_sharded-cases k r.map) [
    | inl e ↦ rw (turn, e) h
    | inr (i, e, lt) ↦ rw (turn, e) h
  ]
  turn-word (erasing_if i op) r h = elim (Bool-cases (ltb i (length r.map.shards))) [
    | inl within ↦ rw (turn, within) h
    | inr beyond ↦ rw (turn, beyond) h
  ]
  turn-word (settling i) r h = settle_at-word i r.owed r.map.size_ h

  turns_run-word :
      (turns : List (Turn K V)) (r : Race K V)
      → r.map.size_ < 2 ^ 64
      → (turns_run turns r).map.size_ < 2 ^ 64
  unfolding turns_run
  turns_run-word [] r h = h
  turns_run-word (t ∷ turns) r h = turns_run-word turns (turn t r) (turn-word t r h)

  abbrev pub started : ℕ → Race K V
  started shard_num = record { map = map_sharded shard_num; owed = [] }

  -- Threads take turns in any order on a new map, between a critical section and the addition to
  -- `size_` too, with callbacks of `try_emplace_with_op` that return. Whenever no addition is owed, `size()` is the number of the entries, if there are
  -- fewer than 2 ^ 63.
  pub turns_run-size :
      (shard_num : ℕ) (turns : List (Turn K V))
      → let r = turns_run turns (started shard_num) in
        r.owed ≡ [] → total r.map.shards < 2 ^ 63 → size r.map ≡ total r.map.shards
  unfolding map_sharded added subtracted
  turns_run-size n turns idle small =
      let r = turns_run turns (started n) in
      let h = turns_run-IsOwed turns (started n) (rw (total-copies K V n) refl) in
      let w = turns_run-word turns (started n) (omega arith) in
      size-total r.map (omega (arith, w, rw idle at h)) small
