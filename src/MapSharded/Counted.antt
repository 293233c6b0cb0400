-- ===== src/MapSharded/Counted.antt =====
-- coro_apps/util/map_sharded.hpp: `size_` against the number of entries.
pub mod Racing
use async_framework.Prelude.{
  ℕ, zero, suc, ◌+◌, ◌-◌, ◌%◌, ◌^◌, ◌≤◌, ◌<◌, ◌≡◌, refl, sym, ap, ◌∙◌, Bool, true, false, Option,
  none, some, List, [], ◌∷◌, ◌++◌, if◌then◌else◌, ◌==◌, ltb, Bool-cases, inl, inr, length, get_or,
  set, length-append, arith,
}
use async_framework.Prelude.Outcome.{Outcome, returns, throws, faults}
use async_framework.Prelude.Stateful.{M}
use async_framework.MapSharded.{
  MapSharded, size, erase_if, erase_if_loop, erase_one, erase_one_loop, get_sharded,
  try_emplace_with_op, erase, fetch_add, fetch_sub, int_add, to_size_t, count_new,
}
use async_framework.MapSharded.Keys.{Key}
use async_framework.MapSharded.MapLock
use async_framework.MapSharded.MapLock.{
  Entry, Shard, entries, copies, map_find, assign, emplace_found, map_try_emplace, absent, stored,
  answered,
}
use async_framework.MapSharded.MapLock.Chain.{
  length-emplaced, length-std_erase_if, try_emplace_with_op-emplaced, erase-std,
}
use async_framework.MapSharded.Placed.{IsPlaced, view, home, home-lt, get_sharded-home, chain_at}

module _ {ℓ} {K V : Type ℓ} where
  unfoldable pub total : List (Shard K V) → ℕ
  total [] = 0
  total (s ∷ shards) = length (entries s) + total shards

  pub total-set :
      (shards : List (Shard K V)) (i : ℕ) (s : Shard K V)
      → i < length shards
      → total (set shards i s) + length (entries (get_or shards i none))
        ≡ total shards + length (entries s)
  unfolding total
  total-set [] i s h = absurd (omega arith)
  total-set (x ∷ shards) zero s h = omega arith
  total-set (x ∷ shards) (suc i) s h = omega (arith, total-set shards i s (omega arith))

  pub length-erase_if :
      (op : Entry K V → Bool) (s : Shard K V)
      → length (entries (MapLock.erase_if op s).0) + (MapLock.erase_if op s).1 ≡ length (entries s)
  unfolding MapLock.erase_if
  length-erase_if op none = refl
  length-erase_if op (some es) = length-std_erase_if op es

  abbrev pub IsCounted : MapSharded K V → Type 0
  IsCounted m = m.size_ ≡ total m.shards % 2 ^ 64

  -- When `size_` counts the entries, `size()` is their number.
  pub size-total :
      (m : MapSharded K V) → IsCounted m → total m.shards < 2 ^ 63 → size m ≡ total m.shards
  unfolding size
  size-total m h small = ground arith

  erase_if_loop-total :
      (op : Entry K V → Bool) (shards : List (Shard K V)) (size_ n : ℕ) (rest : ℕ)
      → size_ ≡ (total shards + rest) % 2 ^ 64
      → let (shards', size_', n') = erase_if_loop op shards size_ n in
        (size_' ≡ (total shards' + rest) % 2 ^ 64)
        × (n' % 2 ^ 32 ≡ (n + (total shards - total shards')) % 2 ^ 32)
        × (total shards' ≤ total shards)
  unfolding erase_if_loop total
  erase_if_loop-total op [] size_ n rest h = (h, omega arith, omega arith)
  erase_if_loop-total op (s ∷ shards) size_ n rest h =
      let l = length-erase_if op s in
      let (c, r, le) =
        erase_if_loop-total op shards (fetch_sub (MapLock.erase_if op s).1 size_)
          (int_add n (MapLock.erase_if op s).1) (rest + length (entries (MapLock.erase_if op s).0))
          (omega arith) in
      (omega (arith, c), omega (arith, r), omega arith)

  erase_if_loop-lt :
      (op : Entry K V → Bool) (shards : List (Shard K V)) (size_ n : ℕ)
      → n < 2 ^ 32
      → (erase_if_loop op shards size_ n).2 < 2 ^ 32
  unfolding erase_if_loop
  erase_if_loop-lt op [] size_ n h = h
  erase_if_loop-lt op (s ∷ shards) size_ n h = erase_if_loop-lt op shards _ _ (omega arith)

  -- `erase_if` keeps `size_` the number of the entries, and answers how many it erased, unless there
  -- are more than an `int` counts.
  pub erase_if-total :
      (op : Entry K V → Bool) (m : MapSharded K V)
      → IsCounted m
      → total m.shards < 2 ^ 31
      → let (m', erased) = erase_if op m in
        IsCounted m' × (erased + total m'.shards ≡ total m.shards)
  unfolding erase_if
  erase_if-total op m h small =
      let (c, r, le) = erase_if_loop-total op m.shards m.size_ 0 0 (omega (arith, h)) in
      let lt = erase_if_loop-lt op m.shards m.size_ 0 (omega arith) in
      (omega (arith, c), ground (arith, r, le, small, lt))

  erase_one_loop-total :
      (op : Entry K V → Bool) (shards : List (Shard K V)) (size_ rest : ℕ)
      → size_ ≡ (total shards + rest) % 2 ^ 64
      → let (shards', size_', n') = erase_one_loop op shards size_ in
        (size_' ≡ (total shards' + rest) % 2 ^ 64)
        × (n' ≡ (total shards - total shards') % 2 ^ 32)
        × (total shards' ≤ total shards)
  unfolding erase_one_loop total
  erase_one_loop-total op [] size_ rest h = (h, refl, omega arith)
  erase_one_loop-total op (s ∷ shards) size_ rest h =
      let l = length-erase_if op s in
      elim (Bool-cases ((MapLock.erase_if op s).1 == 0)) [
        | inl zeroed ↦
            let (c, r, le) =
              erase_one_loop-total op shards size_
                (rest + length (entries (MapLock.erase_if op s).0)) (ground arith) in
            rw zeroed (omega (arith, c), ground (arith, r, le, l, zeroed), ground (arith, le, l))
        | inr erased ↦ rw erased (omega (arith, h, l), omega (arith, l), omega (arith, l))
      ]

  -- `erase_one` keeps `size_` the number of the entries, and answers how many it erased.
  pub erase_one-total :
      (op : Entry K V → Bool) (m : MapSharded K V)
      → IsCounted m
      → total m.shards < 2 ^ 31
      → let (m', erased) = erase_one op m in
        IsCounted m' × (erased + total m'.shards ≡ total m.shards)
  unfolding erase_one
  erase_one-total op m h small =
      let (c, r, le) = erase_one_loop-total op m.shards m.size_ 0 (omega (arith, h)) in
      (omega (arith, c), ground (arith, r, le, small))

count_new-answered {ℓ} :
    {V : Type ℓ} (new : Bool) (r : Option V × Outcome (Unit {0})) (n : ℕ)
    → r.1 ≡ returns tt
    → count_new (answered new r) n ≡ (if new then fetch_add 1 n else n)
count_new-answered true (p, done) n h = rw h refl
count_new-answered false (p, done) n h = rw h refl

pub total-copies {ℓ} : (K V : Type ℓ) (n : ℕ) → total (copies {K = K} {V = V} n) ≡ 0
unfolding total
total-copies K V zero = refl
total-copies K V (suc n) = omega (arith, total-copies K V n)

module _ {ℓ} {K V : Type ℓ} ⦃key : Key K⦄ where
  pub erase-total :
      (k : K) (m : MapSharded K V) → IsPlaced m.shards → IsCounted m → IsCounted (erase k m).0
  unfolding erase
  erase-total k m placed h =
      let i = home k m.shards in
      let s = get_or m.shards i none in
      let step = total-set m.shards i (MapLock.erase k s).0 (home-lt k placed) in
      rw (erase, get_sharded-home k m placed.nonempty)
        (ground
          (arith, step, h, erase-std k s, length-std_erase_if (λ e. key.equal k e.0) (entries s)))

  pub emplace-total :
      (k : K) (op : Bool → M (Option V) (Unit {0})) (v : Option V) (m : MapSharded K V)
      → IsPlaced m.shards
      → IsCounted m
      → let old = view m.shards k in
        (op (absent old) (stored v old)).1 ≡ returns tt → IsCounted (try_emplace_with_op k op v m).0
  unfolding try_emplace_with_op view
  emplace-total k op v m placed h quiet =
      let i = home k m.shards in
      let s = get_or m.shards i none in
      let old = view m.shards k in
      let p = (op (absent old) (stored v old)).0 in
      rw
        (
          try_emplace_with_op,
          get_sharded-home k m placed.nonempty,
          try_emplace_with_op-emplaced k op v s,
        )
        (rw (count_new-answered (absent old) (op (absent old) (stored v old)) m.size_ quiet) (
          ground (
            arith,
            h,
            length-emplaced k v (entries s) p,
            total-set m.shards i (some (assign k p (map_try_emplace k v (entries s)).0))
                (home-lt k placed),
          )))
