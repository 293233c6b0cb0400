-- ===== src/MapSharded/Placed.antt =====
-- coro_apps/util/map_sharded.hpp: the map that the shards stand for, and what each operation does to
-- it.
use async_framework.Prelude.{
  ℕ, zero, suc, ◌%◌, ◌≤◌, ◌<◌, ◌≡◌, ◌≢◌, refl, ap, inl, inr, Bool, true, false, Option, none, some,
  List, [], ◌∷◌, if◌then◌else◌, ◌==◌, ==_iff, length, get_or, set, length-set, get_or-set,
  Bool-cases, arith,
}
use async_framework.Prelude.Outcome.{returns}
use async_framework.Prelude.Stateful.{M}
use async_framework.MapSharded.{MapSharded, get_sharded, find, try_emplace_with_op, erase}
use async_framework.MapSharded.Keys.{Key}
use async_framework.MapSharded.MapLock
use async_framework.MapSharded.MapLock.{
  Entry, Shard, entries, copies, map_find, assign, std_erase_if, map_try_emplace, visit_map, stored,
  absent, answered,
}
use async_framework.MapSharded.MapLock.Chain.{
  count, try_emplace_with_op-emplaced, find-emplaced, count-emplaced, erase-count, count-erase_le,
  find-erase, found-count,
}

length-copies {ℓ} : (K V : Type ℓ) (n : ℕ) → length (copies {K = K} {V = V} n) ≡ n
length-copies K V zero = refl
length-copies K V (suc n) = ap suc (length-copies K V n)

module _ {ℓ} {K V : Type ℓ} ⦃key : Key K⦄ where
  -- The shard of a key.
  abbrev pub home : K → List (Shard K V) → ℕ
  home k shards = key.hash k % length shards

  abbrev pub chain_at : List (Shard K V) → ℕ → List (Entry K V)
  chain_at shards i = entries (get_or shards i none)

  -- The map as a function: `none` where a key is not in it.
  unfoldable pub view : List (Shard K V) → K → Option (Option V)
  view shards q = map_find q (chain_at shards (home q shards))

  -- There is a shard, a key stands at most once in one, and only in its own.
  pub record IsPlaced (shards : List (Shard K V)) : Type ℓ where
    pub nonempty : 0 < length shards
    pub once : (q : K) (i : ℕ) → count q (chain_at shards i) ≤ 1
    pub apart : (q : K) (i : ℕ) → home q shards ≢ i → count q (chain_at shards i) ≡ 0

  entries-copies : (n i : ℕ) → entries (get_or (copies {K = K} {V = V} n) i none) ≡ []
  entries-copies zero i = refl
  entries-copies (suc n) zero = refl
  entries-copies (suc n) (suc i) = entries-copies n i

  pub home-lt :
      (q : K) {shards : List (Shard K V)} → IsPlaced shards → home q shards < length shards
  home-lt q {shards} placed = omega (arith, placed.nonempty)

  pub get_sharded-home :
      (k : K) (m : MapSharded K V)
      → 0 < length m.shards
      → get_sharded k m ≡ returns (home k m.shards)
  unfolding get_sharded
  get_sharded-home k m h = go m.shards h
    where
      go :
          (shards : List (Shard K V))
          → 0 < length shards
          → get_sharded k (record { shards = shards; size_ = m.size_ }) ≡ returns (home k shards)
      go [] h = absurd (omega arith)
      go (s ∷ rest) h = refl

  home_congr :
      (q k : K) (shards : List (Shard K V)) → key.equal q k ≡ true → home q shards ≡ home k shards
  home_congr q k shards e = ap (λ x. home x shards) ((key.equal_iff q k).0 e)

  chain_at-set :
      (shards : List (Shard K V)) (i j : ℕ) (s : Shard K V)
      → i < length shards
      → chain_at (set shards i s) j ≡ (if i == j then entries s else chain_at shards j)
  chain_at-set shards i j s h =
      rw (get_or-set shards i j s none h)
        (elim (i == j)
          as (λ b.
            entries (if b then s else get_or shards j none)
            ≡ (if b then entries s else chain_at shards j)) [ true ↦ refl | false ↦ refl ])

  -- The home shard of `k` is replaced.
  pub record Writes (k : K) (v : Option (Option V)) (shards shards' : List (Shard K V))
      : Type ℓ where
    pub placed : IsPlaced shards'
    pub width : length shards' ≡ length shards
    pub reads : (q : K) → view shards' q ≡ (if key.equal q k then v else view shards q)

  set-Writes :
      (k : K) (v : Option (Option V)) (shards : List (Shard K V)) (s : Shard K V)
      → IsPlaced shards
      → ((q : K)
          → count q (entries s)
            ≤ (if key.equal q k then 1 else count q (chain_at shards (home k shards))))
      → ((q : K)
          → map_find q (entries s)
            ≡ (if key.equal q k then v else map_find q (chain_at shards (home k shards))))
      → Writes k v shards (set shards (home k shards) s)
  unfolding view
  set-Writes k v shards s placed few found = record {
    placed = record {
      nonempty = rw width placed.nonempty;
      once =
          λ q i. rw (at i) (ground (arith, few q, placed.once q i, placed.once q (home k shards)));
      apart = λ q i h. rw (at i) (
          ground (
            arith,
            few q,
            placed.apart q i (elsewhere q i h),
            placed.apart q (home k shards),
            home_congr q k shards,
            elsewhere q i h,
          ));
    };
    width = width;
    reads = λ q.
        rw (width, at)
          (elim (Bool-cases (home k shards == home q shards)) [
            | inl same ↦ rw same (rw ((==_iff (home k shards) (home q shards)).0 same) at (found q))
            | inr other ↦ rw (other, apart_keys q other)
          ]);
  }
    where
      width : length (set shards (home k shards) s) ≡ length shards
      width = length-set shards (home k shards) s

      at :
          (i : ℕ)
          → chain_at (set shards (home k shards) s) i
            ≡ (if home k shards == i then entries s else chain_at shards i)
      at i = chain_at-set shards (home k shards) i s (home-lt k placed)

      elsewhere : (q : K) (i : ℕ) → home q (set shards (home k shards) s) ≢ i → home q shards ≢ i
      elsewhere q i h e = h (rw width e)

      apart_keys : (q : K) → (home k shards == home q shards) ≡ false → key.equal q k ≡ false
      apart_keys q h = elim (Bool-cases (key.equal q k)) [
        | inl e ↦ absurd (ground (arith, h, home_congr q k shards e))
        | inr ne ↦ ne
      ]

  module _ (k : K) (m : MapSharded K V) (placed : IsPlaced m.shards) where
    abbrev at_home : List (Entry K V)
    at_home = chain_at m.shards (home k m.shards)

    -- `find` gives the pointer that stands for the key in the map, and null if there is none.
    pub find-view : find k m ≡ returns (stored none (view m.shards k))
    unfolding find view MapLock.find
    find-view =
        rw (find, get_sharded-home k m placed.nonempty)
          (elim (get_or m.shards (home k m.shards) none)
            as (λ s. returns (MapLock.find k s) ≡ returns (stored none (map_find k (entries s)))) [
              | none ↦ refl
              | some es ↦ refl
            ])

    -- After `try_emplace_with_op`, also when `op` throws, the key stands for what `op` made of the
    -- pointer stored before, or of `v` if there was none, and every other key for what it did; the
    -- answer is that pointer, and whether the key is new, or the exception.
    pub emplace-Writes :
        (op : Bool → M (Option V) (Unit {0})) (v : Option V)
        → let old = view m.shards k in
          let r = op (absent old) (stored v old) in
          let (m', ret) = try_emplace_with_op k op v m in
          Writes k (some r.0) m.shards m'.shards × (ret ≡ answered (absent old) r)
    unfolding try_emplace_with_op view
    emplace-Writes op v =
        rw
          (
            try_emplace_with_op,
            get_sharded-home k m placed.nonempty,
            try_emplace_with_op-emplaced k op v (get_or m.shards (home k m.shards) none),
          )
          (
            set-Writes k _ m.shards (some _) placed
                (λ q. count-emplaced k v at_home q _ (placed.once q (home k m.shards)))
                (λ q. find-emplaced k v at_home q _),
            refl,
          )

    -- After `erase`, the key is not in the map and every other key stands for what it did; the
    -- answer is 1 or 0, whether the key was in it.
    pub erase-Writes :
        let (m', ret) = erase k m in
        Writes k none m.shards m'.shards
        × (ret ≡ returns (if absent (view m.shards k) then 0 else 1))
    unfolding erase view
    erase-Writes =
        let shard = get_or m.shards (home k m.shards) none in
        rw (erase, get_sharded-home k m placed.nonempty, erase-count k shard)
          (
            set-Writes k none m.shards _ placed
                (λ q. ground (arith, count-erase_le k shard q, placed.once q (home k m.shards)))
                (λ q. find-erase k shard q (placed.once q (home k m.shards))),
            ap returns (found-count k at_home (placed.once k (home k m.shards))),
          )
