-- ===== src/MapSharded/MapLock/Chain.antt =====
-- coro_apps/util/map_sharded.hpp: what the calls of the standard map do to the entries of a shard.
use async_framework.Prelude.{
  ℕ, ◌+◌, ◌≤◌, ◌≡◌, refl, ◌∙◌, Bool, Option, none, some, List, [], ◌∷◌, ◌++◌, if◌then◌else◌, length,
  length-append, arith,
}
use async_framework.Prelude.Stateful.{M}
use async_framework.MapSharded.Keys.{Key, equal_self}
use async_framework.MapSharded.MapLock
use async_framework.MapSharded.MapLock.{
  Shard, entries, Entry, std_erase_if, map_find, assign, emplace_found, map_try_emplace, stored,
  absent, answered, apply_op,
}

module _ {ℓ} {K V : Type ℓ} where
  pub length-std_erase_if :
      (op : Entry K V → Bool) (es : List (Entry K V))
      → length (std_erase_if op es).0 + (std_erase_if op es).1 ≡ length es
  length-std_erase_if op [] = refl
  length-std_erase_if op (e ∷ es) = ground (arith, length-std_erase_if op es)

module _ {ℓ} {K V : Type ℓ} ⦃key : Key K⦄ where
  abbrev pub count : K → List (Entry K V) → ℕ
  count q [] = 0
  count q (e ∷ es) = (if key.equal q e.0 then 1 else 0) + count q es

  -- What is left of what a key stands for.
  abbrev pub spare : (Entry K V → Bool) → K → Option (Option V) → Option (Option V)
  spare op q none = none
  spare op q (some p) = if op (q, p) then none else some p

  find_none-count : (q : K) (es : List (Entry K V)) → map_find q es ≡ none → count q es ≡ 0
  find_none-count q [] h = refl
  find_none-count q (e ∷ es) h = ground (arith, find_none-count q es)

  count_zero-find : (q : K) (es : List (Entry K V)) → count q es ≡ 0 → map_find q es ≡ none
  count_zero-find q [] h = refl
  count_zero-find q (e ∷ es) h = ground (arith, count_zero-find q es)

  pub count-append :
      (q : K) (es fs : List (Entry K V)) → count q (es ++ fs) ≡ count q es + count q fs
  count-append q [] fs = omega arith
  count-append q (e ∷ es) fs = omega (arith, count-append q es fs)

  pub count-std_erase_if_le :
      (op : Entry K V → Bool) (q : K) (es : List (Entry K V))
      → count q (std_erase_if op es).0 ≤ count q es
  count-std_erase_if_le op q [] = omega arith
  count-std_erase_if_le op q (e ∷ es) = ground (arith, count-std_erase_if_le op q es)

  pub find-std_erase_if :
      (op : Entry K V → Bool) (q : K) (es : List (Entry K V))
      → count q es ≤ 1
      → map_find q (std_erase_if op es).0 ≡ spare op q (map_find q es)
  find-std_erase_if op q [] h = refl
  find-std_erase_if op q ((k, p) ∷ es) h = ground (
    arith,
    find-std_erase_if op q es,
    count_zero-find q (std_erase_if op es).0,
    count-std_erase_if_le op q es,
    key.equal_iff q k,
  )

  erased-count :
      (k : K) (es : List (Entry K V)) → (std_erase_if (λ e. key.equal k e.0) es).1 ≡ count k es
  erased-count k [] = refl
  erased-count k (e ∷ es) = ground (arith, erased-count k es)

  count-assign :
      (k q : K) (p : Option V) (es : List (Entry K V)) → count q (assign k p es) ≡ count q es
  count-assign k q p [] = refl
  count-assign k q p (e ∷ es) = ground (arith, count-assign k q p es)

  length-assign :
      (k : K) (p : Option V) (es : List (Entry K V)) → length (assign k p es) ≡ length es
  length-assign k p [] = refl
  length-assign k p (e ∷ es) = ground (arith, length-assign k p es)

  find-assign :
      (k q : K) (p old : Option V) (es : List (Entry K V))
      → map_find k es ≡ some old
      → map_find q (assign k p es) ≡ (if key.equal q k then some p else map_find q es)
  find-assign k q p old [] h = cc
  find-assign k q p old ((x, y) ∷ es) h = ground (
    arith,
    find-assign k q p old es,
    key.equal_iff k x,
    key.equal_iff q x,
    key.equal_iff q k,
    equal_self k,
    equal_self q,
  )

  find-append_entry :
      (k q : K) (p : Option V) (es : List (Entry K V))
      → map_find k es ≡ none
      → map_find q (es ++ (k, p) ∷ []) ≡ (if key.equal q k then some p else map_find q es)
  find-append_entry k q p [] h = refl
  find-append_entry k q p ((x, y) ∷ es) h = ground (
    arith,
    find-append_entry k q p es,
    key.equal_iff k x,
    key.equal_iff q x,
    key.equal_iff q k,
    equal_self k,
  )

  -- The map's `try_emplace`, and the write of `p` through the iterator.
  module _ (k : K) (v : Option V) (es : List (Entry K V)) where
    apply_op-emplaced :
        (op : Bool → M (Option V) (Unit {0}))
        → let old = map_find k es in
          let r = op (absent old) (stored v old) in
          apply_op k op (map_try_emplace k v es)
          ≡ (some (assign k r.0 (map_try_emplace k v es).0), answered (absent old) r)
    apply_op-emplaced op =
        elim (map_find k es)
          as (λ o.
            let r = op (absent o) (stored v o) in
            apply_op k op (emplace_found k v es o)
            ≡ (some (assign k r.0 (emplace_found k v es o).0), answered (absent o) r)) [
              | none ↦ refl
              | some p ↦ refl
            ]

    pub find-emplaced :
        (q : K) (p : Option V)
        → map_find q (assign k p (map_try_emplace k v es).0)
          ≡ (if key.equal q k then some p else map_find q es)
    find-emplaced q p = go (map_find k es) refl
      where
        go :
            (o : Option (Option V))
            → map_find k es ≡ o
            → map_find q (assign k p (emplace_found k v es o).0)
              ≡ (if key.equal q k then some p else map_find q es)
        go none e =
            let new = find-append_entry k k v es e in
            find-assign k q p v (es ++ (k, v) ∷ []) (rw (equal_self k) at new)
            ∙ ground (arith, find-append_entry k q v es e)
        go (some old) e = find-assign k q p old es e

    pub length-emplaced :
        (p : Option V)
        → length (assign k p (map_try_emplace k v es).0)
          ≡ length es + (if absent (map_find k es) then 1 else 0)
    length-emplaced p =
        rw length-assign
          (elim (map_find k es)
            as (λ o. length (emplace_found k v es o).0 ≡ length es + (if absent o then 1 else 0)) [
              | none ↦ length-append es ((k, v) ∷ [])
              | some q ↦ omega arith
            ])

    pub count-emplaced :
        (q : K) (p : Option V)
        → count q es ≤ 1
        → count q (assign k p (map_try_emplace k v es).0)
          ≤ (if key.equal q k then 1 else count q es)
    count-emplaced q p h = go (map_find k es) refl
      where
        go :
            (o : Option (Option V))
            → map_find k es ≡ o
            → count q (assign k p (emplace_found k v es o).0)
              ≤ (if key.equal q k then 1 else count q es)
        go none e =
            rw (count-assign, count-append)
              (ground (arith, find_none-count k es e, h, key.equal_iff q k))
        go (some old) e = rw count-assign (ground arith)

  pub try_emplace_with_op-emplaced :
      (k : K) (op : Bool → M (Option V) (Unit {0})) (v : Option V) (s : Shard K V)
      → let old = map_find k (entries s) in
        let r = op (absent old) (stored v old) in
        MapLock.try_emplace_with_op k op v s
        ≡ (some (assign k r.0 (map_try_emplace k v (entries s)).0), answered (absent old) r)
  unfolding MapLock.try_emplace_with_op
  try_emplace_with_op-emplaced k op v s = apply_op-emplaced k v (entries s) op

  -- `erase` of a key, on a shard with or without a map.
  module _ (k : K) (s : Shard K V) where
    pub erase-std :
        (entries (MapLock.erase k s).0 ≡ (std_erase_if (λ e. key.equal k e.0) (entries s)).0)
        × ((MapLock.erase k s).1 ≡ (std_erase_if (λ e. key.equal k e.0) (entries s)).1)
    unfolding MapLock.erase
    erase-std =
        elim s
          as (λ s.
            (entries (MapLock.erase k s).0 ≡ (std_erase_if (λ e. key.equal k e.0) (entries s)).0)
            × ((MapLock.erase k s).1 ≡ (std_erase_if (λ e. key.equal k e.0) (entries s)).1)) [
              | none ↦ (refl, refl)
              | some es ↦ (refl, refl)
            ]

    pub erase-count : (MapLock.erase k s).1 ≡ count k (entries s)
    erase-count = erase-std.1 ∙ erased-count k (entries s)

    pub count-erase_le : (q : K) → count q (entries (MapLock.erase k s).0) ≤ count q (entries s)
    count-erase_le q = rw erase-std.0 (count-std_erase_if_le _ q (entries s))

    pub find-erase :
        (q : K)
        → count q (entries s) ≤ 1
        → map_find q (entries (MapLock.erase k s).0)
          ≡ (if key.equal q k then none else map_find q (entries s))
    find-erase q h =
        rw (erase-std.0, find-std_erase_if _ q (entries s) h) (go (map_find q (entries s)))
      where
        go :
            (o : Option (Option V))
            → spare (λ e. key.equal k e.0) q o ≡ (if key.equal q k then none else o)
        go none = ground arith
        go (some p) = ground (arith, key.equal_iff q k, key.equal_iff k q)

  pub found-count :
      (q : K) (es : List (Entry K V))
      → count q es ≤ 1
      → count q es ≡ (if absent (map_find q es) then 0 else 1)
  found-count q es h = go (map_find q es) refl
    where
      go : (o : Option (Option V)) → map_find q es ≡ o → count q es ≡ (if absent o then 0 else 1)
      go none e = find_none-count q es e
      go (some p) e = ground (arith, h, count_zero-find q es)
