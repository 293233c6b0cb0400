-- ===== src/MapSharded/Iterate.antt =====
-- coro_apps/util/map_sharded.hpp: `for_each`, `copy`, `erase_if` and `erase_one` over the shards.
use async_framework.Prelude.{
  ℕ, suc, ◌+◌, ◌<◌, ◌≡◌, refl, sym, ap, ◌∙◌, Bool, true, false, Option, none, some, List, [], ◌∷◌,
  ◌++◌, if◌then◌else◌, ◌==◌, Bool-cases, inl, inr, length, get_or, append_nil, append_assoc, arith,
}
use async_framework.MapSharded.{
  MapSharded, for_each, for_each_loop, collect, copy, copy_loop, erase_if, erase_one,
  erase_one_loop,
}
use async_framework.MapSharded.MapLock
use async_framework.MapSharded.MapLock.{Entry, Shard, entries, std_erase_if, map_find}

module _ {ℓ} {K V : Type ℓ} where
  unfoldable pub all_entries : List (Shard K V) → List (Entry K V)
  all_entries [] = []
  all_entries (s ∷ shards) = entries s ++ all_entries shards

  -- A callback of type `void`, called on one entry after the other.
  abbrev pub visit {κ} : {S : Type κ} → (Entry K V → S → S) → List (Entry K V) → S → S
  visit f [] s = s
  visit f (e ∷ es) s = visit f es (f e s)

  abbrev pub silent {κ} : {S : Type κ} → (Entry K V → S → S) → Entry K V → S → S × Option Bool
  silent f e s = (f e s, none)

  visit-append {κ} :
      {S : Type κ} (f : Entry K V → S → S) (es fs : List (Entry K V)) (s : S)
      → visit f (es ++ fs) s ≡ visit f fs (visit f es s)
  visit-append f [] fs s = refl
  visit-append f (e ∷ es) fs s = visit-append f es fs (f e s)

  for_each_entry-visit {κ} :
      {S : Type κ} (f : Entry K V → S → S) (es : List (Entry K V)) (s : S)
      → MapLock.for_each_entry (silent f) es s ≡ visit f es s
  unfolding MapLock.for_each_entry
  for_each_entry-visit f [] s = refl
  for_each_entry-visit f (e ∷ es) s = for_each_entry-visit f es (f e s)

  -- With a callback of type `void`, `for_each` calls it once on every entry, a shard after the other.
  pub for_each-visit {κ} :
      {S : Type κ} (f : Entry K V → S → S) (m : MapSharded K V) (s : S)
      → for_each (silent f) m s ≡ visit f (all_entries m.shards) s
  unfolding for_each for_each_loop all_entries MapLock.for_each
  for_each-visit f m s = go m.shards s
    where
      go :
          (shards : List (Shard K V)) (s : _)
          → for_each_loop (silent f) shards s ≡ visit f (all_entries shards) s
      go [] s = refl
      go (none ∷ shards) s = go shards s
      go (some es ∷ shards) s =
          rw (for_each_entry-visit f es s) (go shards (visit f es s))
          ∙ sym (visit-append f es (all_entries shards) s)

  -- The pointers of the entries that `op` picks.
  abbrev pub picked : (Option V → Bool) → List (Entry K V) → List (Option V)
  picked op [] = []
  picked op (e ∷ es) = if op e.1 then e.1 ∷ picked op es else picked op es

  picked-append :
      (op : Option V → Bool) (es fs : List (Entry K V))
      → picked op (es ++ fs) ≡ picked op es ++ picked op fs
  picked-append op [] fs = refl
  picked-append op (e ∷ es) fs = elim (Bool-cases (op e.1)) [
    | inl chosen ↦ rw chosen (ap (λ t. e.1 ∷ t) (picked-append op es fs))
    | inr other ↦ rw other (picked-append op es fs)
  ]

  collect-picked :
      (op : Option V → Bool) (es : List (Entry K V)) (ret : List (Option V))
      → MapLock.for_each_entry (collect op) es ret ≡ ret ++ picked op es
  unfolding MapLock.for_each_entry
  collect-picked op [] ret = sym (append_nil ret)
  collect-picked op (e ∷ es) ret = elim (Bool-cases (op e.1)) [
    | inl chosen ↦
        rw chosen
          (collect-picked op es (ret ++ e.1 ∷ []) ∙ append_assoc ret (e.1 ∷ []) (picked op es))
    | inr other ↦ rw other (collect-picked op es ret)
  ]

  -- `copy` gives the pointers of the entries that `op` picks, of all shards, each as often as it is
  -- stored, in the order of the shards.
  pub copy-picked :
      (op : Option V → Bool) (m : MapSharded K V) → copy op m ≡ picked op (all_entries m.shards)
  unfolding copy copy_loop all_entries MapLock.for_each
  copy-picked op m = go m.shards []
    where
      go :
          (shards : List (Shard K V)) (ret : List (Option V))
          → copy_loop op shards ret ≡ ret ++ picked op (all_entries shards)
      go [] ret = sym (append_nil ret)
      go (none ∷ shards) ret = go shards ret
      go (some es ∷ shards) ret =
          go shards (MapLock.for_each_entry (collect op) es ret)
          ∙ ap (λ t. t ++ picked op (all_entries shards)) (collect-picked op es ret)
          ∙ append_assoc ret (picked op es) (picked op (all_entries shards))
          ∙ ap (λ t. ret ++ t) (sym (picked-append op es (all_entries shards)))

  abbrev pub occupied : List (Shard K V) → ℕ
  occupied [] = 0
  occupied (s ∷ shards) = (if length (entries s) == 0 then 0 else 1) + occupied shards

  abbrev pub refuse : Entry K V → ℕ → ℕ × Option Bool
  refuse e calls = (calls + 1, some false)

  -- A callback that answers false to every entry is called once in every shard that has an entry:
  -- the answer ends the loop over a shard, and not the loop over the shards.
  pub for_each-refused : (m : MapSharded K V) → for_each refuse m 0 ≡ occupied m.shards
  unfolding for_each for_each_loop MapLock.for_each MapLock.for_each_entry
  for_each-refused m = go m.shards 0 ∙ omega arith
    where
      go : (shards : List (Shard K V)) (n : ℕ) → for_each_loop refuse shards n ≡ n + occupied shards
      go [] n = omega arith
      go (none ∷ shards) n = go shards n ∙ omega arith
      go (some [] ∷ shards) n = go shards n ∙ omega arith
      go (some (e ∷ es) ∷ shards) n = go shards (n + 1) ∙ ground arith

  erase_if-zero :
      (op : Entry K V → Bool) (s : Shard K V)
      → (MapLock.erase_if op s).1 ≡ 0
      → (MapLock.erase_if op s).0 ≡ s
  unfolding MapLock.erase_if
  erase_if-zero op none h = refl
  erase_if-zero op (some es) h = ap some (go es h)
    where
      go : (es : List (Entry K V)) → (std_erase_if op es).1 ≡ 0 → (std_erase_if op es).0 ≡ es
      go [] h = refl
      go (e ∷ es) h = elim (Bool-cases (op e)) [
        | inl gone ↦ absurd (ground (arith, gone, h))
        | inr kept ↦ rw kept (ap (λ t. e ∷ t) (go es (rw kept at h)))
      ]

  -- `erase_one` erases every entry that `op` picks in the first shard that has one, not only one
  -- entry, and leaves the other shards as they are.
  pub erase_one-first :
      (op : Entry K V → Bool) (before after : List (Shard K V)) (s : Shard K V) (size_ : ℕ)
      → ((i : ℕ) → (MapLock.erase_if op (get_or before i none)).1 ≡ 0)
      → 0 < (MapLock.erase_if op s).1
      → (erase_one op (record { shards = before ++ s ∷ after; size_ = size_ })).0.shards
        ≡ before ++ (MapLock.erase_if op s).0 ∷ after
  unfolding erase_one erase_one_loop
  erase_one-first op [] after s size_ clean some_gone =
      let h : ((MapLock.erase_if op s).1 == 0) ≡ false = ground arith in rw h refl
  erase_one-first op (b ∷ before) after s size_ clean some_gone =
      let h : ((MapLock.erase_if op b).1 == 0) ≡ true = ground (arith, clean 0) in
      rw (h, erase_if-zero op b (clean 0))
        (ap (λ t. b ∷ t) (erase_one-first op before after s size_ (λ i. clean (suc i)) some_gone))
