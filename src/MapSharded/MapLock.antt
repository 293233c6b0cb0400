-- ===== src/MapSharded/MapLock.antt =====
-- coro_apps/util/map_sharded.hpp: `map_lock_t`, one shard. Its map is made when it is first written.
pub mod Chain
use async_framework.Prelude.{
  ℕ, zero, suc, ◌+◌, Bool, true, false, not, Option, none, some, List, [], ◌∷◌, ◌++◌, if◌then◌else◌,
  length,
}
use async_framework.Prelude.Outcome.{Outcome, returns, throws, faults}
use async_framework.Prelude.Stateful.{M}
use async_framework.MapSharded.Keys.{Key}

-- A key and a shared pointer.
abbrev pub Entry {ℓ} : Type ℓ → Type ℓ → Type ℓ
Entry K V = K × Option V

-- map_
abbrev pub Shard {ℓ} : Type ℓ → Type ℓ → Type ℓ
Shard K V = Option (List (Entry K V))

-- The pointer that stands for a key, `v` if there is none yet, and whether there is none.
module _ {ℓ} {V : Type ℓ} where
  abbrev pub stored : Option V → Option (Option V) → Option V
  stored v none = v
  stored v (some p) = p

  abbrev pub absent : Option (Option V) → Bool
  absent none = true
  absent (some p) = false

  abbrev pub answered : Bool → Option V × Outcome (Unit {0}) → Outcome (Option V × Bool)
  answered inserted (p, returns u) = returns (p, inserted)
  answered inserted (p, throws e) = throws e
  answered inserted (p, faults) = faults

module _ {ℓ} {K V : Type ℓ} where
  -- The entries, none where there is no map yet.
  abbrev pub entries : Shard K V → List (Entry K V)
  entries none = []
  entries (some es) = es

  abbrev pub copies : ℕ → List (Shard K V)
  copies zero = []
  copies (suc n) = none ∷ copies n

  -- `visit_map`
  abbrev pub visit_map : Shard K V → List (Entry K V)
  visit_map map_ = entries map_

  -- `std::erase_if`: the entries kept, and how many are erased.
  abbrev pub std_erase_if : (Entry K V → Bool) → List (Entry K V) → List (Entry K V) × ℕ
  std_erase_if op [] = ([], 0)
  std_erase_if op (e ∷ es) =
      let (kept, n) = std_erase_if op es in if op e then (kept, suc n) else (e ∷ kept, n)

  unfoldable pub erase_if : (Entry K V → Bool) → Shard K V → Shard K V × ℕ
  erase_if op none = (none, 0)
  erase_if op (some es) = let (kept, n) = std_erase_if op es in (some kept, n)

  -- The loop over the entries ends at the first answer `false`, and `return false` after the
  -- `break` is not reached.
  unfoldable pub for_each_entry {κ} :
      {S : Type κ} → (Entry K V → S → S × Option Bool) → List (Entry K V) → S → S
  for_each_entry op [] s = s
  for_each_entry op (e ∷ es) s =
      let (s', answer) = op e s in
      let rest = for_each_entry op es s' in
      elim answer [ some false ↦ s' | some true ↦ rest | none ↦ rest ]

  unfoldable pub for_each {κ} :
      {S : Type κ} → (Entry K V → S → S × Option Bool) → Shard K V → S → S × Bool
  unfolding for_each_entry
  for_each op none s = (s, true)
  for_each op (some es) s = (for_each_entry op es s, true)

module _ {ℓ} {K V : Type ℓ} ⦃key : Key K⦄ where
  -- The map's `find`: `none` is `end()`.
  abbrev pub map_find : K → List (Entry K V) → Option (Option V)
  map_find k [] = none
  map_find k (e ∷ es) = if key.equal k e.0 then some e.1 else map_find k es

  -- `nullptr` also where a null pointer is stored.
  unfoldable pub find : K → Shard K V → Option V
  find k none = none
  find k (some es) = stored none (map_find k es)

  -- The pointer of an entry is written through the iterator.
  abbrev pub assign : K → Option V → List (Entry K V) → List (Entry K V)
  assign k p [] = []
  assign k p (e ∷ es) = if key.equal k e.0 then (e.0, p) ∷ es else e ∷ assign k p es

  -- The map's `try_emplace`, where its `find` answers: the map, the pointer of the entry, and
  -- whether it is new.
  abbrev pub emplace_found :
      K → Option V → List (Entry K V) → Option (Option V) → List (Entry K V) × Option V × Bool
  emplace_found k v es none = (es ++ (k, v) ∷ [], v, true)
  emplace_found k v es (some p) = (es, p, false)

  abbrev pub map_try_emplace : K → Option V → List (Entry K V) → List (Entry K V) × Option V × Bool
  map_try_emplace k v es = emplace_found k v es (map_find k es)

  -- `op(result)`, and what is returned unless `op` throws.
  abbrev pub apply_op :
      K
      → (Bool → M (Option V) (Unit {0}))
      → List (Entry K V) × Option V × Bool
      → Shard K V × Outcome (Option V × Bool)
  apply_op k op (es, p, inserted) =
      (some (assign k (op inserted p).0 es), answered inserted (op inserted p))

  unfoldable pub try_emplace_with_op :
      K
      → (Bool → M (Option V) (Unit {0}))
      → Option V
      → Shard K V
      → Shard K V × Outcome (Option V × Bool)
  try_emplace_with_op k op v shard = apply_op k op (map_try_emplace k v (visit_map shard))

  unfoldable pub erase : K → Shard K V → Shard K V × ℕ
  erase k none = (none, 0)
  erase k (some es) = let (kept, n) = std_erase_if (λ e. key.equal k e.0) es in (some kept, n)
