-- ===== src/MapSharded.antt =====
-- coro_apps/util/map_sharded.hpp: a map cut into shards, each behind its own mutex, and a count of
-- the entries. A critical section is one step. `mapped_type` is a shared pointer, `none` the null
-- one. `Map` is a hash map of the standard library: a list of the entries in the order in which it
-- is iterated, a new one at the end.
pub mod Keys
pub mod MapLock
pub mod Placed
pub mod Counted
pub mod Iterate
mod Tests
use async_framework.Prelude.{
  ℕ, ◌+◌, ◌-◌, ◌%◌, ◌^◌, Bool, true, false, not, Option, none, some, List, [], ◌∷◌, ◌++◌, ltb, ◌==◌,
  if◌then◌else◌, length, get_or, set,
}
use async_framework.Prelude.Outcome.{Outcome, returns, throws, faults}
use async_framework.Prelude.Stateful.{M}
use Keys.{Key}
use MapLock
use MapLock.{Entry, Shard}

-- shards_ and size_, a signed number of 64 bits in two's complement, from 0.
pub record MapSharded {ℓ} (K V : Type ℓ) : Type ℓ where
  pub shards : List (Shard K V)
  pub size_ : ℕ

abbrev pub fetch_add : ℕ → ℕ → ℕ
fetch_add n size_ = (size_ + n) % 2 ^ 64

abbrev pub fetch_sub : ℕ → ℕ → ℕ
fetch_sub n size_ = (size_ + (2 ^ 64 - n % 2 ^ 64)) % 2 ^ 64

-- `total += result` for an `int` and a `size_t`, and the `int` that is returned as a `size_t`.
abbrev pub int_add : ℕ → ℕ → ℕ
int_add total result = (total + result) % 2 ^ 32

abbrev pub to_size_t : ℕ → ℕ
to_size_t total = if ltb total (2 ^ 31) then total else total + (2 ^ 64 - 2 ^ 32)

module _ {ℓ} {K V : Type ℓ} where
  unfoldable pub map_sharded : ℕ → MapSharded K V
  map_sharded shard_num = record { shards = MapLock.copies shard_num; size_ = 0 }

  unfoldable pub size : MapSharded K V → ℕ
  size m = if ltb m.size_ (2 ^ 63) then m.size_ else 0

  -- The loop of `erase_if`: the shards left, the count and the total.
  unfoldable pub erase_if_loop :
      (Entry K V → Bool) → List (Shard K V) → ℕ → ℕ → List (Shard K V) × ℕ × ℕ
  erase_if_loop op [] size_ total = ([], size_, total)
  erase_if_loop op (shard ∷ shards) size_ total =
      let (shard', result) = MapLock.erase_if op shard in
      let (shards', size_', total') =
        erase_if_loop op shards (fetch_sub result size_) (int_add total result) in
      (shard' ∷ shards', size_', total')

  unfoldable pub erase_if : (Entry K V → Bool) → MapSharded K V → MapSharded K V × ℕ
  unfolding erase_if_loop
  erase_if op m =
      let (shards', size_', total) = erase_if_loop op m.shards m.size_ 0 in
      (record { shards = shards'; size_ = size_' }, to_size_t total)

  unfoldable pub erase_one_loop :
      (Entry K V → Bool) → List (Shard K V) → ℕ → List (Shard K V) × ℕ × ℕ
  erase_one_loop op [] size_ = ([], size_, 0)
  erase_one_loop op (shard ∷ shards) size_ =
      let (shard', result) = MapLock.erase_if op shard in
      let (shards', size_', total) = erase_one_loop op shards size_ in
      if result == 0
      then (shard' ∷ shards', size_', total)
      else (shard' ∷ shards, fetch_sub result size_, int_add 0 result)

  unfoldable pub erase_one : (Entry K V → Bool) → MapSharded K V → MapSharded K V × ℕ
  unfolding erase_one_loop
  erase_one op m =
      let (shards', size_', total) = erase_one_loop op m.shards m.size_ in
      (record { shards = shards'; size_ = size_' }, to_size_t total)

  -- The callback's own state is `S`; its answer `none` is `void`. It leaves the entries alone.
  unfoldable pub for_each_loop {κ} :
      {S : Type κ} → (Entry K V → S → S × Option Bool) → List (Shard K V) → S → S
  for_each_loop op [] s = s
  for_each_loop op (shard ∷ shards) s =
      let (s', more) = MapLock.for_each op shard s in
      let rest = for_each_loop op shards s' in if more then rest else s'

  unfoldable pub for_each {κ} :
      {S : Type κ} → (Entry K V → S → S × Option Bool) → MapSharded K V → S → S
  unfolding for_each_loop
  for_each op m s = for_each_loop op m.shards s

  abbrev pub collect :
      (Option V → Bool) → Entry K V → List (Option V) → List (Option V) × Option Bool
  collect op e ret = (if op e.1 then ret ++ e.1 ∷ [] else ret, none)

  -- Its loop has no `break`.
  unfoldable pub copy_loop :
      (Option V → Bool) → List (Shard K V) → List (Option V) → List (Option V)
  copy_loop op [] ret = ret
  copy_loop op (shard ∷ shards) ret =
      copy_loop op shards (MapLock.for_each (collect op) shard ret).0

  unfoldable pub copy : (Option V → Bool) → MapSharded K V → List (Option V)
  unfolding copy_loop
  copy op m = copy_loop op m.shards []

-- `if (ret.second) size_.fetch_add(1)`, which an exception of `op` skips.
abbrev pub count_new {ℓ} : {V : Type ℓ} → Outcome (Option V × Bool) → ℕ → ℕ
count_new (returns (p, true)) size_ = fetch_add 1 size_
count_new _ size_ = size_

-- The lambda of `try_emplace`.
abbrev pub no_op {ℓ} : {V : Type ℓ} → Bool → M (Option V) (Unit {0})
no_op inserted p = (p, returns tt)

module _ {ℓ} {K V : Type ℓ} ⦃key : Key K⦄ where
  -- The index of a shard. Without a shard, `%` divides by zero.
  unfoldable pub get_sharded : K → MapSharded K V → Outcome ℕ
  get_sharded k m = elim m.shards [
    | [] ↦ faults
    | shard ∷ shards ↦ returns (key.hash k % length m.shards)
  ]

  unfoldable pub find : K → MapSharded K V → Outcome (Option V)
  unfolding get_sharded
  find k m = elim (get_sharded k m) [
    | returns i ↦ returns (MapLock.find k (get_or m.shards i none))
    | throws e ↦ throws e
    | faults ↦ faults
  ]

  -- `op` sees whether the entry is new and may change it or throw.
  unfoldable pub try_emplace_with_op :
      K → (Bool → M (Option V) (Unit {0})) → Option V → M (MapSharded K V) (Option V × Bool)
  unfolding get_sharded
  try_emplace_with_op k op v m = elim (get_sharded k m) [
    | faults ↦ (m, faults)
    | throws e ↦ (m, throws e)
    | returns i ↦
        let (shard, ret) = MapLock.try_emplace_with_op k op v (get_or m.shards i none) in
        (record { shards = set m.shards i shard; size_ = count_new ret m.size_ }, ret)
  ]

  unfoldable pub try_emplace : K → Option V → M (MapSharded K V) (Option V × Bool)
  unfolding try_emplace_with_op
  try_emplace k v = try_emplace_with_op k no_op v

  unfoldable pub erase : K → M (MapSharded K V) ℕ
  unfolding get_sharded
  erase k m = elim (get_sharded k m) [
    | faults ↦ (m, faults)
    | throws e ↦ (m, throws e)
    | returns i ↦
        let (shard, result) = MapLock.erase k (get_or m.shards i none) in
        (
          record {
            shards = set m.shards i shard;
            size_ = if result == 0 then m.size_ else fetch_sub result m.size_;
          },
          returns result,
        )
  ]
