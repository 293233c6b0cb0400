-- ===== src/MapSharded/Tests.antt =====
-- coro_apps/util/map_sharded.hpp: runs on small maps with keys and objects that are numbers.
use async_framework.Prelude.{
  ℕ, zero, suc, ◌+◌, ◌≤◌, ◌≡◌, ◌≢◌, refl, Bool, true, false, Option, none, some, List, [], ◌∷◌,
  ◌==◌, ==_iff, leb, arith,
}
use async_framework.Prelude.Outcome.{returns, throws, runtime_error}
use async_framework.Prelude.Stateful.{M}
use async_framework.MapSharded.{
  MapSharded, map_sharded, size, find, try_emplace, try_emplace_with_op, erase, erase_if, erase_one,
  copy,
}
use async_framework.MapSharded.Keys.{Key}
use async_framework.MapSharded.MapLock
use async_framework.MapSharded.MapLock.{Entry, Shard, entries}
use async_framework.MapSharded.Placed.{
  IsPlaced, view, emplace-Writes, erase-Writes, Writes, home, chain_at,
}
use async_framework.MapSharded.MapLock.Chain.{count}
use async_framework.MapSharded.Counted.{total, IsCounted, erase_if-total}
use async_framework.MapSharded.Counted.Racing.{
  Turn, emplacing, erasing, settling, turns_run, started, turns_run-size,
}
use async_framework.MapSharded.Iterate.{all_entries, picked, copy-picked}

instance abbrev number_key : Key ℕ
number_key = record { equal = ◌==◌; hash = λ k. k; equal_iff = ==_iff }

-- Two shards, with the keys 3 and 5 in the second.
abbrev two_shards : MapSharded ℕ ℕ
two_shards = record { shards = none ∷ some ((3, some 30) ∷ (5, some 50) ∷ []) ∷ []; size_ = 2 }

two_shards-IsPlaced : IsPlaced two_shards.shards
two_shards-IsPlaced = record {
  nonempty = omega arith;
  once = λ q i. once i q;
  apart = λ q i h. apart i q h;
}
  where
    once : (i q : ℕ) → count q (chain_at two_shards.shards i) ≤ 1
    once zero q = omega arith
    once (suc zero) q = ground arith
    once (suc (suc i)) q = omega arith

    apart : (i q : ℕ) → home q two_shards.shards ≢ i → count q (chain_at two_shards.shards i) ≡ 0
    apart zero q h = refl
    apart (suc zero) q h = ground (arith, h)
    apart (suc (suc i)) q h = refl

add_one : Bool → M (Option ℕ) (Unit {0})
add_one inserted none = (none, returns tt)
add_one inserted (some n) = (some (n + 1), returns tt)

emplaced : find 4 (try_emplace 4 (some 40) two_shards).0 ≡ returns (some 40)
unfolding find try_emplace MapLock.find MapLock.try_emplace_with_op
emplaced = refl

emplaced_before : (try_emplace 5 (some 40) two_shards).1 ≡ returns (some 50, false)
unfolding try_emplace MapLock.try_emplace_with_op
emplaced_before = refl

-- An exception of the callback leaves the entry, which `size_` does not count.
thrown :
    (try_emplace_with_op 4 (λ inserted p. (p, throws (runtime_error "op"))) (some 40) two_shards).0
    ≡ record {
      shards = some ((4, some 40) ∷ []) ∷ some ((3, some 30) ∷ (5, some 50) ∷ []) ∷ [];
      size_ = 2;
    }
unfolding try_emplace_with_op MapLock.try_emplace_with_op
thrown = refl

erased_all : (erase_one (λ e. true) two_shards).1 ≡ 2
unfolding erase_one MapLock.erase_if
erased_all = refl

emplace-Writes_example :
    Writes 5
      (some (some 51))
      two_shards.shards
      (try_emplace_with_op 5 add_one (some 7) two_shards).0.shards
    × ((try_emplace_with_op 5 add_one (some 7) two_shards).1 ≡ returns (some 51, false))
unfolding view add_one
emplace-Writes_example = emplace-Writes 5 two_shards two_shards-IsPlaced add_one (some 7)

erase-Writes_example :
    Writes 3 none two_shards.shards (erase 3 two_shards).0.shards
    × ((erase 3 two_shards).1 ≡ returns 1)
unfolding view
erase-Writes_example = erase-Writes 3 two_shards two_shards-IsPlaced

copy-picked_example :
    copy (λ p. true) two_shards ≡ picked (λ p. true) (all_entries two_shards.shards)
copy-picked_example = copy-picked (λ p. true) two_shards

erase_if-total_example :
    IsCounted (erase_if (λ e. leb 5 e.0) two_shards).0
    × ((erase_if (λ e. leb 5 e.0) two_shards).1
          + total (erase_if (λ e. leb 5 e.0) two_shards).0.shards
        ≡ 2)
unfolding total
erase_if-total_example = erase_if-total (λ e. leb 5 e.0) two_shards refl (omega arith)

-- A thread adds a key, another takes it away and is counted first.
abbrev crossing : List (Turn ℕ ℕ)
crossing =
    emplacing 4 (λ inserted p. some 41) (some 40)
    ∷ erasing 4
    ∷ settling 0
    ∷ emplacing 6 (λ inserted p. p) (some 60)
    ∷ settling 1
    ∷ settling 0
    ∷ []

turns_run-size_example :
    size (turns_run crossing (started 2)).map ≡ total (turns_run crossing (started 2)).map.shards
unfolding turns_run total MapLock.try_emplace_with_op MapLock.erase map_sharded
turns_run-size_example = turns_run-size 2 crossing refl (omega arith)
