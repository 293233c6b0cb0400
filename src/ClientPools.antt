-- ===== src/ClientPools.antt =====
-- coro_apps/coro_io/client_pool.hpp: `get_client_pool` of client_pools, which makes a pool for a host
-- once. The standard map is a list of entries, and a pool is whatever the caller makes.
use async_framework.Prelude.{◌≡◌, refl, ap, Option, none, some, List, [], ◌∷◌, if◌then◌else◌}
use async_framework.MapSharded.Keys.{Key, equal_self}

module _ {ℓ κ} {K : Type ℓ} {P : Type κ} ⦃key : Key K⦄ where
  unfoldable pub find : K → List (K × P) → Option P
  find host [] = none
  find host (e ∷ es) = if key.equal host e.0 then some e.1 else find host es

  abbrev pub emplaced : K → P → List (K × P) → Option P → List (K × P) × P
  emplaced host pool manager (some there) = (manager, there)
  emplaced host pool manager none = ((host, pool) ∷ manager, pool)

  -- `others` is what other threads do to the map between the two locks.
  abbrev pub found_or :
      (List (K × P) → List (K × P)) → K → P → List (K × P) → Option P → List (K × P) × P
  found_or others host pool manager (some there) = (manager, there)
  found_or others host pool manager none =
      let later = others manager in emplaced host pool later (find host later)

  unfoldable pub get_client_pool :
      (List (K × P) → List (K × P)) → K → P → List (K × P) → List (K × P) × P
  unfolding find
  get_client_pool others host pool manager = found_or others host pool manager (find host manager)

  emplaced-find :
      (host : K) (pool : P) (manager : List (K × P)) (there : Option P)
      → find host manager ≡ there
      → let r = emplaced host pool manager there in find host r.0 ≡ some r.1
  unfolding find
  emplaced-find host pool manager (some p) e = e
  emplaced-find host pool manager none e = rw (equal_self host) refl

  found_or-find :
      (others : List (K × P) → List (K × P)) (host : K) (pool : P) (manager : List (K × P))
      (there : Option P)
      → find host manager ≡ there
      → let r = found_or others host pool manager there in find host r.0 ≡ some r.1
  found_or-find others host pool manager (some p) e = e
  found_or-find others host pool manager none e =
      emplaced-find host pool (others manager) (find host (others manager)) refl

  -- The pool that is answered is the one that the map has for the host then, whatever other threads do
  -- between the locks; so a second call answers the same pool, and leaves the map.
  get_client_pool-again :
      (others others' : List (K × P) → List (K × P)) (host : K) (pool pool' : P)
      (manager : List (K × P))
      → let r = get_client_pool others host pool manager in
        get_client_pool others' host pool' r.0 ≡ r
  unfolding get_client_pool
  get_client_pool-again others others' host pool pool' manager =
      let r = get_client_pool others host pool manager in
      ap (found_or others' host pool' r.0)
        (found_or-find others host pool manager (find host manager) refl)
