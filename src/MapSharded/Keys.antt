-- ===== src/MapSharded/Keys.antt =====
-- The template parameters of `map_sharded_t`: the equality of the keys and `Hash`.
use async_framework.Prelude.{ℕ, Bool, true, ◌≡◌, refl, ◌↔◌}

pub record Key {ℓ} (K : Type ℓ) : Type ℓ where
  pub equal : K → K → Bool
  pub hash : K → ℕ
  pub equal_iff : (a b : K) → (equal a b ≡ true) ↔ (a ≡ b)

pub equal_self {ℓ} : {K : Type ℓ} ⦃key : Key K⦄ (q : K) → key.equal q q ≡ true
equal_self ⦃key⦄ q = (key.equal_iff q q).1 refl
