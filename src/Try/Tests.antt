-- ===== src/Try/Tests.antt =====
-- Runs of Try.h, and the laws at concrete values.
use async_framework.Prelude.{ℕ, ◌≡◌, refl, true}
use async_framework.Try.{monostate, available}

-- An empty `Try` counts as available, though it has no value to give.
empty_available : available {A = ℕ} monostate ≡ true
unfolding available
empty_available = refl
