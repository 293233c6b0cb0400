-- ===== src/TimeUtil/RoundTrip/Names.antt =====
-- The hashes of `get_day_index` and `get_month_index` on the names that are written.
use async_framework.Prelude.{ℕ, zero, suc, ◌<◌, ◌≡◌, refl, arith, some, List, [], ◌∷◌, get_or}
use async_framework.TimeUtil.Calendar.{get_day_index, get_month_index}
use async_framework.TimeUtil.Print.{wday, ymon}

-- The hash of a written day name is the day's number.
pub get_day_index-wday : (n : ℕ) → n < 7 → get_day_index (get_or wday n []) ≡ some n
unfolding get_day_index
get_day_index-wday zero h = refl
get_day_index-wday (suc zero) h = refl
get_day_index-wday (suc (suc zero)) h = refl
get_day_index-wday (suc (suc (suc zero))) h = refl
get_day_index-wday (suc (suc (suc (suc zero)))) h = refl
get_day_index-wday (suc (suc (suc (suc (suc zero))))) h = refl
get_day_index-wday (suc (suc (suc (suc (suc (suc zero)))))) h = refl
get_day_index-wday (suc (suc (suc (suc (suc (suc (suc n))))))) h = ground arith

-- The hash of a written month name is the month's number.
pub get_month_index-ymon : (n : ℕ) → n < 12 → get_month_index (get_or ymon n []) ≡ some n
unfolding get_month_index
get_month_index-ymon zero h = refl
get_month_index-ymon (suc zero) h = refl
get_month_index-ymon (suc (suc zero)) h = refl
get_month_index-ymon (suc (suc (suc zero))) h = refl
get_month_index-ymon (suc (suc (suc (suc zero)))) h = refl
get_month_index-ymon (suc (suc (suc (suc (suc zero))))) h = refl
get_month_index-ymon (suc (suc (suc (suc (suc (suc zero)))))) h = refl
get_month_index-ymon (suc (suc (suc (suc (suc (suc (suc zero))))))) h = refl
get_month_index-ymon (suc (suc (suc (suc (suc (suc (suc (suc zero)))))))) h = refl
get_month_index-ymon (suc (suc (suc (suc (suc (suc (suc (suc (suc zero))))))))) h = refl
get_month_index-ymon (suc (suc (suc (suc (suc (suc (suc (suc (suc (suc zero)))))))))) h = refl
get_month_index-ymon (suc (suc (suc (suc (suc (suc (suc (suc (suc (suc (suc zero))))))))))) h = refl
get_month_index-ymon (suc (suc (suc (suc (suc (suc (suc (suc (suc (suc (suc (suc n)))))))))))) h =
    ground arith

-- The three bytes of a name.
abbrev pub bytes : List (List ℕ) → ℕ → List ℕ
bytes names n =
    let name = get_or names n [] in get_or name 0 0 ∷ get_or name 1 0 ∷ get_or name 2 0 ∷ []

pub wday-bytes : (n : ℕ) → n < 7 → get_or wday n [] ≡ bytes wday n
wday-bytes zero h = refl
wday-bytes (suc zero) h = refl
wday-bytes (suc (suc zero)) h = refl
wday-bytes (suc (suc (suc zero))) h = refl
wday-bytes (suc (suc (suc (suc zero)))) h = refl
wday-bytes (suc (suc (suc (suc (suc zero))))) h = refl
wday-bytes (suc (suc (suc (suc (suc (suc zero)))))) h = refl
wday-bytes (suc (suc (suc (suc (suc (suc (suc n))))))) h = ground arith

pub ymon-bytes : (n : ℕ) → n < 12 → get_or ymon n [] ≡ bytes ymon n
ymon-bytes zero h = refl
ymon-bytes (suc zero) h = refl
ymon-bytes (suc (suc zero)) h = refl
ymon-bytes (suc (suc (suc zero))) h = refl
ymon-bytes (suc (suc (suc (suc zero)))) h = refl
ymon-bytes (suc (suc (suc (suc (suc zero))))) h = refl
ymon-bytes (suc (suc (suc (suc (suc (suc zero)))))) h = refl
ymon-bytes (suc (suc (suc (suc (suc (suc (suc zero))))))) h = refl
ymon-bytes (suc (suc (suc (suc (suc (suc (suc (suc zero)))))))) h = refl
ymon-bytes (suc (suc (suc (suc (suc (suc (suc (suc (suc zero))))))))) h = refl
ymon-bytes (suc (suc (suc (suc (suc (suc (suc (suc (suc (suc zero)))))))))) h = refl
ymon-bytes (suc (suc (suc (suc (suc (suc (suc (suc (suc (suc (suc zero))))))))))) h = refl
ymon-bytes (suc (suc (suc (suc (suc (suc (suc (suc (suc (suc (suc (suc n)))))))))))) h =
    ground arith
