-- ===== src/TimeUtil/Calendar/Days.antt =====
-- `days_since_epoch` and `days_before` against counting the days of the calendar.
use async_framework.Prelude.{
  ℕ, zero, suc, ◌+◌, ◌*◌, ◌<◌, ◌≤◌, ◌≡◌, ◌%◌, ◌==◌, Bool, true, false, refl, arith, if◌then◌else◌,
  get_or, leb, ◌&&◌,
}
use async_framework.TimeUtil.Calendar.{is_leap, days_in, days_since_epoch, days_before}

-- The rule of the Gregorian calendar.
abbrev pub leap : ℕ → Bool
leap year = if year % 400 == 0 then true else if year % 100 == 0 then false else year % 4 == 0

-- The days of a month, whose index is 0 for January.
abbrev pub month_length : ℕ → ℕ → ℕ
month_length year zero = 31
month_length year (suc zero) = if leap year then 29 else 28
month_length year (suc (suc zero)) = 31
month_length year (suc (suc (suc zero))) = 30
month_length year (suc (suc (suc (suc zero)))) = 31
month_length year (suc (suc (suc (suc (suc zero))))) = 30
month_length year (suc (suc (suc (suc (suc (suc zero)))))) = 31
month_length year (suc (suc (suc (suc (suc (suc (suc zero))))))) = 31
month_length year (suc (suc (suc (suc (suc (suc (suc (suc zero)))))))) = 30
month_length year (suc (suc (suc (suc (suc (suc (suc (suc (suc zero))))))))) = 31
month_length year (suc (suc (suc (suc (suc (suc (suc (suc (suc (suc zero)))))))))) = 30
month_length year _ = 31

-- Days from the start of year 0.
abbrev pub year_start : ℕ → ℕ
year_start zero = 0
year_start (suc y) = year_start y + (if leap y then 366 else 365)

-- Days of the year before a month.
abbrev pub month_start : ℕ → ℕ → ℕ
month_start year zero = 0
month_start year (suc m) = month_start year m + month_length year m

days_since_epoch-suc :
    (y : ℕ)
    → y < 100000
    → days_since_epoch (suc y) ≡ days_since_epoch y + (if leap y then 366 else 365)
unfolding days_since_epoch
days_since_epoch-suc y h = ground arith

-- Days from January 1 of `absolute_zero_year` to that of year 0.
abbrev pub zero_days : ℕ
zero_days = 106751990353566

days_since_epoch-zero : days_since_epoch 0 ≡ zero_days
unfolding days_since_epoch
days_since_epoch-zero = refl

pub year_start-le : (y : ℕ) → year_start y ≤ 366 * y
year_start-le zero = omega arith
year_start-le (suc y) = ground (arith, year_start-le y)

-- The cycles of 400, 100 and 4 years count what the leap rule gives year by year.
pub days_since_epoch-year_start :
    (y : ℕ) → y ≤ 100000 → days_since_epoch y ≡ zero_days + year_start y
days_since_epoch-year_start zero h = omega (arith, days_since_epoch-zero)
days_since_epoch-year_start (suc y) h =
    omega (arith, days_since_epoch-suc y (omega arith), days_since_epoch-year_start y (omega arith))

pub month_start-table :
    (year month : ℕ)
    → month < 12
    → month_start year month
      ≡ get_or days_before month 0 + (if is_leap year && leb 2 month then 1 else 0)
unfolding is_leap
month_start-table year zero h = ground arith
month_start-table year (suc zero) h = ground arith
month_start-table year (suc (suc zero)) h = ground arith
month_start-table year (suc (suc (suc zero))) h = ground arith
month_start-table year (suc (suc (suc (suc zero)))) h = ground arith
month_start-table year (suc (suc (suc (suc (suc zero))))) h = ground arith
month_start-table year (suc (suc (suc (suc (suc (suc zero)))))) h = ground arith
month_start-table year (suc (suc (suc (suc (suc (suc (suc zero))))))) h = ground arith
month_start-table year (suc (suc (suc (suc (suc (suc (suc (suc zero)))))))) h = ground arith
month_start-table year (suc (suc (suc (suc (suc (suc (suc (suc (suc zero))))))))) h = ground arith
month_start-table year (suc (suc (suc (suc (suc (suc (suc (suc (suc (suc zero)))))))))) h =
    ground arith
month_start-table year (suc (suc (suc (suc (suc (suc (suc (suc (suc (suc (suc zero))))))))))) h =
    ground arith
month_start-table year (suc (suc (suc (suc (suc (suc (suc (suc (suc (suc (suc (suc month))))))))))))
      h =
    omega arith

pub days_in-month_length :
    (year month : ℕ) → month < 12 → days_in month year ≡ month_length year month
unfolding days_in is_leap
days_in-month_length year zero h = ground arith
days_in-month_length year (suc zero) h = ground arith
days_in-month_length year (suc (suc zero)) h = ground arith
days_in-month_length year (suc (suc (suc zero))) h = ground arith
days_in-month_length year (suc (suc (suc (suc zero)))) h = ground arith
days_in-month_length year (suc (suc (suc (suc (suc zero))))) h = ground arith
days_in-month_length year (suc (suc (suc (suc (suc (suc zero)))))) h = ground arith
days_in-month_length year (suc (suc (suc (suc (suc (suc (suc zero))))))) h = ground arith
days_in-month_length year (suc (suc (suc (suc (suc (suc (suc (suc zero)))))))) h = ground arith
days_in-month_length year (suc (suc (suc (suc (suc (suc (suc (suc (suc zero))))))))) h =
    ground arith
days_in-month_length year (suc (suc (suc (suc (suc (suc (suc (suc (suc (suc zero)))))))))) h =
    ground arith
days_in-month_length year (suc (suc (suc (suc (suc (suc (suc (suc (suc (suc (suc zero))))))))))) h =
    ground arith
days_in-month_length year
      (suc (suc (suc (suc (suc (suc (suc (suc (suc (suc (suc (suc month)))))))))))) h =
    omega arith
