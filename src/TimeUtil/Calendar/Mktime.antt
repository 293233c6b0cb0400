-- ===== src/TimeUtil/Calendar/Mktime.antt =====
-- `faster_mktime` against the calendar counted day by day.
use async_framework.Prelude.{
  ℕ, zero, suc, ◌+◌, ◌-◌, ◌*◌, ◌%◌, ◌^◌, ◌<◌, ◌≤◌, ◌≡◌, ap, ◌∙◌, Bool, true, arith, if◌then◌else◌,
  get_or, Option, some, none, ◌==◌,
}
use async_framework.TimeUtil.Calendar.{
  days_before, u64, day_number, absolute_seconds, weekday, to_unix, faster_mktime,
}
use async_framework.TimeUtil.Calendar.Days.{
  year_start, month_start, zero_days, days_since_epoch-year_start, month_start-table, year_start-le,
}

-- Days from the start of year 0 to a date.
abbrev pub date_days : ℕ → ℕ → ℕ → ℕ
date_days year month day = year_start year + month_start year month + (day - 1)

-- Seconds into the day.
abbrev pub day_seconds : ℕ → ℕ → ℕ → ℕ
day_seconds hour min sec = 3600 * hour + 60 * min + sec

days_before-le : (month : ℕ) → month < 12 → get_or days_before month 0 ≤ 334
days_before-le zero h = ground arith
days_before-le (suc zero) h = ground arith
days_before-le (suc (suc zero)) h = ground arith
days_before-le (suc (suc (suc zero))) h = ground arith
days_before-le (suc (suc (suc (suc zero)))) h = ground arith
days_before-le (suc (suc (suc (suc (suc zero))))) h = ground arith
days_before-le (suc (suc (suc (suc (suc (suc zero)))))) h = ground arith
days_before-le (suc (suc (suc (suc (suc (suc (suc zero))))))) h = ground arith
days_before-le (suc (suc (suc (suc (suc (suc (suc (suc zero)))))))) h = ground arith
days_before-le (suc (suc (suc (suc (suc (suc (suc (suc (suc zero))))))))) h = ground arith
days_before-le (suc (suc (suc (suc (suc (suc (suc (suc (suc (suc zero)))))))))) h = ground arith
days_before-le (suc (suc (suc (suc (suc (suc (suc (suc (suc (suc (suc zero))))))))))) h =
    ground arith
days_before-le (suc (suc (suc (suc (suc (suc (suc (suc (suc (suc (suc (suc month)))))))))))) h =
    omega arith

day_number-date_days :
    (year month day : ℕ)
    → year < 10000
    → month < 12
    → day ≤ 31
    → day_number year month day ≡ zero_days + date_days year month day
day_number-date_days year month day hy hm hd = ground (
  arith,
  days_since_epoch-year_start year (omega arith),
  month_start-table year month hm,
  days_before-le month hm,
  year_start-le year,
)

absolute_seconds-date_days :
    (year month day hour min sec : ℕ)
    → year < 10000
    → month < 12
    → day ≤ 31
    → hour < 24
    → min < 60
    → sec < 60
    → absolute_seconds year month day hour min sec
      ≡ 86400 * (zero_days + date_days year month day) + day_seconds hour min sec
unfolding absolute_seconds
absolute_seconds-date_days year month day hour min sec hy hm hd hh hi hs = ground (
  arith,
  day_number-date_days year month day hy hm hd,
  year_start-le year,
  month_start-table year month hm,
  days_before-le month hm,
)

weekday-date_days :
    (n s : ℕ) → n < 5000000 → s < 86400 → weekday (86400 * (zero_days + n) + s) ≡ (n + 6) % 7
unfolding weekday
weekday-date_days n s hn hs = ground arith

-- A time zone's zero at the start of 1970, which is day 719528.
abbrev pub unix_time : ℕ → ℕ → ℕ
unix_time days seconds = u64 (86400 * days + seconds + (2 ^ 64 - 719528 * 86400))

-- Day 0 is a Saturday.
abbrev pub is_named : ℕ → Option ℕ → Bool
is_named days none = true
is_named days (some day_of_week) = (days + 6) % 7 == day_of_week

to_unix-unix_time :
    (n s : ℕ) → n < 5000000 → s < 86400 → to_unix (86400 * (zero_days + n) + s) ≡ unix_time n s
to_unix-unix_time n s hn hs = ground arith

date_days-lt :
    (year month day : ℕ) → year < 10000 → month < 12 → day ≤ 31 → date_days year month day < 5000000
date_days-lt year month day hy hm hd =
    ground (arith, year_start-le year, month_start-table year month hm, days_before-le month hm)

module _ (year month day hour min sec : ℕ) (hy : year < 10000) (hm : month < 12) (hd₀ : 1 ≤ day)
    (hd : day ≤ 31) (hh : hour < 24) (hi : min < 60) (hs : sec < 60) where
  abbrev time : ℕ
  time = absolute_seconds year month day hour min sec

  time-unix_time : to_unix time ≡ unix_time (date_days year month day) (day_seconds hour min sec)
  time-unix_time =
      ap to_unix (absolute_seconds-date_days year month day hour min sec hy hm hd hh hi hs)
      ∙ to_unix-unix_time (date_days year month day) (day_seconds hour min sec)
          (date_days-lt year month day hy hm hd) (omega arith)

  time-weekday : weekday time ≡ (date_days year month day + 6) % 7
  time-weekday =
      ap weekday (absolute_seconds-date_days year month day hour min sec hy hm hd hh hi hs)
      ∙ weekday-date_days (date_days year month day) (day_seconds hour min sec)
          (date_days-lt year month day hy hm hd) (omega arith)

  -- A date counted from the start of year 0 by the days of the months and the leap years of the calendar
  -- gives the seconds since 1970, as a 64-bit
  -- pattern, for years below 10000 and days up to 31; with a day name it gives them exactly when
  -- the name is that of the day.
  pub faster_mktime-unix_time :
      (name : Option ℕ)
      → faster_mktime year month day hour min sec name ≡ (
          if is_named (date_days year month day) name
          then some (unix_time (date_days year month day) (day_seconds hour min sec))
          else none)
  unfolding faster_mktime
  faster_mktime-unix_time none = ap some time-unix_time
  faster_mktime-unix_time (some w) =
      ap (λ d. if d == w then some (to_unix time) else none) time-weekday
      ∙ ap (λ t. if (date_days year month day + 6) % 7 == w then some t else none) time-unix_time
