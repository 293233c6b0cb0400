-- ===== src/TimeUtil/RoundTrip/Sound.antt =====
-- What an accepted text says, and what `get_timestamp` makes of it.
use async_framework.Prelude.{ℕ, ◌<◌, ◌≤◌, ◌≡◌, true, List, length}
use async_framework.TimeUtil.Calendar.Mktime.{date_days, day_seconds, unix_time, is_named}
use async_framework.TimeUtil.Parse.{TimeFormat, Parsed}
use async_framework.TimeUtil.RoundTrip.Fields.{Fields}
use async_framework.TimeUtil.Calendar.Days.{month_length}

-- The whole text is read, its fields stand at the places of the format and are a date and a time of
-- day, its day of the week is that of the date if it has one, and `time` is the seconds since 1970 of
-- that date and time.
pub record IsAccepted (format : TimeFormat) (sv : List ℕ) (p : Parsed) (time : ℕ) : Type 0 where
  pub whole : p.len_of_processed_part ≡ length sv
  pub fields : Fields format sv p
  pub a_month : p.month < 12
  pub a_day : (1 ≤ p.day) × (p.day ≤ month_length p.year p.month)
  pub a_time : (p.hour < 24) × (p.min < 60) × (p.sec < 60)
  pub named : is_named (date_days p.year p.month p.day) p.day_of_week ≡ true
  pub counted : unix_time (date_days p.year p.month p.day) (day_seconds p.hour p.min p.sec) ≡ time
