-- ===== src/TimeUtil/RoundTrip/Local.antt =====
-- `get_local_time_str` as the log uses it, with `Hour` hours added.
use async_framework.Prelude.{ℕ, ◌+◌, ◌<◌, ◌≡◌, some, [], take, drop}
use async_framework.TimeUtil.Parse.{get_digit}
use async_framework.TimeUtil.Print.{
  Tm, to_int_from, to_int, convert, write, get_local_time_str, log_print_format,
}
use async_framework.TimeUtil.RoundTrip.Digits.{get_digit-to_int_from}

-- The hour written by the log's format is the hour of `gmtime` plus `Hour`, of which no day is
-- carried, while it fits two digits.
pub local_hour :
    (hours : ℕ) (tm : Tm)
    → tm.tm_hour + hours < 100
    → get_digit (take 2 (drop 11 (get_local_time_str hours tm log_print_format))) 2
      ≡ some (tm.tm_hour + hours)
unfolding get_local_time_str write convert to_int to_int_from
local_hour hours tm h = get_digit-to_int_from 2 (tm.tm_hour + hours) [] h
