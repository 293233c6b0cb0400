-- ===== src/TimeUtil/RoundTrip/Tests.antt =====
-- Runs of the date functions.
use async_framework.Prelude.{ℕ, ◌≡◌, refl, arith, some, List, [], ◌∷◌}
use async_framework.TimeUtil.Calendar.{days_in, faster_mktime}
use async_framework.TimeUtil.Calendar.Mktime.{faster_mktime-unix_time}
use async_framework.TimeUtil.Parse.{get_timestamp, http_format}
use async_framework.TimeUtil.Print.{Tm, get_gmt_time_str}
use async_framework.TimeUtil.Cache.{
  first_cached, cached_gmt_time_str, cached_run, cached_gmt_time_str-fresh,
}
use async_framework.TimeUtil.RoundTrip.Http.{get_timestamp-get_gmt_time_str}

-- Mon, 02 Jan 2006 15:04:05 GMT
abbrev layout_time : Tm
layout_time = record {
  tm_year = 106;
  tm_mon = 0;
  tm_mday = 2;
  tm_hour = 15;
  tm_min = 4;
  tm_sec = 5;
  tm_wday = 1;
}

-- 18:00 on the last day of 1999
abbrev evening : Tm
evening = record {
  tm_year = 99;
  tm_mon = 11;
  tm_mday = 31;
  tm_hour = 18;
  tm_min = 0;
  tm_sec = 0;
  tm_wday = 5;
}

faster_mktime-unix_time_example : faster_mktime 2006 0 2 15 4 5 (some 1) ≡ some 1136214245
unfolding days_in
faster_mktime-unix_time_example =
    faster_mktime-unix_time 2006 0 2 15 4 5 (omega arith) (omega arith) (omega arith) (omega arith)
      (omega arith) (omega arith) (omega arith) (some 1)

get_timestamp-get_gmt_time_str_example :
    get_timestamp http_format (get_gmt_time_str layout_time) ≡ some 1136214245
unfolding days_in
get_timestamp-get_gmt_time_str_example =
    get_timestamp-get_gmt_time_str layout_time (omega arith) (omega arith) (omega arith)
      (omega arith) (omega arith) (omega arith) (omega arith) refl

-- 2006-01-02T15:04:05.000Z
abbrev utc_bytes : List ℕ
utc_bytes =
    50 ∷ 48 ∷ 48 ∷ 54 ∷ 45 ∷ 48 ∷ 49 ∷ 45 ∷ 48 ∷ 50 ∷ 84 ∷ 49 ∷ 53 ∷ 58 ∷ 48 ∷ 52 ∷ 58 ∷ 48 ∷ 53
    ∷ 46 ∷ 48 ∷ 48 ∷ 48 ∷ 90 ∷ []

cached_gmt_time_str-fresh_example :
    (cached_gmt_time_str
      (λ t. layout_time)
      5
      (cached_run (λ t. layout_time) (5 ∷ 6 ∷ []) first_cached)).1
    ≡ get_gmt_time_str layout_time
cached_gmt_time_str-fresh_example =
    cached_gmt_time_str-fresh (λ t. layout_time) (5 ∷ 6 ∷ []) 5 (omega arith)

-- A!M, 01 !an 2006 00:00:00 GMT
abbrev no_names : List ℕ
no_names =
    65 ∷ 33 ∷ 77 ∷ 44 ∷ 32 ∷ 48 ∷ 49 ∷ 32 ∷ 33 ∷ 97 ∷ 110 ∷ 32 ∷ 50 ∷ 48 ∷ 48 ∷ 54 ∷ 32 ∷ 48 ∷ 48
    ∷ 58 ∷ 48 ∷ 48 ∷ 58 ∷ 48 ∷ 48 ∷ 32 ∷ 71 ∷ 77 ∷ 84 ∷ []

no_names_accepted : get_timestamp http_format no_names ≡ some 1136073600
unfolding get_timestamp
no_names_accepted = refl
