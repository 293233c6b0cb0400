-- ===== src/TimeUtil/RoundTrip/Http.antt =====
-- The HTTP date: what is written, read component by component.
use async_framework.Prelude.{
  ℕ, zero, suc, ◌+◌, ◌/◌, ◌%◌, ◌<◌, ◌≤◌, ◌≡◌, ap, ◌∙◌, false, arith, some, none, List, [], ◌∷◌,
  if◌then◌else◌, get_or, leb, leb-false, ltb, ltb-false, ◌==◌, sym,
}
use async_framework.TimeUtil.Parse.{
  Parsed, Component, get_digit, travel, read_component, read_digits, read_mark, mark, store_digit,
  is_gmt, get_format, http_format, started, day_name, comma, sp, day, month_name, year, hour, colon,
  minute, second, gmt, ending, get_timestamp, finish, ◌>>=◌,
}
use async_framework.TimeUtil.Calendar.{get_day_index, get_month_index, days_in, faster_mktime}
use async_framework.TimeUtil.Calendar.Mktime.{
  date_days, day_seconds, unix_time, faster_mktime-unix_time,
}
use async_framework.TimeUtil.Calendar.Days.{month_length, days_in-month_length}
use async_framework.TimeUtil.Print.{
  Tm, digits, wday, ymon, to_int_from, to_int, convert, write, get_local_time_str, get_gmt_time_str,
}
use async_framework.TimeUtil.RoundTrip.Names.{
  wday-bytes, ymon-bytes, get_day_index-wday, get_month_index-ymon,
}
use async_framework.TimeUtil.RoundTrip.Digits.{get_digit-to_int_from}

module _ (a b c d e p q r y₁ y₂ y₃ y₄ h₁ h₂ m₁ m₂ s₁ s₂ : ℕ) where
  -- The 29 bytes of an HTTP date.
  abbrev http_text : List ℕ
  http_text =
      a ∷ b ∷ c ∷ 44 ∷ 32 ∷ d ∷ e ∷ 32 ∷ p ∷ q ∷ r ∷ 32 ∷ y₁ ∷ y₂ ∷ y₃ ∷ y₄ ∷ 32 ∷ h₁ ∷ h₂ ∷ 58 ∷ m₁
      ∷ m₂ ∷ 58 ∷ s₁ ∷ s₂ ∷ 32 ∷ 71 ∷ 77 ∷ 84 ∷ []

  module _ (yr mo dy hr mi se dw : ℕ) where
    abbrev read_date : Parsed
    read_date = record {
      year = yr;
      month = mo;
      day = dy;
      hour = 0;
      min = 0;
      sec = 0;
      day_of_week = some dw;
      len_of_processed_part = 17;
      len_of_ignored_part = 0;
    }

    abbrev read_time : Parsed
    read_time = record {
      year = yr;
      month = mo;
      day = dy;
      hour = hr;
      min = mi;
      sec = se;
      day_of_week = some dw;
      len_of_processed_part = 29;
      len_of_ignored_part = 0;
    }

    travel-date :
        (comps : List Component)
        → get_day_index (a ∷ b ∷ c ∷ []) ≡ some dw
        → get_digit (d ∷ e ∷ []) 2 ≡ some dy
        → get_month_index (p ∷ q ∷ r ∷ []) ≡ some mo
        → get_digit (y₁ ∷ y₂ ∷ y₃ ∷ y₄ ∷ []) 4 ≡ some yr
        → travel
            (day_name ∷ comma ∷ sp ∷ day ∷ sp ∷ month_name ∷ sp ∷ year ∷ sp ∷ comps)
            http_text
            started
          ≡ travel comps http_text read_date
    unfolding travel read_component read_digits read_mark mark store_digit
    travel-date comps ew ed em ey = rw (ew, ed, em, ey)

    travel-time :
        get_digit (h₁ ∷ h₂ ∷ []) 2 ≡ some hr
        → leb 24 hr ≡ false
        → get_digit (m₁ ∷ m₂ ∷ []) 2 ≡ some mi
        → leb 60 mi ≡ false
        → get_digit (s₁ ∷ s₂ ∷ []) 2 ≡ some se
        → leb 60 se ≡ false
        → travel
            (hour ∷ colon ∷ minute ∷ colon ∷ second ∷ sp ∷ gmt ∷ ending ∷ [])
            http_text
            read_date
          ≡ some read_time
    unfolding travel read_component read_digits read_mark mark store_digit is_gmt
    travel-time eh hh ei hi es hs = rw (eh, hh, ei, hi, es, hs)

    finish-read_time :
        ltb dy 1 ≡ false
        → ltb (days_in mo yr) dy ≡ false
        → finish http_text read_time ≡ faster_mktime yr mo dy hr mi se (some dw)
    unfolding finish
    finish-read_time e₁ e₂ = rw (e₁, e₂)

    get_timestamp-http_text :
        get_day_index (a ∷ b ∷ c ∷ []) ≡ some dw
        → get_digit (d ∷ e ∷ []) 2 ≡ some dy
        → get_month_index (p ∷ q ∷ r ∷ []) ≡ some mo
        → get_digit (y₁ ∷ y₂ ∷ y₃ ∷ y₄ ∷ []) 4 ≡ some yr
        → get_digit (h₁ ∷ h₂ ∷ []) 2 ≡ some hr
        → hr < 24
        → get_digit (m₁ ∷ m₂ ∷ []) 2 ≡ some mi
        → mi < 60
        → get_digit (s₁ ∷ s₂ ∷ []) 2 ≡ some se
        → se < 60
        → 1 ≤ dy
        → dy ≤ days_in mo yr
        → get_timestamp http_format http_text ≡ faster_mktime yr mo dy hr mi se (some dw)
    unfolding get_timestamp get_format
    get_timestamp-http_text ew ed em ey eh hh ei hi es hs l₁ l₂ =
        ap (λ o. o >>= finish http_text)
          (travel-date (hour ∷ colon ∷ minute ∷ colon ∷ second ∷ sp ∷ gmt ∷ ending ∷ []) ew ed em ey
            ∙ travel-time eh (leb-false 24 hr hh) ei (leb-false 60 mi hi) es (leb-false 60 se hs))
        ∙ finish-read_time (ltb-false dy 1 l₁) (ltb-false (days_in mo yr) dy l₂)

if-same : (a b x y : ℕ) → b ≡ a → x ≡ y → (if a == b then some x else none) ≡ some y
if-same a b x y e h = ground (arith, e, h)

pub days_in-le : (m y : ℕ) → m < 12 → days_in m y ≤ 31
unfolding days_in
days_in-le zero y h = ground arith
days_in-le (suc zero) y h = ground arith
days_in-le (suc (suc zero)) y h = ground arith
days_in-le (suc (suc (suc zero))) y h = ground arith
days_in-le (suc (suc (suc (suc zero)))) y h = ground arith
days_in-le (suc (suc (suc (suc (suc zero))))) y h = ground arith
days_in-le (suc (suc (suc (suc (suc (suc zero)))))) y h = ground arith
days_in-le (suc (suc (suc (suc (suc (suc (suc zero))))))) y h = ground arith
days_in-le (suc (suc (suc (suc (suc (suc (suc (suc zero)))))))) y h = ground arith
days_in-le (suc (suc (suc (suc (suc (suc (suc (suc (suc zero))))))))) y h = ground arith
days_in-le (suc (suc (suc (suc (suc (suc (suc (suc (suc (suc zero)))))))))) y h = ground arith
days_in-le (suc (suc (suc (suc (suc (suc (suc (suc (suc (suc (suc zero))))))))))) y h = ground arith
days_in-le (suc (suc (suc (suc (suc (suc (suc (suc (suc (suc (suc (suc m)))))))))))) y h =
    omega arith

module _ (tm : Tm) where
  abbrev byte : List (List ℕ) → ℕ → ℕ → ℕ
  byte names n i = get_or (get_or names n []) i 0

  -- Digit `i` from the right.
  abbrev digit : ℕ → ℕ
  digit num = get_or digits (num % 10) 48

  get_two : (n : ℕ) → n < 100 → get_digit (digit (n / 10) ∷ digit n ∷ []) 2 ≡ some n
  unfolding to_int_from
  get_two n h = get_digit-to_int_from 2 n [] h

  get_four :
      (n : ℕ)
      → n < 10000
      → get_digit (digit (n / 10 / 10 / 10) ∷ digit (n / 10 / 10) ∷ digit (n / 10) ∷ digit n ∷ []) 4
        ≡ some n
  unfolding to_int_from
  get_four n h = get_digit-to_int_from 4 n [] h

  abbrev text : List ℕ
  text =
      let w = tm.tm_wday in
      let m = tm.tm_mon in
      let y = tm.tm_year + 1900 in
      http_text (byte wday w 0) (byte wday w 1) (byte wday w 2) (digit (tm.tm_mday / 10))
        (digit tm.tm_mday) (byte ymon m 0) (byte ymon m 1) (byte ymon m 2)
        (digit (y / 10 / 10 / 10)) (digit (y / 10 / 10)) (digit (y / 10)) (digit y)
        (digit ((tm.tm_hour + 0) / 10)) (digit (tm.tm_hour + 0)) (digit (tm.tm_min / 10))
        (digit tm.tm_min) (digit (tm.tm_sec / 10)) (digit tm.tm_sec)

  get_gmt_time_str-text : tm.tm_wday < 7 → tm.tm_mon < 12 → get_gmt_time_str tm ≡ text
  unfolding get_gmt_time_str get_local_time_str write convert to_int to_int_from
  get_gmt_time_str-text hw hm = rw (wday-bytes tm.tm_wday hw, ymon-bytes tm.tm_mon hm)

  abbrev days : ℕ
  days = date_days (tm.tm_year + 1900) tm.tm_mon tm.tm_mday

  abbrev seconds : ℕ
  seconds = day_seconds tm.tm_hour tm.tm_min tm.tm_sec

  -- The HTTP date written for a broken-down time of a year from 1900 to 9999, with its fields in
  -- range and the day name of that day, is accepted and read back as the time's seconds since 1970,
  -- counted by the days of the months and the leap years of the calendar.
  pub get_timestamp-get_gmt_time_str :
      tm.tm_year + 1900 < 10000
      → tm.tm_mon < 12
      → 1 ≤ tm.tm_mday
      → tm.tm_mday ≤ month_length (tm.tm_year + 1900) tm.tm_mon
      → tm.tm_hour < 24
      → tm.tm_min < 60
      → tm.tm_sec < 60
      → tm.tm_wday ≡ (days + 6) % 7
      → get_timestamp http_format (get_gmt_time_str tm) ≡ some (unix_time days seconds)
  get_timestamp-get_gmt_time_str hy hm hd₁ hd₂ hh hi hs hw =
      let hd₂' : tm.tm_mday ≤ days_in tm.tm_mon (tm.tm_year + 1900) =
        rw (days_in-month_length (tm.tm_year + 1900) tm.tm_mon hm) hd₂ in
      let hd : tm.tm_mday ≤ 31 = omega (arith, hd₂', days_in-le tm.tm_mon (tm.tm_year + 1900) hm) in
      let hn : (days + 6) % 7 < 7 = omega arith in
      ap (get_timestamp http_format) (get_gmt_time_str-text (omega (arith, hw, hn)) hm)
      ∙ get_timestamp-http_text _ _ _ _ _ _ _ _ _ _ _ _ _ _ _ _ _ _ (tm.tm_year + 1900) tm.tm_mon
          tm.tm_mday (tm.tm_hour + 0) tm.tm_min tm.tm_sec tm.tm_wday
          (ap get_day_index (sym (wday-bytes tm.tm_wday (omega (arith, hw, hn))))
            ∙ get_day_index-wday tm.tm_wday (omega (arith, hw, hn)))
          (get_two tm.tm_mday (omega (arith, hd)))
          (ap get_month_index (sym (ymon-bytes tm.tm_mon hm)) ∙ get_month_index-ymon tm.tm_mon hm)
          (get_four (tm.tm_year + 1900) hy) (get_two (tm.tm_hour + 0) (omega arith)) (omega arith)
          (get_two tm.tm_min (omega arith)) hi (get_two tm.tm_sec (omega arith)) hs hd₁ hd₂'
      ∙ faster_mktime-unix_time (tm.tm_year + 1900) tm.tm_mon tm.tm_mday (tm.tm_hour + 0) tm.tm_min
          tm.tm_sec hy hm hd₁ hd (omega arith) hi hs (some tm.tm_wday)
      ∙ if-same ((days + 6) % 7) tm.tm_wday
          (unix_time days (day_seconds (tm.tm_hour + 0) tm.tm_min tm.tm_sec))
          (unix_time days seconds) hw
          (ap (λ h. unix_time days (day_seconds h tm.tm_min tm.tm_sec)) (omega arith))
