-- ===== src/TimeUtil/Parse.antt =====
-- coro_apps/util/time_util.h: `get_format`, `get_digit`, `get_timestamp`. A string is the list of
-- its bytes, -1 and `{false, 0}` are `none`. A local without an initial value starts as 0: every
-- format sets each of them before it is read.
use async_framework.Prelude.{
  ℕ, zero, suc, ◌+◌, ◌-◌, ◌*◌, Bool, false, not, ◌&&◌, ◌||◌, Option, none, some, List, [], ◌∷◌, leb,
  ltb, ◌==◌, if◌then◌else◌, length, take, drop, get_or,
}
use async_framework.TimeUtil.Calendar.{get_day_index, get_month_index, days_in, faster_mktime}

pub data Component : Type 0 where
  day_name day month_name month year hour minute second second_decimal_part : Component
  sp comma colon hyphen dot gmt t z ending : Component

pub data TimeFormat : Type 0 where
  http_format utc_format utc_without_punctuation_format : TimeFormat

unfoldable pub get_format : TimeFormat → List Component
get_format http_format =
    day_name ∷ comma ∷ sp ∷ day ∷ sp ∷ month_name ∷ sp ∷ year ∷ sp ∷ hour ∷ colon ∷ minute ∷ colon
    ∷ second ∷ sp ∷ gmt ∷ ending ∷ []
get_format utc_format =
    year ∷ hyphen ∷ month ∷ hyphen ∷ day ∷ t ∷ hour ∷ colon ∷ minute ∷ colon ∷ second ∷ dot
    ∷ second_decimal_part ∷ z ∷ ending ∷ []
get_format utc_without_punctuation_format =
    year ∷ month ∷ day ∷ t ∷ hour ∷ minute ∷ second ∷ second_decimal_part ∷ z ∷ ending ∷ []

abbrev pub is_digit : ℕ → Bool
is_digit c = leb 48 c && leb c 57

-- The loop of `get_digit`. Its callers give at least `width` bytes.
unfoldable pub get_digit_from : ℕ → List ℕ → ℕ → Option ℕ
get_digit_from num sv zero = some num
get_digit_from num [] (suc width) = none
get_digit_from num (c ∷ sv) (suc width) =
    let rest = get_digit_from (num * 10 + (c - 48)) sv width in if is_digit c then rest else none

unfoldable pub get_digit : List ℕ → ℕ → Option ℕ
unfolding get_digit_from
get_digit sv width = get_digit_from 0 sv width

-- The locals of `get_timestamp`.
pub record Parsed : Type 0 where
  pub year : ℕ
  pub month : ℕ
  pub day : ℕ
  pub hour : ℕ
  pub min : ℕ
  pub sec : ℕ
  pub day_of_week : Option ℕ
  pub len_of_processed_part : ℕ
  pub len_of_ignored_part : ℕ

abbrev pub started : Parsed
started = record {
  year = 0;
  month = 0;
  day = 0;
  hour = 0;
  min = 0;
  sec = 0;
  day_of_week = none;
  len_of_processed_part = 0;
  len_of_ignored_part = 0;
}

abbrev pub advance : ℕ → Parsed → Parsed
advance n p = record p { len_of_processed_part = p.len_of_processed_part + n }

-- The byte a punctuation component stands for.
unfoldable pub mark : Component → ℕ
mark z = 90
mark t = 84
mark dot = 46
mark hyphen = 45
mark sp = 32
mark colon = 58
mark comma = 44
mark _ = 0

unfoldable pub read_mark : Component → List ℕ → Parsed → Option Parsed
unfolding mark
read_mark comp sv p =
    if ltb (length sv - p.len_of_processed_part) 1
    then none
    else if get_or sv p.len_of_processed_part 0 == mark comp
    then some (advance 1 p)
    else none

-- sv.substr(len_of_processed_part, n), where that many bytes are left.
abbrev pub piece : List ℕ → Parsed → ℕ → Option (List ℕ)
piece sv p n =
    if ltb (length sv - p.len_of_processed_part) n
    then none
    else some (take n (drop p.len_of_processed_part sv))

-- A field of two digits, after its range check.
unfoldable pub store_digit : Component → ℕ → Parsed → Option Parsed
store_digit hour digit p =
    if leb 24 digit then none else some (advance 2 (record p { hour = digit }))
store_digit minute digit p =
    if leb 60 digit then none else some (advance 2 (record p { min = digit }))
store_digit month digit p =
    if ltb digit 1 || ltb 12 digit then none else some (advance 2 (record p { month = digit - 1 }))
store_digit second digit p =
    if leb 60 digit then none else some (advance 2 (record p { sec = digit }))
store_digit _ digit p = some (advance 2 (record p { day = digit }))

infixl 5 ◌>>=◌
abbrev pub ◌>>=◌ {ℓ κ} : {A : Type ℓ} {B : Type κ} → Option A → (A → Option B) → Option B
none >>= f = none
some x >>= f = f x

unfoldable pub read_digits : Component → List ℕ → Parsed → Option Parsed
unfolding get_digit store_digit
read_digits comp sv p = do text ← piece sv p 2; digit ← get_digit text 2; store_digit comp digit p

-- The digits at the front, the loop of `second_decimal_part`.
unfoldable pub count_digits : List ℕ → ℕ
count_digits [] = 0
count_digits (c ∷ sv) = let rest = count_digits sv in if is_digit c then suc rest else 0

unfoldable pub is_gmt : List ℕ → Bool
is_gmt (c ∷ d ∷ e ∷ []) = c == 71 && (d == 77 && e == 84)
is_gmt _ = false

-- One turn of the loop; `ending` leaves it before.
unfoldable pub read_component : Component → List ℕ → Parsed → Option Parsed
unfolding get_digit read_mark read_digits store_digit count_digits is_gmt get_day_index
    get_month_index
read_component ending sv p = some p
read_component year sv p = do
  text ← piece sv p 4
  n ← get_digit text 4
  some (advance 4 (record p { year = n }))
read_component month_name sv p = do
  text ← piece sv p 3
  n ← get_month_index text
  some (advance 3 (record p { month = n }))
read_component day_name sv p = do
  text ← piece sv p 3
  n ← get_day_index text
  some (advance 3 (record p { day_of_week = some n }))
read_component gmt sv p = do text ← piece sv p 3; if is_gmt text then some (advance 3 p) else none
read_component second_decimal_part sv p =
    let n = count_digits (drop p.len_of_processed_part sv) in
    if n == 0
    then none
    else some (advance n (record p { len_of_ignored_part = p.len_of_ignored_part + n }))
read_component hour sv p = read_digits hour sv p
read_component minute sv p = read_digits minute sv p
read_component second sv p = read_digits second sv p
read_component month sv p = read_digits month sv p
read_component day sv p = read_digits day sv p
read_component comp sv p = read_mark comp sv p

unfoldable pub travel : List Component → List ℕ → Parsed → Option Parsed
unfolding read_component
travel [] sv p = some p
travel (ending ∷ comps) sv p = some p
travel (comp ∷ comps) sv p = do q ← read_component comp sv p; travel comps sv q

abbrev pub len_of_http_time_format : ℕ
len_of_http_time_format = 3 + 1 + 1 + 2 + 1 + 3 + 1 + 4 + 1 + 2 + 1 + 2 + 1 + 2 + 1 + 3

abbrev pub len_of_utc_time_format : ℕ
len_of_utc_time_format = 4 + 1 + 2 + 1 + 2 + 1 + 2 + 1 + 2 + 1 + 2 + 1 + 0 + 1

abbrev pub len_of_utc_time_without_punctuation_format : ℕ
len_of_utc_time_without_punctuation_format = 4 + 2 + 2 + 1 + 2 + 2 + 2 + 0 + 1

-- Whether the lengths fit one of the formats, and all of the string is processed.
abbrev pub has_length : List ℕ → Parsed → Bool
has_length sv p =
    let counted = p.len_of_processed_part - p.len_of_ignored_part in
    p.len_of_processed_part == length sv
    && (p.len_of_processed_part == len_of_http_time_format
        || (counted == len_of_utc_time_format
            || counted == len_of_utc_time_without_punctuation_format))

-- After `travel_done`.
unfoldable pub finish : List ℕ → Parsed → Option ℕ
unfolding days_in faster_mktime
finish sv p =
    if not (has_length sv p)
    then none
    else if ltb p.day 1 || ltb (days_in p.month p.year) p.day
    then none
    else faster_mktime p.year p.month p.day p.hour p.min p.sec p.day_of_week

unfoldable pub get_timestamp : TimeFormat → List ℕ → Option ℕ
unfolding get_format travel finish
get_timestamp format sv = do p ← travel (get_format format) sv started; finish sv p
