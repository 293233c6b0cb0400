-- ===== src/TimeUtil/Calendar.antt =====
-- coro_apps/util/time_util.h: the tables, `is_leap`, `days_in`, `days_since_epoch`,
-- `faster_mktime`. Years are not negative here: `get_timestamp` reads four digits. An index of -1
-- is `none`. A `std::uint64_t` wraps, and a `std::time_t` is its 64-bit pattern.
pub mod Days
pub mod Mktime
use Prim.Native.Nat.{bit_xor}
use async_framework.Prelude.{
  ℕ, ◌+◌, ◌-◌, ◌*◌, ◌/◌, ◌%◌, ◌^◌, Bool, true, false, not, ◌&&◌, ◌||◌, Option, none, some, List, [],
  ◌∷◌, leb, ltb, ◌==◌, if◌then◌else◌, get_or,
}

abbrev pub u64 : ℕ → ℕ
u64 n = n % 2 ^ 64

-- A `char` is signed: as an integer of 64 bits.
abbrev pub char_code : ℕ → ℕ
char_code c = if ltb c 128 then c else c + (2 ^ 64 - 256)

-- c & ~0x20
abbrev pub upper : ℕ → ℕ
upper c = c - 32 * (c / 32 % 2)

abbrev pub month_table : List (Option ℕ)
month_table =
    some 11
    ∷ some 4
    ∷ none
    ∷ some 7
    ∷ none
    ∷ none
    ∷ none
    ∷ some 0
    ∷ some 6
    ∷ some 3
    ∷ some 5
    ∷ some 2
    ∷ some 10
    ∷ some 8
    ∷ none
    ∷ some 9
    ∷ some 1
    ∷ []

abbrev pub week_table : List (Option ℕ)
week_table =
    some 2
    ∷ some 4
    ∷ some 3
    ∷ some 1
    ∷ none
    ∷ none
    ∷ none
    ∷ some 6
    ∷ none
    ∷ none
    ∷ none
    ∷ none
    ∷ some 0
    ∷ none
    ∷ none
    ∷ some 5
    ∷ none
    ∷ []

abbrev pub byte_at : List ℕ → ℕ → ℕ
byte_at s i = get_or s i 0

-- Both are called on three bytes.
unfoldable pub get_day_index : List ℕ → Option ℕ
get_day_index s =
    get_or week_table
      (bit_xor (upper (char_code (byte_at s 0))) (upper (char_code (byte_at s 2))) % 17) none

unfoldable pub get_month_index : List ℕ → Option ℕ
get_month_index s =
    get_or month_table
      (u64 (upper (char_code (byte_at s 1)) + upper (char_code (byte_at s 2))) % 17) none

abbrev pub days_before : List ℕ
days_before = 0 ∷ 31 ∷ 59 ∷ 90 ∷ 120 ∷ 151 ∷ 181 ∷ 212 ∷ 243 ∷ 273 ∷ 304 ∷ 334 ∷ 365 ∷ []

unfoldable pub is_leap : ℕ → Bool
is_leap year = year % 4 == 0 && (not (year % 100 == 0) || year % 400 == 0)

-- A month is its index, 0 for January.
unfoldable pub days_in : ℕ → ℕ → ℕ
unfolding is_leap
days_in m year =
    if m == 1 && is_leap year then 29 else get_or days_before (m + 1) 0 - get_or days_before m 0

abbrev pub days_per_400_years : ℕ
days_per_400_years = 365 * 400 + 97

abbrev pub days_per_100_years : ℕ
days_per_100_years = 365 * 100 + 24

abbrev pub days_per_4_years : ℕ
days_per_4_years = 365 * 4 + 1

abbrev pub seconds_per_minute : ℕ
seconds_per_minute = 60

abbrev pub seconds_per_hour : ℕ
seconds_per_hour = 60 * seconds_per_minute

abbrev pub seconds_per_day : ℕ
seconds_per_day = 24 * seconds_per_hour

abbrev pub seconds_per_week : ℕ
seconds_per_week = 7 * seconds_per_day

-- -absolute_zero_year
abbrev pub zero_year : ℕ
zero_year = 292277022399

-- -absolute_to_internal: `365.2425 * seconds_per_day` is 31556952 in a double, too.
abbrev pub absolute_to_internal : ℕ
absolute_to_internal = (zero_year + 1) * 31556952

abbrev pub unix_to_internal : ℕ
unix_to_internal = (1969 * 365 + 1969 / 4 - 1969 / 100 + 1969 / 400) * seconds_per_day

-- Days from January 1 of `absolute_zero_year` to January 1 of `year`.
unfoldable pub days_since_epoch : ℕ → ℕ
days_since_epoch year =
    let y = u64 (year + zero_year) in
    let y400 = y - 400 * (y / 400) in
    let y100 = y400 - 100 * (y400 / 100) in
    let y4 = y100 - 4 * (y100 / 4) in
    u64 (
      u64 (
        u64 (u64 (days_per_400_years * (y / 400)) + days_per_100_years * (y400 / 100))
        + days_per_4_years * (y100 / 4))
      + 365 * y4)

-- The days up to the day itself.
abbrev pub day_number : ℕ → ℕ → ℕ → ℕ
day_number year month day =
    let d = u64 (days_since_epoch year + get_or days_before month 0) in
    let d' = if is_leap year && leb 2 month then u64 (d + 1) else d in u64 (d' + (day - 1))

unfoldable pub absolute_seconds : ℕ → ℕ → ℕ → ℕ → ℕ → ℕ → ℕ
unfolding days_since_epoch is_leap
absolute_seconds year month day hour min sec = u64 (
    u64 (day_number year month day * seconds_per_day)
    + (hour * seconds_per_hour + min * seconds_per_minute + sec))

-- The day of the week, 0 for Sunday.
unfoldable pub weekday : ℕ → ℕ
weekday abs = u64 (abs + 1 * seconds_per_day) % seconds_per_week / seconds_per_day

abbrev pub to_unix : ℕ → ℕ
to_unix abs = u64 (abs + (2 ^ 64 - (absolute_to_internal + unix_to_internal)))

-- `{false, 0}` is `none`. Without a day name there is no check of it.
unfoldable pub faster_mktime : ℕ → ℕ → ℕ → ℕ → ℕ → ℕ → Option ℕ → Option ℕ
unfolding absolute_seconds weekday
faster_mktime year month day hour min sec none =
    some (to_unix (absolute_seconds year month day hour min sec))
faster_mktime year month day hour min sec (some day_of_week) =
    let abs = absolute_seconds year month day hour min sec in
    if weekday abs == day_of_week then some (to_unix abs) else none
