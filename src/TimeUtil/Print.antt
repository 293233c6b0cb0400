-- ===== src/TimeUtil/Print.antt =====
-- coro_apps/util/time_util.h: `to_int`, `get_local_time_str` and `get_gmt_time_str` on a buffer.
-- The bytes written are a list, and the `struct tm` that `gmtime` gives is an argument.
use async_framework.Prelude.{
  ℕ, zero, suc, ◌+◌, ◌-◌, ◌/◌, ◌%◌, Bool, true, false, List, [], ◌∷◌, ◌++◌, ◌==◌, if◌then◌else◌,
  length, take, get_or,
}

pub record Tm : Type 0 where
  pub tm_year : ℕ
  pub tm_mon : ℕ
  pub tm_mday : ℕ
  pub tm_hour : ℕ
  pub tm_min : ℕ
  pub tm_sec : ℕ
  pub tm_wday : ℕ

abbrev pub digits : List ℕ
digits = 48 ∷ 49 ∷ 50 ∷ 51 ∷ 52 ∷ 53 ∷ 54 ∷ 55 ∷ 56 ∷ 57 ∷ []

abbrev pub wday : List (List ℕ)
wday =
    (83 ∷ 117 ∷ 110 ∷ [])
    ∷ (77 ∷ 111 ∷ 110 ∷ [])
    ∷ (84 ∷ 117 ∷ 101 ∷ [])
    ∷ (87 ∷ 101 ∷ 100 ∷ [])
    ∷ (84 ∷ 104 ∷ 117 ∷ [])
    ∷ (70 ∷ 114 ∷ 105 ∷ [])
    ∷ (83 ∷ 97 ∷ 116 ∷ [])
    ∷ []

abbrev pub ymon : List (List ℕ)
ymon =
    (74 ∷ 97 ∷ 110 ∷ [])
    ∷ (70 ∷ 101 ∷ 98 ∷ [])
    ∷ (77 ∷ 97 ∷ 114 ∷ [])
    ∷ (65 ∷ 112 ∷ 114 ∷ [])
    ∷ (77 ∷ 97 ∷ 121 ∷ [])
    ∷ (74 ∷ 117 ∷ 110 ∷ [])
    ∷ (74 ∷ 117 ∷ 108 ∷ [])
    ∷ (65 ∷ 117 ∷ 103 ∷ [])
    ∷ (83 ∷ 101 ∷ 112 ∷ [])
    ∷ (79 ∷ 99 ∷ 116 ∷ [])
    ∷ (78 ∷ 111 ∷ 118 ∷ [])
    ∷ (68 ∷ 101 ∷ 99 ∷ [])
    ∷ []

-- The loop of `to_int`, which fills from the right.
unfoldable pub to_int_from : ℕ → ℕ → List ℕ → List ℕ
to_int_from zero num written = written
to_int_from (suc n) num written = to_int_from n (num / 10) (get_or digits (num % 10) 48 ∷ written)

unfoldable pub to_int : ℕ → ℕ → ℕ → List ℕ
unfolding to_int_from
to_int n num c = to_int_from n num (c ∷ [])

-- What one conversion writes, `c` the byte after it in the format.
unfoldable pub convert : ℕ → Tm → ℕ → ℕ → List ℕ
unfolding to_int
convert hours tm spec c =
    if spec == 89
    then to_int 4 (tm.tm_year + 1900) c
    else if spec == 109
    then to_int 2 (tm.tm_mon + 1) c
    else if spec == 100
    then to_int 2 (tm.tm_mday) c
    else if spec == 72
    then to_int 2 (tm.tm_hour + hours) c
    else if spec == 77
    then to_int 2 (tm.tm_min) c
    else if spec == 83
    then to_int 2 (tm.tm_sec) c
    else if spec == 97
    then get_or wday (tm.tm_wday) [] ++ c ∷ 32 ∷ []
    else if spec == 98
    then get_or ymon (tm.tm_mon) [] ++ c ∷ []
    else []

-- The loop over the format; the flag says that a `%` precedes. A byte outside a conversion writes
-- nothing: it is written by the conversion before it.
unfoldable pub write : ℕ → Tm → Bool → List ℕ → List ℕ
unfolding convert
write hours tm percent [] = []
write hours tm false (b ∷ format) = write hours tm (b == 37) format
write hours tm true (spec ∷ format) =
    convert hours tm spec (get_or format 0 48) ++ write hours tm false format

-- The byte after the last conversion is not part of the result. Some conversion has written.
unfoldable pub get_local_time_str : ℕ → Tm → List ℕ → List ℕ
unfolding write
get_local_time_str hours tm format =
    let buf = write hours tm false format in take (length buf - 1) buf

-- "%a, %d %b %Y %H:%M:%S"
abbrev pub http_print_format : List ℕ
http_print_format =
    37 ∷ 97 ∷ 44 ∷ 32 ∷ 37 ∷ 100 ∷ 32 ∷ 37 ∷ 98 ∷ 32 ∷ 37 ∷ 89 ∷ 32 ∷ 37 ∷ 72 ∷ 58 ∷ 37 ∷ 77 ∷ 58
    ∷ 37 ∷ 83 ∷ []

-- "%Y-%m-%d %H:%M:%S"
abbrev pub log_print_format : List ℕ
log_print_format =
    37 ∷ 89 ∷ 45 ∷ 37 ∷ 109 ∷ 45 ∷ 37 ∷ 100 ∷ 32 ∷ 37 ∷ 72 ∷ 58 ∷ 37 ∷ 77 ∷ 58 ∷ 37 ∷ 83 ∷ []

unfoldable pub get_gmt_time_str : Tm → List ℕ
unfolding get_local_time_str
get_gmt_time_str tm = get_local_time_str 0 tm http_print_format ++ 32 ∷ 71 ∷ 77 ∷ 84 ∷ []
