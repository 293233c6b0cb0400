-- ===== src/TimeUtil/RoundTrip/Fields.antt =====
-- Which bytes of a text `get_timestamp` takes each field from.
use async_framework.Prelude.{
  ℕ, zero, suc, ◌+◌, ◌-◌, ◌*◌, ◌≡◌, refl, sym, ap, ◌∙◌, ◌⊎◌, inl, inr, Option, none, some, List, [],
  ◌∷◌, length, get_or, take, drop, ltb,
}
use mathlib.Core.Path.{subst}
use mathlib.Core.Option.{none-ne-some, some-injective}
use async_framework.TimeUtil.Calendar.{get_month_index, get_day_index}
use async_framework.TimeUtil.Parse.{
  Component, hour, minute, month, second, day, year, month_name, day_name, gmt, second_decimal_part,
  ending, read_component, read_mark, read_digits, store_digit, get_digit, get_digit_from, piece,
  is_digit, Parsed, started, TimeFormat, http_format, utc_format, utc_without_punctuation_format,
  get_format, advance, count_digits, travel,
}
use async_framework.TimeUtil.RoundTrip.Accepted.{bind-some, else_some, then_some}

-- The number that the `width` digits from byte `i` on make after those of `num`.
abbrev pub number : ℕ → List ℕ → ℕ → ℕ → ℕ
number num sv i zero = num
number num sv i (suc width) = number (num * 10 + (get_or sv i 0 - 48)) sv (suc i) width

drop-cases :
    (sv : List ℕ) (i : ℕ) → (drop i sv ≡ []) ⊎ (drop i sv ≡ get_or sv i 0 ∷ drop (suc i) sv)
drop-cases [] zero = inl refl
drop-cases [] (suc i) = inl refl
drop-cases (c ∷ sv) zero = inr refl
drop-cases (c ∷ sv) (suc i) = drop-cases sv i

get_digit_from-number :
    (width num i : ℕ) (sv : List ℕ) (n : ℕ)
    → get_digit_from num (take width (drop i sv)) width ≡ some n
    → n ≡ number num sv i width
unfolding get_digit_from
get_digit_from-number zero num i sv n e = sym (some-injective num n e)
get_digit_from-number (suc width) num i sv n e = elim (drop-cases sv i) [
  | inl over ↦ absurd (none-ne-some n (rw over at e))
  | inr more ↦
      get_digit_from-number width (num * 10 + (get_or sv i 0 - 48)) (suc i) sv n
        (then_some (is_digit (get_or sv i 0)) _ n (rw more at e))
]

piece-take :
    (sv : List ℕ) (p : Parsed) (n : ℕ) (text : List ℕ)
    → piece sv p n ≡ some text
    → take n (drop p.len_of_processed_part sv) ≡ text
piece-take sv p n text e =
    some-injective _ text (else_some (ltb (length sv - p.len_of_processed_part) n) _ text e)

-- The index of a name, or 12.
abbrev pub named : Option ℕ → ℕ
named (some n) = n
named none = 12

abbrev two : List ℕ → Parsed → ℕ
two sv p = number 0 sv p.len_of_processed_part 2

-- What a component makes of the next bytes, if it accepts them.
abbrev placed : Component → List ℕ → Parsed → Parsed
placed ending sv p = p
placed year sv p = advance 4 (record p { year = number 0 sv p.len_of_processed_part 4 })
placed month_name sv p =
    let text = take 3 (drop p.len_of_processed_part sv) in
    advance 3 (record p { month = named (get_month_index text) })
placed day_name sv p =
    let text = take 3 (drop p.len_of_processed_part sv) in
    advance 3 (record p { day_of_week = get_day_index text })
placed gmt sv p = advance 3 p
placed second_decimal_part sv p =
    let n = count_digits (drop p.len_of_processed_part sv) in
    advance n (record p { len_of_ignored_part = p.len_of_ignored_part + n })
placed hour sv p = advance 2 (record p { hour = two sv p })
placed minute sv p = advance 2 (record p { min = two sv p })
placed second sv p = advance 2 (record p { sec = two sv p })
placed month sv p = advance 2 (record p { month = two sv p - 1 })
placed day sv p = advance 2 (record p { day = two sv p })
placed _ sv p = advance 1 p

digits_read :
    (comp : Component) (sv : List ℕ) (p q : Parsed)
    → read_digits comp sv p ≡ some q
    → store_digit comp (two sv p) p ≡ some q
unfolding read_digits get_digit
digits_read comp sv p q e =
    let (text, f, g) = bind-some (piece sv p 2) _ q e in
    let (d, h, s) = bind-some (get_digit text 2) _ q g in
    let same =
      get_digit_from-number 2 0 p.len_of_processed_part sv d (rw (piece-take sv p 2 text f) h) in
    rw (sym same) s

mark-placed :
    (comp : Component) (sv : List ℕ) (p q : Parsed) → read_mark comp sv p ≡ some q → advance 1 p ≡ q
unfolding read_mark
mark-placed comp sv p q e = some-injective (advance 1 p) q (then_some _ _ q (else_some _ _ q e))

read_component-placed :
    (comp : Component) (sv : List ℕ) (p q : Parsed)
    → read_component comp sv p ≡ some q
    → placed comp sv p ≡ q
unfolding read_component store_digit get_digit
read_component-placed ending sv p q e = some-injective p q e
read_component-placed year sv p q e =
    let (text, f, g) = bind-some (piece sv p 4) _ q e in
    let (d, h, s) = bind-some (get_digit text 4) _ q g in
    let same =
      get_digit_from-number 4 0 p.len_of_processed_part sv d (rw (piece-take sv p 4 text f) h) in
    some-injective _ q (rw (sym same) s)
read_component-placed month_name sv p q e =
    let (text, f, g) = bind-some (piece sv p 3) _ q e in
    let (d, h, s) = bind-some (get_month_index text) _ q g in
    rw (piece-take sv p 3 text f, h) (some-injective _ q s)
read_component-placed day_name sv p q e =
    let (text, f, g) = bind-some (piece sv p 3) _ q e in
    let (d, h, s) = bind-some (get_day_index text) _ q g in
    rw (piece-take sv p 3 text f, h) (some-injective _ q s)
read_component-placed gmt sv p q e =
    let (text, f, g) = bind-some (piece sv p 3) _ q e in some-injective _ q (then_some _ _ q g)
read_component-placed second_decimal_part sv p q e = some-injective _ q (else_some _ _ q e)
read_component-placed hour sv p q e =
    some-injective _ q (else_some _ _ q (digits_read hour sv p q e))
read_component-placed minute sv p q e =
    some-injective _ q (else_some _ _ q (digits_read minute sv p q e))
read_component-placed second sv p q e =
    some-injective _ q (else_some _ _ q (digits_read second sv p q e))
read_component-placed month sv p q e =
    some-injective _ q (else_some _ _ q (digits_read month sv p q e))
read_component-placed day sv p q e = some-injective _ q (digits_read day sv p q e)
read_component-placed comp sv p q e = mark-placed comp sv p q e

abbrev placed_all : List Component → List ℕ → Parsed → Parsed
placed_all [] sv p = p
placed_all (ending ∷ comps) sv p = p
placed_all (comp ∷ comps) sv p = placed_all comps sv (placed comp sv p)

travel-placed :
    (comps : List Component) (sv : List ℕ) (p q : Parsed)
    → travel comps sv p ≡ some q
    → placed_all comps sv p ≡ q
unfolding travel
travel-placed [] sv p q e = some-injective p q e
travel-placed (ending ∷ comps) sv p q e = some-injective p q e
travel-placed (comp ∷ comps) sv p q e =
    let (p', f, g) = bind-some (read_component comp sv p) _ q e in
    ap (placed_all comps sv) (read_component-placed comp sv p p' f) ∙ travel-placed comps sv p' q g

-- The place of each field in a text of the format.
abbrev pub Fields : TimeFormat → List ℕ → Parsed → Type 0
Fields http_format sv p =
    (p.day_of_week ≡ get_day_index (take 3 sv))
    × (p.day ≡ number 0 sv 5 2)
    × (p.month ≡ named (get_month_index (take 3 (drop 8 sv))))
    × (p.year ≡ number 0 sv 12 4)
    × (p.hour ≡ number 0 sv 17 2)
    × (p.min ≡ number 0 sv 20 2)
    × (p.sec ≡ number 0 sv 23 2)
Fields utc_format sv p =
    (p.day_of_week ≡ none)
    × (p.day ≡ number 0 sv 8 2)
    × (p.month ≡ number 0 sv 5 2 - 1)
    × (p.year ≡ number 0 sv 0 4)
    × (p.hour ≡ number 0 sv 11 2)
    × (p.min ≡ number 0 sv 14 2)
    × (p.sec ≡ number 0 sv 17 2)
Fields utc_without_punctuation_format sv p =
    (p.day_of_week ≡ none)
    × (p.day ≡ number 0 sv 6 2)
    × (p.month ≡ number 0 sv 4 2 - 1)
    × (p.year ≡ number 0 sv 0 4)
    × (p.hour ≡ number 0 sv 9 2)
    × (p.min ≡ number 0 sv 11 2)
    × (p.sec ≡ number 0 sv 13 2)

pub travel-Fields :
    (format : TimeFormat) (sv : List ℕ) (p : Parsed)
    → travel (get_format format) sv started ≡ some p
    → Fields format sv p
unfolding get_format
travel-Fields http_format sv p e =
    subst (Fields http_format sv) (travel-placed (get_format http_format) sv started p e)
      (refl, refl, refl, refl, refl, refl, refl)
travel-Fields utc_format sv p e =
    subst (Fields utc_format sv) (travel-placed (get_format utc_format) sv started p e)
      (refl, refl, refl, refl, refl, refl, refl)
travel-Fields utc_without_punctuation_format sv p e =
    subst (Fields utc_without_punctuation_format sv)
      (travel-placed (get_format utc_without_punctuation_format) sv started p e)
      (refl, refl, refl, refl, refl, refl, refl)
