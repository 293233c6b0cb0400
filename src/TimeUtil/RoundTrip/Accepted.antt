-- ===== src/TimeUtil/RoundTrip/Accepted.antt =====
-- What `get_timestamp` has checked of a text that it accepts.
use async_framework.Prelude.{
  ℕ, zero, suc, ◌+◌, ◌-◌, ◌*◌, ◌%◌, ◌<◌, ◌≤◌, ◌≡◌, refl, arith, Bool, true, false, Option, none,
  some, List, [], ◌∷◌, length, get_or, if◌then◌else◌,
}
use mathlib.Core.Path.{subst}
use mathlib.Core.Option.{none-ne-some, some-injective}
use async_framework.TimeUtil.Calendar.{
  days_in, faster_mktime, month_table, u64, upper, char_code, byte_at, get_month_index,
  get_day_index,
}
use async_framework.TimeUtil.Parse.{
  Component, hour, minute, month, second, day, year, month_name, day_name, gmt, second_decimal_part,
  ending, read_component, read_mark, read_digits, store_digit, get_digit, get_digit_from, piece,
  is_digit, ◌>>=◌, Parsed, travel, finish,
}

-- All of the text is read, and the day is one of its month.
pub record IsChecked (sv : List ℕ) (p : Parsed) (time : ℕ) : Type 0 where
  pub whole : p.len_of_processed_part ≡ length sv
  pub from_first : 1 ≤ p.day
  pub to_last : p.day ≤ days_in p.month p.year
  pub counted : faster_mktime p.year p.month p.day p.hour p.min p.sec p.day_of_week ≡ some time

pub finish-IsChecked :
    (sv : List ℕ) (p : Parsed) (time : ℕ) → finish sv p ≡ some time → IsChecked sv p time
unfolding finish
finish-IsChecked sv p time e = record {
  whole = ground (arith, e);
  from_first = ground (arith, e);
  to_last = ground (arith, e);
  counted = ground (arith, e);
}

pub record InRange (p : Parsed) : Type 0 where
  pub year_small : p.year < 10000
  pub month_small : p.month < 12
  pub hour_small : p.hour < 24
  pub min_small : p.min < 60
  pub sec_small : p.sec < 60

pub bind-some {ℓ κ} :
    {A : Type ℓ} {B : Type κ} (o : Option A) (f : A → Option B) (b : B)
    → (o >>= f) ≡ some b
    → (a : A) × (o ≡ some a) × (f a ≡ some b)
bind-some none f b e = absurd (none-ne-some b e)
bind-some (some a) f b e = (a, refl, e)

pub else_some {ℓ} :
    {A : Type ℓ} (c : Bool) (x : Option A) (b : A) → (if c then none else x) ≡ some b → x ≡ some b
else_some true x b e = absurd (none-ne-some b e)
else_some false x b e = e

pub then_some {ℓ} :
    {A : Type ℓ} (c : Bool) (x : Option A) (b : A) → (if c then x else none) ≡ some b → x ≡ some b
then_some true x b e = e
then_some false x b e = absurd (none-ne-some b e)

get_digit_from-next :
    (a : ℕ) (sv : List ℕ) (w n : ℕ)
    → get_digit_from a sv (suc w) ≡ some n
    → (d : ℕ) × (rest : List ℕ) × (d < 10) × (get_digit_from (a * 10 + d) rest w ≡ some n)
unfolding get_digit_from
get_digit_from-next a [] w n e = absurd (none-ne-some n e)
get_digit_from-next a (c ∷ sv) w n e = (
  c - 48,
  sv,
  ground (arith, e),
  then_some (is_digit c) (get_digit_from (a * 10 + (c - 48)) sv w) n e,
)

get_digit_two : (sv : List ℕ) (n : ℕ) → get_digit sv 2 ≡ some n → n < 100
unfolding get_digit get_digit_from
get_digit_two sv n e =
    let (a, s, la, ea) = get_digit_from-next 0 sv 1 n e in
    let (b, u, lb, eb) = get_digit_from-next (0 * 10 + a) s 0 n ea in
    omega (arith, la, lb, some-injective ((0 * 10 + a) * 10 + b) n eb)

get_digit_four : (sv : List ℕ) (n : ℕ) → get_digit sv 4 ≡ some n → n < 10000
unfolding get_digit get_digit_from
get_digit_four sv n e =
    let (a, s, la, ea) = get_digit_from-next 0 sv 3 n e in
    let (b, u, lb, eb) = get_digit_from-next (0 * 10 + a) s 2 n ea in
    let (c, v, lc, ec) = get_digit_from-next ((0 * 10 + a) * 10 + b) u 1 n eb in
    let (d, x, ld, ed) = get_digit_from-next (((0 * 10 + a) * 10 + b) * 10 + c) v 0 n ec in
    omega (arith, la, lb, lc, ld, some-injective ((((0 * 10 + a) * 10 + b) * 10 + c) * 10 + d) n ed)

month_table-lt : (k n : ℕ) → get_or month_table k none ≡ some n → n < 12
month_table-lt zero n e = ground (arith, e)
month_table-lt (suc zero) n e = ground (arith, e)
month_table-lt (suc (suc zero)) n e = ground (arith, e)
month_table-lt (suc (suc (suc zero))) n e = ground (arith, e)
month_table-lt (suc (suc (suc (suc zero)))) n e = ground (arith, e)
month_table-lt (suc (suc (suc (suc (suc zero))))) n e = ground (arith, e)
month_table-lt (suc (suc (suc (suc (suc (suc zero)))))) n e = ground (arith, e)
month_table-lt (suc (suc (suc (suc (suc (suc (suc zero))))))) n e = ground (arith, e)
month_table-lt (suc (suc (suc (suc (suc (suc (suc (suc zero)))))))) n e = ground (arith, e)
month_table-lt (suc (suc (suc (suc (suc (suc (suc (suc (suc zero))))))))) n e = ground (arith, e)
month_table-lt (suc (suc (suc (suc (suc (suc (suc (suc (suc (suc zero)))))))))) n e =
    ground (arith, e)
month_table-lt (suc (suc (suc (suc (suc (suc (suc (suc (suc (suc (suc zero))))))))))) n e =
    ground (arith, e)
month_table-lt (suc (suc (suc (suc (suc (suc (suc (suc (suc (suc (suc (suc zero)))))))))))) n e =
    ground (arith, e)
month_table-lt (suc (suc (suc (suc (suc (suc (suc (suc (suc (suc (suc (suc (suc zero))))))))))))) n
      e =
    ground (arith, e)
month_table-lt
      (suc (suc (suc (suc (suc (suc (suc (suc (suc (suc (suc (suc (suc (suc zero)))))))))))))) n e =
    ground (arith, e)
month_table-lt
      (suc (suc (suc (suc (suc (suc (suc (suc (suc (suc (suc (suc (suc (suc (suc zero)))))))))))))))
      n e =
    ground (arith, e)
month_table-lt
      (suc (
        suc
          (suc (suc (suc (suc (suc (suc (suc (suc (suc (suc (suc (suc (suc (suc zero))))))))))))))))
      n e =
    ground (arith, e)
month_table-lt
      (suc (
        suc (
          suc
            (suc (suc (suc (suc (suc (suc (suc (suc (suc (suc (suc (suc (suc (suc k)))))))))))))))))
      n e =
    absurd (none-ne-some n e)

get_month_index-lt : (text : List ℕ) (n : ℕ) → get_month_index text ≡ some n → n < 12
unfolding get_month_index
get_month_index-lt text n e =
    month_table-lt
      (u64 (upper (char_code (byte_at text 1)) + upper (char_code (byte_at text 2))) % 17) n e

store_digit-InRange :
    (comp : Component) (d : ℕ) (p q : Parsed)
    → store_digit comp d p ≡ some q
    → InRange p
    → InRange q
unfolding store_digit
store_digit-InRange hour d p q e r = ground (arith, e)
store_digit-InRange minute d p q e r = ground (arith, e)
store_digit-InRange month d p q e r = ground (arith, e)
store_digit-InRange second d p q e r = ground (arith, e)
store_digit-InRange comp d p q e r = ground (arith, e)

digits_InRange :
    (comp : Component) (sv : List ℕ) (p q : Parsed)
    → read_digits comp sv p ≡ some q
    → InRange p
    → InRange q
unfolding read_digits
digits_InRange comp sv p q e r =
    let (text, _, f) = bind-some (piece sv p 2) _ q e in
    let (d, _, h) = bind-some (get_digit text 2) _ q f in store_digit-InRange comp d p q h r

read_component-InRange :
    (comp : Component) (sv : List ℕ) (p q : Parsed)
    → read_component comp sv p ≡ some q
    → InRange p
    → InRange q
unfolding read_component read_mark read_digits
read_component-InRange year sv p q e r =
    let (text, _, f) = bind-some (piece sv p 4) _ q e in
    let (n, g, h) = bind-some (get_digit text 4) _ q f in
    let l = get_digit_four text n g in ground (arith, h, l)
read_component-InRange month_name sv p q e r =
    let (text, _, f) = bind-some (piece sv p 3) _ q e in
    let (n, g, h) = bind-some (get_month_index text) _ q f in
    let l = get_month_index-lt text n g in ground (arith, h, l)
read_component-InRange day_name sv p q e r =
    let (text, _, f) = bind-some (piece sv p 3) _ q e in
    let (n, g, h) = bind-some (get_day_index text) _ q f in ground (arith, h)
read_component-InRange gmt sv p q e r =
    let (text, _, f) = bind-some (piece sv p 3) _ q e in ground (arith, f)
read_component-InRange ending sv p q e r = ground (arith, e)
read_component-InRange second_decimal_part sv p q e r = ground (arith, e)
read_component-InRange hour sv p q e r = digits_InRange hour sv p q e r
read_component-InRange minute sv p q e r = digits_InRange minute sv p q e r
read_component-InRange second sv p q e r = digits_InRange second sv p q e r
read_component-InRange month sv p q e r = digits_InRange month sv p q e r
read_component-InRange day sv p q e r = digits_InRange day sv p q e r
read_component-InRange comp sv p q e r = ground (arith, e)

pub travel-InRange :
    (comps : List Component) (sv : List ℕ) (p q : Parsed)
    → travel comps sv p ≡ some q
    → InRange p
    → InRange q
unfolding travel
travel-InRange [] sv p q e r = subst InRange (some-injective p q e) r
travel-InRange (ending ∷ comps) sv p q e r = subst InRange (some-injective p q e) r
travel-InRange (comp ∷ comps) sv p q e r =
    let (p', f, g) = bind-some (read_component comp sv p) _ q e in
    travel-InRange comps sv p' q g (read_component-InRange comp sv p p' f r)
