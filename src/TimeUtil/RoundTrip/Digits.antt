-- ===== src/TimeUtil/RoundTrip/Digits.antt =====
-- `get_digit` after `to_int`.
use async_framework.Prelude.{
  ℕ, zero, suc, ◌+◌, ◌*◌, ◌/◌, ◌%◌, ◌^◌, ◌<◌, ◌≡◌, refl, sym, ap, ◌∙◌, arith, some, List, [], ◌∷◌,
  get_or,
}
use native.Mathlib.Nat.{mul_assoc}
use async_framework.TimeUtil.Parse.{get_digit, get_digit_from}
use async_framework.TimeUtil.Print.{to_int, to_int_from, digits}

abbrev digit : ℕ → ℕ
digit num = get_or digits (num % 10) 48

digit-table : (n : ℕ) → n < 10 → get_or digits n 48 ≡ 48 + n
digit-table zero h = refl
digit-table (suc zero) h = refl
digit-table (suc (suc zero)) h = refl
digit-table (suc (suc (suc zero))) h = refl
digit-table (suc (suc (suc (suc zero)))) h = refl
digit-table (suc (suc (suc (suc (suc zero))))) h = refl
digit-table (suc (suc (suc (suc (suc (suc zero)))))) h = refl
digit-table (suc (suc (suc (suc (suc (suc (suc zero))))))) h = refl
digit-table (suc (suc (suc (suc (suc (suc (suc (suc zero)))))))) h = refl
digit-table (suc (suc (suc (suc (suc (suc (suc (suc (suc zero))))))))) h = refl
digit-table (suc (suc (suc (suc (suc (suc (suc (suc (suc (suc n)))))))))) h = omega arith

get_digit_from-step :
    (a c d : ℕ) (rest : List ℕ) (k : ℕ)
    → c ≡ 48 + d
    → d < 10
    → get_digit_from a (c ∷ rest) (suc k) ≡ get_digit_from (a * 10 + d) rest k
unfolding get_digit_from
get_digit_from-step a c d rest k e h = ground (arith, e)

get_digit_from-digit :
    (a num : ℕ) (rest : List ℕ) (k : ℕ)
    → get_digit_from a (digit num ∷ rest) (suc k) ≡ get_digit_from (a * 10 + num % 10) rest k
get_digit_from-digit a num rest k =
    get_digit_from-step a (digit num) (num % 10) rest k (digit-table (num % 10) (omega arith))
      (omega arith)

times_power : (a n : ℕ) → a * 10 ^ suc n ≡ a * 10 ^ n * 10
times_power a n =
    ap (λ m. a * m) {x = 10 ^ suc n} {y = 10 ^ n * 10} (omega arith) ∙ sym (mul_assoc a (10 ^ n) 10)

get_digit_from-to_int_from :
    (n a num : ℕ) (rest : List ℕ) (k : ℕ)
    → num < 10 ^ n
    → get_digit_from a (to_int_from n num rest) (n + k) ≡ get_digit_from (a * 10 ^ n + num) rest k
unfolding to_int_from
get_digit_from-to_int_from zero a num rest k h =
    ap (get_digit_from a rest) {x = 0 + k} {y = k} (omega arith)
    ∙ ap (λ m. get_digit_from m rest k) {x = a} {y = a * 10 ^ 0 + num} (omega arith)
get_digit_from-to_int_from (suc n) a num rest k h =
    ap (get_digit_from a (to_int_from n (num / 10) (digit num ∷ rest))) (omega arith)
    ∙ get_digit_from-to_int_from n a (num / 10) (digit num ∷ rest) (suc k) (omega arith)
    ∙ get_digit_from-digit (a * 10 ^ n + num / 10) num rest k
    ∙ ap (λ m. get_digit_from m rest k) (omega (arith, times_power a n))

-- What `to_int` writes before any bytes `rest`.
pub get_digit-to_int_from :
    (n num : ℕ) (rest : List ℕ) → num < 10 ^ n → get_digit (to_int_from n num rest) n ≡ some num
unfolding get_digit get_digit_from
get_digit-to_int_from n num rest h =
    ap (get_digit_from 0 (to_int_from n num rest)) {x = n} {y = n + 0} (omega arith)
    ∙ get_digit_from-to_int_from n 0 num rest 0 h
    ∙ ap some {x = 0 * 10 ^ n + num} {y = num} (omega arith)

-- `get_digit` reads back the number that `to_int` writes in as many digits, if it fits them.
pub get_digit-to_int : (n num c : ℕ) → num < 10 ^ n → get_digit (to_int n num c) n ≡ some num
unfolding to_int
get_digit-to_int n num c h = get_digit-to_int_from n num (c ∷ []) h
