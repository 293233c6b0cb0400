-- ===== src/Try.antt =====
-- Try.h: `Try<T>` and `Try<void>`. An `exception_ptr` may be null.
pub mod Laws
mod Tests
use async_framework.Prelude.{Bool, true, false, not, Option, none, some, if◌then◌else◌}
use async_framework.Prelude.Outcome.{
  Error, logic_error, bad_variant_access, Outcome, returns, throws, faults, ◌>>=◌, ◌>>◌,
  logic_assert,
}

abbrev pub ExceptionPtr : Type 0
ExceptionPtr = Option Error

-- std::variant<std::monostate, T, std::exception_ptr>
pub data Try {ℓ} (A : Type ℓ) : Type ℓ where
  monostate : Try A
  value : A → Try A
  error : ExceptionPtr → Try A

-- Rethrowing a null pointer is undefined.
abbrev pub rethrow_exception {ℓ} : {A : Type ℓ} → ExceptionPtr → Outcome A
rethrow_exception none = faults
rethrow_exception (some e) = throws e

module _ {ℓ} {A : Type ℓ} where
  unfoldable pub has_error : Try A → Bool
  has_error monostate = false
  has_error (value a) = false
  has_error (error e) = true

  unfoldable pub available : Try A → Bool
  unfolding has_error
  available t = not (has_error t)

  check_has_try : Try A → Outcome (Unit {0})
  check_has_try (value a) = returns tt
  check_has_try (error e) = rethrow_exception e
  check_has_try monostate = throws (logic_error "Try object is empty")

  -- `std::get<T>`, which throws `bad_variant_access` on another alternative.
  get_value : Try A → Outcome A
  get_value (value a) = returns a
  get_value t = throws bad_variant_access

  -- `value()` in its four overloads.
  unfoldable pub value_of : Try A → Outcome A
  unfolding check_has_try get_value
  value_of t = do check_has_try t; get_value t

  unfoldable pub emplace : Try A → A → Try A
  emplace t a = value a

  unfoldable pub set_exception : Try A → ExceptionPtr → Try A
  set_exception (error old) e = error e
  set_exception t e = error e

  -- operator=(std::exception_ptr)
  unfoldable pub assign_error : Try A → ExceptionPtr → Try A
  assign_error (error old) e = error e
  assign_error t e = error e

  get_error : Try A → Outcome ExceptionPtr
  get_error (error e) = returns e
  get_error t = throws bad_variant_access

  unfoldable pub get_exception : Try A → Outcome ExceptionPtr
  unfolding has_error get_error
  get_exception t = do logic_assert (has_error t) "Try object doesn't has an error"; get_error t

-- `Try<void>` is its `error_`, null when there is none.
pub record TryVoid : Type 0 where
  pub error_ : ExceptionPtr

abbrev is_set : ExceptionPtr → Bool
is_set none = false
is_set (some e) = true

unfoldable pub void_has_error : TryVoid → Bool
void_has_error t = is_set t.error_

-- `value()`
unfoldable pub void_value : TryVoid → Outcome (Unit {0})
void_value t = if is_set t.error_ then rethrow_exception t.error_ else returns tt

-- `setException`, `operator=(exception_ptr)` and the constructor from one leave the same object.
unfoldable pub void_set_exception : TryVoid → ExceptionPtr → TryVoid
void_set_exception t e = record t { error_ = e }

-- Try<T>::operator Try<void>
unfoldable pub to_void {ℓ} : {A : Type ℓ} → Try A → Outcome TryVoid
unfolding has_error get_error
to_void t =
    if has_error t
    then (get_error t >>= λ e. returns (record { error_ = e }))
    else returns (record { error_ = none })

-- Try<Unit>(const Try<void> &)
unfoldable pub of_void : TryVoid → Try (Unit {0})
unfolding void_has_error
of_void t = if void_has_error t then error t.error_ else value tt

-- makeTryCall(f, args...): `call` is what the invocation does.
unfoldable pub make_try_call {ℓ} : {A : Type ℓ} → Outcome A → Outcome (Try A)
make_try_call (returns a) = returns (value a)
make_try_call (throws e) = returns (error (some e))
make_try_call faults = faults

-- makeTryCall of a function that returns void.
unfoldable pub make_try_call_void : Outcome (Unit {0}) → Outcome TryVoid
make_try_call_void (returns a) = returns (record { error_ = none })
make_try_call_void (throws e) = returns (record { error_ = some e })
make_try_call_void faults = faults
