-- ===== src/Try/Laws.antt =====
-- What a caller of a `Try` observes: `value()`, `getException()`, the conversions, `makeTryCall`.
use async_framework.Prelude.{◌≡◌, refl, true, none, some}
use async_framework.Prelude.Outcome.{Error, logic_error, Outcome, returns, throws, faults, ◌>>=◌}
use async_framework.Try.{
  Try, monostate, value, error, available, has_error, value_of, emplace, set_exception,
  get_exception, to_void, of_void, make_try_call, make_try_call_void,
}

-- What `value()` should do with each alternative: the reading that the class comment gives.
abbrev pub observed {ℓ} : {A : Type ℓ} → Try A → Outcome A
observed (value a) = returns a
observed (error (some e)) = throws e
observed (error none) = faults
observed monostate = throws (logic_error "Try object is empty")

module _ {ℓ} {A : Type ℓ} where
  pub value_of-observed : (t : Try A) → value_of t ≡ observed t
  unfolding value_of
  value_of-observed monostate = refl
  value_of-observed (value a) = refl
  value_of-observed (error none) = refl
  value_of-observed (error (some e)) = refl

  -- `value()` gives back what `makeTryCall` caught, whether the call returned or threw.
  pub value_of-make_try_call : (call : Outcome A) → (make_try_call call >>= value_of) ≡ call
  unfolding value_of make_try_call
  value_of-make_try_call (returns a) = refl
  value_of-make_try_call (throws e) = refl
  value_of-make_try_call faults = refl

  -- After `setException(e)` the object has an error, `getException()` is `e`, `value()` rethrows
  -- it; after `emplace(a)` the object has no error, `getException()` throws and `value()` is `a`.
  pub set_exception-emplace :
      (t : Try A) (e : Error) (a : A)
      → (has_error (set_exception t (some e)) ≡ true)
        × (get_exception (set_exception t (some e)) ≡ returns (some e))
        × (value_of (set_exception t (some e)) ≡ throws e)
        × (available (emplace t a) ≡ true)
        × (get_exception (emplace t a) ≡ throws (logic_error "Try object doesn't has an error"))
        × (value_of (emplace t a) ≡ returns a)
  unfolding has_error set_exception get_exception value_of available emplace
  set_exception-emplace monostate e a = (refl, refl, refl, refl, refl, refl)
  set_exception-emplace (value b) e a = (refl, refl, refl, refl, refl, refl)
  set_exception-emplace (error b) e a = (refl, refl, refl, refl, refl, refl)

-- The `Try<Unit>` and the `Try<void>` of one call convert into each other: `operator Try<void>`
-- turns the first into the second, and the constructor from `Try<void>` turns it back.
pub to_void-of_void :
    (call : Outcome (Unit {0}))
    → ((make_try_call call >>= to_void) ≡ make_try_call_void call)
      × ((make_try_call_void call >>= λ v. returns (of_void v)) ≡ make_try_call call)
unfolding to_void of_void make_try_call make_try_call_void
to_void-of_void (returns a) = (refl, refl)
to_void-of_void (throws e) = (refl, refl)
to_void-of_void faults = (refl, refl)
