-- ===== src/Result.antt =====
-- The C++ exceptions of the program as values. `exception.hpp` declares one type for each part;
-- the others are raised by the standard library or by Boost, or stand for a failed `assert` and
-- for undefined behaviour. `out_of_fuel` is the model's own, for a loop that was given too few steps.
-- The record, path or value that is attached to an exception is left out.
use janosh.Common.{◌≡◌, refl, String}

pub data Error : Type 0 where
  path_exception value_exception record_exception : String → Error
  janosh_exception db_exception : String → Error
  bad_lexical_cast out_of_range invalid_argument : Error
  assertion_failed undefined_behaviour out_of_fuel : Error

-- What a C++ function returns or throws.
pub data Result {ℓ} (A : Type ℓ) : Type ℓ where
  err : (thrown : Error) → Result A
  ok : (returned : A) → Result A

pub ok_injective {ℓ} : {A : Type ℓ} {x y : A} → ok x ≡ ok y → x ≡ y
ok_injective same = cc

module _ {ℓ κ} {A : Type ℓ} {B : Type κ} where
  infixl 5 ◌>>=◌
  -- A thrown exception passes what follows.
  abbrev pub ◌>>=◌ : (first : Result A) (then : A → Result B) → Result B
  err thrown >>= then = err thrown
  ok returned >>= then = then returned

  -- Where both parts returned, this is what they returned.
  pub >>=-eq-ok :
      (first : Result A) (then : A → Result B) {y : B}
      → (first >>= then) ≡ ok y
      → (x : A) × (first ≡ ok x) × (then x ≡ ok y)
  >>=-eq-ok (err thrown) then e = cc
  >>=-eq-ok (ok returned) then e = (returned, refl, e)
