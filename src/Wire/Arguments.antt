-- ===== src/Wire/Arguments.antt =====
-- What the arguments of a request become (`main` of janosh.cpp, and `make_request`).
use janosh.Common.{
  ◌+◌, ◌-◌, ◌%◌, ◌^◌, ◌<◌, ◌≡◌, refl, Bool, true, List, [], ◌∷◌, Bytes, arith, length,
  length-append, All,
}
use janosh.Result.{ok}
use janosh.Component.{LexicalCast}
use janosh.Value
use janosh.Value.{Value, string}
use janosh.Print.Visitors.{quoted}
use janosh.Wire.Request.{typed, typed_all}
use janosh.Wire.RoundTrip.{take-append}

abbrev pub string_value : Bytes → Value
string_value s = record { str_obj = s; type = string; size = 1; initialized = true }

abbrev pub string_values : List Bytes → List Value
string_values [] = []
string_values (s ∷ rest) = string_value s ∷ string_values rest

abbrev pub all_quoted : List Bytes → List Bytes
all_quoted [] = []
all_quoted (s ∷ rest) = quoted s ∷ all_quoted rest

module _ ⦃cast : LexicalCast⦄ (numeric : Bytes → Bool) where
  inner_length :
      (s : Bytes) → length s + 2 < 2 ^ 64 → (length (quoted s) + 2 ^ 64 - 2) % 2 ^ 64 ≡ length s
  inner_length s h = omega (arith, length-append s (b'"' ∷ []))

  typed-quoted :
      (s : Bytes) → length s + 2 < 2 ^ 64 → typed numeric (quoted s) ≡ ok (string_value s)
  unfolding typed Value.of_type Value.initialize
  typed-quoted s h = rw (inner_length s h, take-append s (b'"' ∷ [])) refl

  -- Arguments in quotes, of less than 2 ^ 64 bytes with them, become string values of the texts
  -- between the quotes, whatever they look like and whichever texts count as numbers.
  pub typed_all-quoted :
      (texts : List Bytes)
      → All (λ s. length s + 2 < 2 ^ 64) texts
      → typed_all numeric (all_quoted texts) ≡ ok (string_values texts)
  unfolding typed_all
  typed_all-quoted [] h = refl
  typed_all-quoted (s ∷ texts) (h, hs) = rw (typed-quoted s h, typed_all-quoted texts hs) refl
