-- ===== src/Decimal.antt =====
-- The decimal text of an unsigned number, as `std::to_string` and `operator<<` write it, and a
-- reader for it.
pub mod RoundTrip
use janosh.Common.{
  ℕ, zero, suc, ◌+◌, ◌-◌, ◌*◌, ◌/◌, ◌%◌, ◌^◌, List, [], ◌∷◌, Bool, ◌||◌, Bytes, ltb, ◌==◌,
  if◌then◌else◌,
}
use janosh.Result.{Result, ok, err, bad_lexical_cast}

-- Puts the digits of `n` before `out`. Each round divides by ten, so a fuel above `n` is enough.
pub emit : ℕ → ℕ → Bytes → Bytes
emit zero n out = out
emit (suc fuel) n out =
    let more = emit fuel (n / 10) ((b'0' + n % 10) ∷ out) in
    if ltb n 10 then (b'0' + n) ∷ out else more

unfoldable pub to_string : ℕ → Bytes
unfolding emit
to_string n = emit (suc n) n []

pub scan : ℕ → Bytes → Result ℕ
scan n [] = ok n
scan n (c ∷ s) =
    if ltb c b'0' || ltb b'9' c then err bad_lexical_cast else scan (n * 10 + (c - b'0')) s

-- At least one digit and nothing else, with a value that fits `size_t`.
bounded : Result ℕ → Result ℕ
bounded (ok n) = if ltb n (2 ^ 64) then ok n else err bad_lexical_cast
bounded (err e) = err e

unfoldable pub of_string : Bytes → Result ℕ
unfolding scan bounded
of_string [] = err bad_lexical_cast
of_string (c ∷ s) = bounded (scan 0 (c ∷ s))
