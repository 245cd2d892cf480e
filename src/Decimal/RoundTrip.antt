-- ===== src/Decimal/RoundTrip.antt =====
-- A decimal text is read back as its number: an instance of what the program takes from Boost.

use janosh.Common.{
  ℕ, zero, suc, ◌+◌, ◌*◌, ◌/◌, ◌%◌, ◌^◌, ◌<◌, ◌≤◌, [], ◌∷◌, ◌≡◌, ◌≢◌, refl, ap, ◌∙◌, All, Bytes,
  ltb, Bool-cases, inl, inr, arith,
}
use janosh.Result.{Result, ok, err}
use janosh.Component.{LexicalCast}
use janosh.Decimal.{emit, to_string, scan, bounded, of_string}

scan_digit : (n d : ℕ) (out : Bytes) → d < 10 → scan n ((b'0' + d) ∷ out) ≡ scan (n * 10 + d) out
unfolding scan
scan_digit n d out h = ground arith

scan-emit : (fuel n : ℕ) (out : Bytes) → n < fuel → scan 0 (emit fuel n out) ≡ scan n out
unfolding emit
scan-emit zero n out h = absurd (omega arith)
scan-emit (suc fuel) n out h = elim (Bool-cases (ltb n 10)) [
  | inl e ↦ rw e (scan_digit 0 n out (ground arith) ∙ ap (λ (m : ℕ). scan m out) (omega arith))
  | inr e ↦ rw e (
      scan-emit fuel (n / 10) ((b'0' + n % 10) ∷ out) (ground arith)
      ∙ (scan_digit (n / 10) (n % 10) out (omega arith) ∙ ap (λ (m : ℕ). scan m out) (omega arith)))
]

pub emit-ne-nil : (fuel n : ℕ) (out : Bytes) → n < fuel → emit fuel n out ≢ []
unfolding emit
emit-ne-nil zero n out h = absurd (omega arith)
emit-ne-nil (suc fuel) n out h = elim (Bool-cases (ltb n 10)) [
  | inl e ↦ rw e (λ p. cc)
  | inr e ↦ rw e (emit-ne-nil fuel (n / 10) _ (ground arith))
]

pub emit_digits :
    (fuel n : ℕ) (out : Bytes)
    → All (λ c. (b'0' ≤ c) × (c ≤ b'9')) out
    → All (λ c. (b'0' ≤ c) × (c ≤ b'9')) (emit fuel n out)
unfolding emit
emit_digits zero n out h = h
emit_digits (suc fuel) n out h = elim (Bool-cases (ltb n 10)) [
  | inl e ↦ rw e ((omega arith, ground arith), h)
  | inr e ↦ rw e (emit_digits fuel (n / 10) _ ((omega arith, omega arith), h))
]

of_scan : (s : Bytes) (n : ℕ) → s ≢ [] → scan 0 s ≡ ok n → n < 2 ^ 64 → of_string s ≡ ok n
unfolding of_string
of_scan [] n ne h lt = absurd (ne refl)
of_scan (c ∷ s) n ne h lt = rw h (ground arith)

-- Every number that fits `size_t` is read back from its text.
pub of_string-to_string : (n : ℕ) → n < 2 ^ 64 → of_string (to_string n) ≡ ok n
unfolding to_string
of_string-to_string n h =
    of_scan (emit (suc n) n []) n (emit-ne-nil (suc n) n [] (omega arith))
      (scan-emit (suc n) n [] (omega arith) ∙ unfold scan in refl) h

bounded_range : (r : Result ℕ) (n : ℕ) → bounded r ≡ ok n → n < 2 ^ 64
unfolding bounded
bounded_range (ok m) n h = ground arith
bounded_range (err e) n h = cc

pub of_string_range : (s : Bytes) (n : ℕ) → of_string s ≡ ok n → n < 2 ^ 64
unfolding of_string
of_string_range [] n h = cc
of_string_range (c ∷ s) n h = bounded_range (scan 0 (c ∷ s)) n h

-- The decimal text is what `LexicalCast` asks for.
unfoldable pub decimal : LexicalCast
unfolding to_string of_string
decimal = record {
  show = to_string;
  read = of_string;
  read-show = of_string-to_string;
  read_range = of_string_range;
  show_digits = λ n. emit_digits (suc n) n [] tt;
  show-ne-nil = λ n. emit-ne-nil (suc n) n [] (omega arith);
}
