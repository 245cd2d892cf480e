-- ===== src/Component/Cast.antt =====
-- `boost::lexical_cast` between `size_t` and `std::string`, and `boost::format` of "%d": what the
-- program takes from Boost, with what Boost documents of it.
use janosh.Common.{ℕ, ◌^◌, ◌<◌, ◌≤◌, ◌≡◌, ◌≢◌, [], Bytes, All}
use janosh.Result.{Result, ok}

abbrev pub IsDigit : ℕ → Type 0
IsDigit c = (b'0' ≤ c) × (c ≤ b'9')

pub record LexicalCast : Type 0 where
  -- `lexical_cast<string>` of a `size_t`, which `format("%d")` writes alike
  pub show : ℕ → Bytes
  -- `lexical_cast<size_t>` of a string, or `bad_lexical_cast`
  pub read : Bytes → Result ℕ
  pub read-show : (n : ℕ) → n < 2 ^ 64 → read (show n) ≡ ok n
  pub read_range : (s : Bytes) (n : ℕ) → read s ≡ ok n → n < 2 ^ 64
  pub show_digits : (n : ℕ) → All IsDigit (show n)
  pub show-ne-nil : (n : ℕ) → show n ≢ []

module _ ⦃cast : LexicalCast⦄ where
  abbrev pub to_text : ℕ → Bytes
  to_text = cast.show

  abbrev pub of_text : Bytes → Result ℕ
  of_text = cast.read
