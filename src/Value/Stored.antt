-- ===== src/Value/Stored.antt =====
-- The texts under which values stand in the database, and what they are read back as: the part of
-- `readValue` and `read` of record.cpp that makes a value of a text.
use janosh.Common.{ℕ, ◌^◌, ◌<◌, [], ◌∷◌, Bool, true, false, ◌≡◌, refl, Bytes, ◌==◌, if◌then◌else◌}
use janosh.Result.{Result, ok, err, value_exception, out_of_range, ◌>>=◌}
use janosh.Component.{LexicalCast, to_text}
use janosh.Value.{
  ValueType, null, string, array, object, range, number, boolean, Value, is_scalar, of_type,
  of_directory, get_size, make_db_string,
}

module _ ⦃cast : LexicalCast⦄ where
  -- `readValue` where the path is neither a directory nor a wildcard: `old` is the value that
  -- stays where the text begins with none of the marks.
  read_scalar : Value → Bytes → Result Value
  read_scalar old [] = err out_of_range
  read_scalar old (c ∷ s) =
      if c == b'n'
      then of_type s number
      else if c == b'b'
      then of_type s boolean
      else if c == b's'
      then of_type s string
      else ok old

  -- The value of the text `v` under a path with these flags.
  unfoldable pub of_stored : Bool → Bool → Value → Bytes → Result Value
  unfolding read_scalar of_directory of_type
  of_stored true wildcard old v = of_directory null v true
  of_stored false true old v = of_type v range
  of_stored false false old v = read_scalar old v

  -- A string, number or boolean, put under a path that is neither a directory nor a wildcard, is
  -- read back from its text in the database as the value it was, whatever value the record had
  -- before.
  pub of_stored-make_db_string :
      (v : Bytes) (t : ValueType) (old : Value)
      → is_scalar t ≡ true
      → (do x ← of_type v t; s ← make_db_string x; of_stored false false old s) ≡ of_type v t
  unfolding of_stored make_db_string of_type
  of_stored-make_db_string v string old h = refl
  of_stored-make_db_string v number old h = refl
  of_stored-make_db_string v boolean old h = refl
  of_stored-make_db_string v _ old h = cc

  -- The texts "A" and "O" with a size.
  abbrev pub descriptor : ValueType → ℕ → Bytes
  descriptor array n = b'A' ∷ to_text n
  descriptor _ n = b'O' ∷ to_text n

  abbrev pub is_container : ValueType → Bool
  is_container array = true
  is_container object = true
  is_container _ = false

  abbrev pub container : ValueType → ℕ → Value
  container t n = record { str_obj = descriptor t n; type = t; size = n; initialized = true }

  -- The descriptor of an array or an object of fewer than 2 ^ 64 members is read, under a directory
  -- and through a wildcard, as a value with its type and size, which is written as the same
  -- descriptor.
  pub of_stored-descriptor :
      (t : ValueType) (n : ℕ) (w : Bool) (old : Value)
      → is_container t ≡ true
      → n < 2 ^ 64
      → (of_stored true w old (descriptor t n) ≡ ok (container t n))
        × (of_stored false true old (descriptor t n) ≡ ok (container t n))
        × (get_size (container t n) ≡ ok n)
        × (make_db_string (container t n) ≡ ok (descriptor t n))
  unfolding of_stored get_size make_db_string
  of_stored-descriptor array n w old c h =
      (rw (cast.read-show n h), rw (cast.read-show n h), refl, refl)
  of_stored-descriptor object n w old c h =
      (rw (cast.read-show n h), rw (cast.read-show n h), refl, refl)
  of_stored-descriptor _ n w old c h = cc

  -- A string, number or boolean with an empty text is a value whose size cannot be asked for:
  -- `getSize` throws value_exception.
  pub get_size-empty_scalar :
      (t : ValueType)
      → is_scalar t ≡ true
      → (of_type [] t >>= get_size) ≡ err (value_exception "empty value")
  unfolding of_type get_size
  get_size-empty_scalar string h = refl
  get_size-empty_scalar number h = refl
  get_size-empty_scalar boolean h = refl
  get_size-empty_scalar _ h = cc
