-- ===== src/Value.antt =====
-- value.hpp and value.cpp: a value with its type, its size, and its form in the database.
pub mod Stored
use janosh.Common.{ℕ, List, [], ◌∷◌, Bool, true, false, not, String, Bytes, ◌==◌, if◌then◌else◌}
use janosh.Result.{Result, ok, err, value_exception, assertion_failed, ◌>>=◌}
use janosh.Component.{LexicalCast, of_text}

-- `enum Type`
pub data ValueType : Type 0 where
  null string array object range number boolean : ValueType

pub record Value : Type 0 where
  pub str_obj : Bytes
  pub type : ValueType
  pub size : ℕ
  pub initialized : Bool

-- `Value::Value()`
abbrev pub uninitialized : Value
uninitialized = record { str_obj = []; type = null; size = 0; initialized = false }

-- `t == String || t == Number || t == Boolean`
abbrev pub is_scalar : ValueType → Bool
is_scalar string = true
is_scalar number = true
is_scalar boolean = true
is_scalar _ = false

-- The type that a directory descriptor begins with.
directory_type : ℕ → Result ValueType
directory_type c =
    if c == b'A'
    then ok array
    else if c == b'O'
    then ok object
    else err (value_exception "unknown directory descriptor")

module _ ⦃cast : LexicalCast⦄ where
  -- `init` with a false `value`: a directory descriptor, such as "A3".
  init_directory : Bytes → Result Value
  unfolding directory_type
  init_directory [] = err assertion_failed
  init_directory (c ∷ rest) = do
    t ← directory_type c
    n ← of_text rest
    ok (record { str_obj = c ∷ rest; type = t; size = n; initialized = true })

  -- `init`; the type is the one that the constructor has set.
  unfoldable pub initialize : ValueType → Bytes → Bool → Result Value
  unfolding init_directory
  initialize t v true = ok (record { str_obj = v; type = t; size = 1; initialized = true })
  initialize t v false = init_directory v

  -- `Value(const string& v, Type t)`; `Value(Type t)` is the same with an empty text.
  unfoldable pub of_type : Bytes → ValueType → Result Value
  unfolding initialize
  of_type v t = initialize t v (is_scalar t)

  -- `Value(const string v, bool dir)`: the type is not set before `init`, and `unset` stands for
  -- what it holds then.
  unfoldable pub of_directory : ValueType → Bytes → Bool → Result Value
  unfolding initialize
  of_directory unset v dir = initialize unset v (not dir)

unfoldable pub is_empty : Value → Bool
is_empty v = elim v.str_obj [ [] ↦ true | c ∷ s ↦ false ]

-- `reset` leaves the type and the size as they are.
unfoldable pub reset : Value → Value
reset v = record v { str_obj = []; initialized = false }

unfoldable pub str : Value → Result Bytes
str v = if v.initialized then ok v.str_obj else err (value_exception "uinitialized value")

unfoldable pub get_size : Value → Result ℕ
unfolding is_empty
get_size v =
    if not v.initialized
    then err (value_exception "uinitialized value")
    else if is_empty v
    then err (value_exception "empty value")
    else ok v.size

-- The mark before the text of a scalar in the database.
abbrev pub mark : ValueType → Bytes → Bytes
mark string s = b's' ∷ s
mark number s = b'n' ∷ s
mark boolean s = b'b' ∷ s
mark _ s = s

unfoldable pub make_db_string : Value → Result Bytes
unfolding str
make_db_string v = do s ← str v; ok (mark v.type s)
