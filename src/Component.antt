-- ===== src/Component.antt =====
-- component.hpp and component.cpp: one component of a path, with its key, which is what the
-- database sorts by, and its pretty form, which is what a user reads and writes.
-- `boost::lexical_cast` is not part of the program: it is the parameter `LexicalCast`.
pub mod Bits
pub mod Cast
pub mod Keys
pub mod Order
pub use Cast.{LexicalCast, to_text, of_text}
unfoldable pub use Bits.{key_encode_index, key_decode_index}
pub use Bits.{key_decode_index-key_encode_index}
use janosh.Common.{
  ℕ, List, [], ◌∷◌, ◌++◌, Bool, true, false, not, ◌&&◌, ◌≡◌, Bytes, codes, bytes_eq, bytes_lt, ◌==◌,
  if◌then◌else◌,
}
use janosh.Result.{Result, ok, err, out_of_range, ◌>>=◌}

pub record Component : Type 0 where
  pub key : Bytes
  pub pretty : Bytes

-- `Component::Component()`
abbrev pub empty : Component
empty = record { key = []; pretty = [] }

abbrev pub index_mark : ℕ
index_mark = b'#'

abbrev pub encoded_mark : ℕ
encoded_mark = b'$'

abbrev pub directory_mark : ℕ
directory_mark = b'.'

abbrev pub key_directory_mark : ℕ
key_directory_mark = b'!'

module _ ⦃cast : LexicalCast⦄ where
  -- `Component::Component(const string& c)`
  unfoldable pub of_string : Bytes → Result Component
  of_string [] = ok empty
  of_string (c ∷ rest) =
      if c == index_mark
      then (do
        i ← of_text rest
        ok (record { key = encoded_mark ∷ key_encode_index i; pretty = index_mark ∷ to_text i }))
      else if c == encoded_mark
      then (do
        dec ← key_decode_index rest
        ok (record { key = encoded_mark ∷ rest; pretty = index_mark ∷ to_text dec }))
      else if c == directory_mark
      then ok (record { key = key_directory_mark ∷ []; pretty = c ∷ rest })
      else if c == key_directory_mark
      then ok (record { key = key_directory_mark ∷ []; pretty = directory_mark ∷ [] })
      else ok (record { key = c ∷ rest; pretty = c ∷ rest })

-- `operator==`, `operator!=` and `operator<`
unfoldable pub equals : Component → Component → Bool
equals a b = bytes_eq a.key b.key

unfoldable pub differs : Component → Component → Bool
unfolding equals
differs a b = not (equals a b)

unfoldable pub less : Component → Component → Bool
less a b = bytes_lt a.key b.key

-- `_pretty.at(0)` throws on an empty text.
first_is : ℕ → Bytes → Result Bool
first_is c [] = err out_of_range
first_is c (b ∷ s) = ok (b == c)

unfoldable pub is_index : Component → Result Bool
unfolding first_is
is_index a = first_is index_mark a.pretty

is_empty : Bytes → Bool
is_empty [] = true
is_empty (c ∷ s) = false

unfoldable pub is_valid : Component → Bool
unfolding is_empty
is_valid a = not (is_empty a.pretty) && not (is_empty a.key)

unfoldable pub is_directory : Component → Bool
unfolding bytes_eq
is_directory a = bytes_eq a.pretty (codes ".")

unfoldable pub is_wildcard : Component → Bool
unfolding bytes_eq
is_wildcard a = bytes_eq a.pretty (codes "*")
