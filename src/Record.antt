-- ===== src/Record.antt =====
-- record.hpp and record.cpp: a record is a path with a value and the cursor that it reads and
-- writes through. The methods that use the cursor are in the module Methods.
pub mod Methods
pub mod Fetch
pub mod Outcome
pub mod Walks
pub mod Connections
pub mod Parents
pub mod Cursors
use janosh.Common.{
  ℕ, zero, suc, List, [], ◌∷◌, Bool, true, false, not, ◌&&◌, ◌||◌, Option, none, some, Bytes, codes,
  if◌then◌else◌,
}
use janosh.Result.{Result, ok, err, record_exception}
use janosh.Exec.{Exec, pure, throw, lift, ◌>>=◌, ◌>>◌, guard}
use janosh.Component.{LexicalCast}
use janosh.Path
use janosh.Path.{KeyPath}
use janosh.Value
use janosh.Value.{Value, ValueType, string, array, object, range}
use janosh.Value.Stored.{of_stored}
use janosh.Tracker.{read}
use janosh.Remote.{RemoteDb, World, M, call, ask, announce}

pub record Record : Type 0 where
  pub cursor : Option ℕ
  pub path : KeyPath
  pub value : Value
  pub does_exist : Bool

-- `Record::Record()`
abbrev pub unset : Record
unset = record { cursor = none; path = Path.empty; value = Value.uninitialized; does_exist = false }

unfoldable pub is_initialized : Record → Bool
is_initialized r = elim r.cursor [ none ↦ false | some c ↦ true ]

unfoldable pub has_data : Record → Bool
has_data r = r.value.initialized

-- `value()` throws without a cursor.
unfoldable pub value_of : Record → Result Value
value_of r = elim r.cursor [
  | none ↦ err (record_exception "uninitialized record")
  | some c ↦ ok r.value
]

abbrev map_type : Result Value → Result ValueType
map_type (ok v) = ok v.type
map_type (err e) = err e

unfoldable pub get_type : Record → Result ValueType
unfolding value_of
get_type r =
    if r.path.directory
    then map_type (value_of r)
    else if r.path.wildcard
    then ok range
    else ok string

abbrev type_is : (ValueType → Bool) → Result ValueType → Result Bool
type_is test (ok t) = ok (test t)
type_is test (err e) = err e

abbrev pub is_type : ValueType → ValueType → Bool
is_type array array = true
is_type object object = true
is_type range range = true
is_type string string = true
is_type _ _ = false

unfoldable pub is_array : Record → Result Bool
unfolding get_type
is_array r = if r.path.directory then type_is (is_type array) (get_type r) else ok false

unfoldable pub is_range : Record → Result Bool
unfolding get_type
is_range r = type_is (is_type range) (get_type r)

unfoldable pub is_object : Record → Result Bool
unfolding get_type
is_object r = type_is (is_type object) (get_type r)

unfoldable pub is_value : Record → Result Bool
unfolding get_type
is_value r = if not r.path.directory then ok true else type_is (is_type string) (get_type r)

unfoldable pub get_size : Record → Result ℕ
unfolding value_of has_data
get_size r =
    if not (has_data r) then err (record_exception "uninitialized record") else elim r.cursor [
      | none ↦ err (record_exception "uninitialized record")
      | some c ↦ Value.get_size r.value
    ]

unfoldable pub is_ancestor_of : Record → Record → Bool
is_ancestor_of r other = Path.above r.path other.path

-- `operator==` and `operator!=`
unfoldable pub equals : Record → Record → Bool
equals r other = Path.equals r.path other.path

unfoldable pub differs : Record → Record → Bool
differs r other = not (Path.equals r.path other.path)

-- `clear`
unfoldable pub clear : Record → Record
clear r = record r { path = Path.empty; value = Value.reset r.value }

module _ ⦃cast : LexicalCast⦄ where
  unfoldable pub get_index : Record → Result ℕ
  get_index r = elim r.cursor [
    | none ↦ err (record_exception "uninitialized record")
    | some c ↦ Path.parse_index r.path
  ]

  -- `setPath`
  unfoldable pub set_path : Record → Bytes → Result Record
  set_path r p = elim (Path.update p) [
    | ok q ↦ ok (record r { path = q; does_exist = false })
    | err e ↦ err e
  ]
