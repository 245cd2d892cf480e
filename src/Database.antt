-- ===== src/Database.antt =====
-- The operations of the class Janosh in janosh.hpp and janosh.cpp on single records and containers.
-- A parameter that is a `Record` is a copy that shares its cursor, so a function that fetches it
-- changes the caller's cursor but not the caller's record. `JANOSH_TRACE` is left out.
pub mod Containers
pub mod Values
pub mod Replaces
pub mod Sets
pub mod Orphans
pub mod Directories
pub mod Appends
pub mod Load
pub mod Dumps
pub mod Moving
pub mod Removal
pub mod Shifts
pub mod Removes
use janosh.Common.{
  ℕ, ◌+◌, ◌%◌, ◌^◌, List, [], ◌∷◌, Bool, true, false, not, ◌&&◌, ◌||◌, Bytes, codes, leb,
  if◌then◌else◌,
}
use janosh.Result.{Result, ok, err, janosh_exception, assertion_failed}
use janosh.Exec.{pure, throw, lift, ◌>>=◌, ◌>>◌, guard}
use janosh.Component.{LexicalCast, to_text}
use janosh.Path
use janosh.Path.{KeyPath}
use janosh.Value
use janosh.Value.{Value, ValueType, array, object}
use janosh.Tracker.{write}
use janosh.Remote.{RemoteDb, M, call, announce}
use janosh.Record
use janosh.Record.{Record}
use janosh.Record.Methods.{pool_get, on, fetched}
use janosh.Record.Methods

-- The letter of a container's type; any other type fails an assertion.
letter : ValueType → Result ℕ
letter array = ok b'A'
letter object = ok b'O'
letter _ = err assertion_failed

-- A Boolean result of the server as a count.
abbrev pub as_count : Bool → ℕ
as_count true = 1
as_count false = 0

module _ ⦃cast : LexicalCast⦄ ⦃remote : RemoteDb⦄ where
  -- The test of `boundsCheck`, behind its two fetches.
  abbrev pub in_bounds : Record → Record → M Bool
  in_bounds p parent = if Path.is_root parent.path then pure true else (do
    is_arr ← lift (Record.is_array parent)
    if not is_arr then pure true else (do
      i ← lift (Path.parse_index p.path)
      n ← lift (Record.get_size parent)
      pure (leb i n)))

  unfoldable pub bounds_check : Record → M Bool
  bounds_check p = do
    parent ← Methods.parent p
    p' ← fetched p
    parent' ← fetched parent
    in_bounds p' parent'

  unfoldable pub set_container_size : Record → ℕ → M (Unit {0})
  unfolding letter
  set_container_size container s = do
    t ← lift (Record.get_type container)
    c ← lift (letter t)
    on container (Methods.set_value (c ∷ to_text s))
    announce container.path.pretty_str (c ∷ to_text s) write

  -- The sum is a `size_t`: a `by` of 2 ^ 64 - 1 takes one away.
  unfoldable pub change_container_size : Record → ℕ → M (Unit {0})
  unfolding set_container_size
  change_container_size container by = do
    c ← fetched container
    n ← lift (Record.get_size c)
    set_container_size c ((n + by) % 2 ^ 64)

  -- The guard of `makeArray` and `makeObject`: the target is a directory, and neither it nor a
  -- value in its place exists. The target is returned as fetched.
  unfoldable pub free_directory : Record → M Record
  free_directory target = do
    t ← fetched target
    b ← lift (Path.base_path t.path)
    base ← pool_get b.key_str
    base' ← fetched base
    guard (t.path.directory && not t.does_exist && not base'.does_exist)
        (janosh_exception "Invalid target")
    pure t

  -- `makeArray`
  unfoldable pub make_array : Record → ℕ → Bool → M ℕ
  make_array target size bounds = do
    t ← free_directory target
    inside ← (if bounds then bounds_check t else pure true)
    guard inside (janosh_exception "Out of array bounds")
    parent ← Methods.parent t
    change_container_size parent 1
    announce t.path.pretty_str (b'A' ∷ to_text size) write
    added ← call (remote.add t.path.key_str (b'A' ∷ to_text size))
    pure (as_count added)

  -- `makeObject`
  unfoldable pub make_object : Record → ℕ → M ℕ
  make_object target size = do
    t ← free_directory target
    inside ← bounds_check t
    guard inside (janosh_exception "Out of array bounds")
    (if Path.is_root t.path
        then pure tt
        else (do parent ← Methods.parent t; change_container_size parent 1))
    announce t.path.pretty_str (b'O' ∷ to_text size) write
    added ← call (remote.add t.path.key_str (b'O' ∷ to_text size))
    pure (as_count added)

  unfoldable pub make_directory : Record → ValueType → ℕ → M ℕ
  make_directory target array size = make_array target size true
  make_directory target object size = make_object target size
  make_directory target _ size = throw assertion_failed

  -- `add(Record, const Value&)`: the record is not fetched.
  unfoldable pub add : Record → Value → M ℕ
  add dest value = do
    scalar ← lift (Record.is_value dest)
    guard (scalar && not dest.does_exist) (janosh_exception "Invalid target")
    inside ← bounds_check dest
    guard inside (janosh_exception "Out of array bounds")
    s ← lift (Value.make_db_string value)
    announce dest.path.pretty_str s write
    added ← call (remote.add dest.path.key_str s)
    if added
        then (do parent ← Methods.parent dest; change_container_size parent 1; pure 1)
        else pure 0

  -- `replace(Record, const Value&)`
  unfoldable pub replace : Record → Value → M ℕ
  replace dest value = do
    d ← fetched dest
    scalar ← lift (Record.is_value d)
    guard (scalar && d.does_exist) (janosh_exception "Invalid target")
    inside ← bounds_check d
    guard inside (janosh_exception "Out of array bounds")
    s ← lift (Value.make_db_string value)
    announce d.path.pretty_str s write
    replaced ← call (remote.replace d.path.key_str s)
    pure (as_count replaced)

  unfoldable pub set : Record → Value → M ℕ
  set rec value = do
    scalar ← lift (Record.is_value rec)
    guard scalar (janosh_exception "Invalid target")
    inside ← bounds_check rec
    guard inside (janosh_exception "Out of array bounds")
    r ← fetched rec
    if r.does_exist then replace r value else add r value

  unfoldable pub size : Record → M ℕ
  size rec = do
    guard rec.path.directory (janosh_exception "size is limited to containers")
    r ← fetched rec
    lift (Record.get_size r)

  -- The loop of `append` over values: `i` is the index of the next element.
  unfoldable pub append_from : KeyPath → ℕ → ℕ → List Value → M ℕ
  append_from path i cnt [] = pure cnt
  append_from path i cnt (v ∷ vs) = do
    target ← lift (Path.with_index path ((i + cnt) % 2 ^ 64))
    s ← lift (Value.make_db_string v)
    announce target.pretty_str s write
    added ← call (remote.add target.key_str s)
    guard added (janosh_exception "Failed to add target")
    append_from path i (cnt + 1) vs

  -- `append(begin, end, dest)`
  unfoldable pub append_values : List Value → Record → M ℕ
  unfolding append_from
  append_values vs dest = do
    d ← fetched dest
    arr ← lift (Record.is_array d)
    guard arr (janosh_exception "append is limited to arrays")
    n ← lift (Record.get_size d)
    cnt ← append_from d.path n 0 vs
    set_container_size d ((n + cnt) % 2 ^ 64)
    pure cnt

  unfoldable pub truncate : M ℕ
  truncate = do
    cleared ← call remote.clear
    if cleared
        then (do added ← call (remote.add (codes "/!") (b'O' ∷ to_text 0)); pure (as_count added))
        else pure 0
