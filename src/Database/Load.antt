-- ===== src/Database/Load.antt =====
-- `load` and `patch` of janosh.cpp, which write a JSON value below a path. The path is a reference:
-- each function returns it beside its count. An index is the 32-bit word of an `int`.
pub mod Flat
pub mod Writes
use janosh.Common.{
  ℕ, ◌+◌, ◌-◌, ◌%◌, ◌^◌, [], ◌∷◌, Bool, true, false, Bytes, codes, ltb, ◌==◌, if◌then◌else◌,
}
use janosh.Result.{Result, ok, err, undefined_behaviour}
use janosh.Exec.{pure, lift, ◌>>=◌, ◌>>◌}
use janosh.Component.{LexicalCast, to_text}
use janosh.Path
use janosh.Path.{KeyPath}
use janosh.Value
use janosh.Value.{Value, ValueType, string, number, boolean, array, object}
use janosh.Value.Stored.{is_container}
use janosh.Json
use janosh.Json.{Json, Items, Fields, JsonSpirit}
use janosh.Tracker.{write}
use janosh.Remote.{RemoteDb, M, call, announce}
use janosh.Record.Methods.{pool_get, fetched}
use janosh.Database.{as_count, set, size, make_object, make_array}

module _ ⦃cast : LexicalCast⦄ where
  -- `std::to_string` of a word of `w` values in two's complement.
  abbrev pub signed_text : ℕ → ℕ → Bytes
  signed_text w i = if ltb (i + i) w then to_text i else b'-' ∷ to_text (w - i)

  -- `std::to_string(bool)`
  abbrev pub bool_text : Bool → Bytes
  bool_text true = codes "1"
  bool_text false = codes "0"

-- `index++`, which is undefined for the greatest `int`.
unfoldable pub increment : ℕ → Result ℕ
increment index = if index == 2 ^ 31 - 1 then err undefined_behaviour else ok ((index + 1) % 2 ^ 32)

-- The `size_t` of an `int`, with its sign.
unfoldable pub to_size : ℕ → ℕ
to_size index = if ltb index (2 ^ 31) then index else index + (2 ^ 64 - 2 ^ 32)

module _ ⦃cast : LexicalCast⦄ ⦃remote : RemoteDb⦄ where
  -- `load(const Path&, const Value&)`
  unfoldable pub load_value : KeyPath → Value → M ℕ
  load_value path value = do
    s ← lift (Value.make_db_string value)
    announce path.pretty_str s write
    stored ← call (remote.set path.key_str s)
    pure (as_count stored)

  -- A value of the text, written with `load_value`.
  unfoldable pub load_text : KeyPath → Bytes → ValueType → M (ℕ × KeyPath)
  unfolding load_value
  load_text path s t = do
    value ← lift (Value.of_type s t)
    cnt ← load_value path value
    pure (cnt, path)

  -- The record of a container, under the directory of the path.
  unfoldable pub load_container : KeyPath → Bytes → ValueType → M (ℕ × KeyPath)
  unfolding load_value
  load_container path s t = do
    dir ← lift (Path.push_member path (codes "."))
    value ← lift (Value.of_type s t)
    cnt ← load_value dir value
    back ← lift (Path.pop dir)
    pure (cnt, back)

  -- `patch(const Path&, const Value&)`
  unfoldable pub patch_value : KeyPath → Value → M ℕ
  patch_value path value = do
    s ← lift (Value.make_db_string value)
    announce path.pretty_str s write
    if is_container value.type then pure 1 else (do r ← pool_get path.key_str; set r value)

  unfoldable pub patch_text : KeyPath → Bytes → ValueType → M (ℕ × KeyPath)
  unfolding patch_value
  patch_text path s t = do
    value ← lift (Value.of_type s t)
    cnt ← patch_value path value
    pure (cnt, path)

  -- Makes the object at the directory of the path where there is none.
  unfoldable pub patch_object : KeyPath → M (ℕ × KeyPath)
  patch_object path = do
    dir ← lift (Path.push_member path (codes "."))
    r ← pool_get dir.key_str
    r' ← fetched r
    cnt ←
        (if r'.does_exist then pure 0 else (do target ← pool_get dir.key_str; make_object target 0))
    back ← lift (Path.pop dir)
    pure (cnt, back)

  abbrev counts_of : Bool → KeyPath → M (ℕ × ℕ)
  counts_of true dir = do target ← pool_get dir.key_str; n ← size target; pure (0, n)
  counts_of false dir = do
    target ← pool_get dir.key_str
    cnt ← make_array target 0 true
    pure (cnt, 0)

  -- Makes the array, or takes the size of the one that is there as the first index, which keeps the
  -- lowest 32 bits.
  unfoldable pub patch_array : KeyPath → M (ℕ × ℕ × KeyPath)
  patch_array path = do
    dir ← lift (Path.push_member path (codes "."))
    r ← pool_get dir.key_str
    r' ← fetched r
    counts ← counts_of r'.does_exist dir
    back ← lift (Path.pop dir)
    pure (counts.0, counts.1 % 2 ^ 32, back)

module _ ⦃cast : LexicalCast⦄ ⦃remote : RemoteDb⦄ ⦃spirit : JsonSpirit⦄ where
  unfoldable mutual
    -- `load(js::Value&, Path&)`, and its loops over the members
    pub load : Json → KeyPath → M (ℕ × KeyPath)
    load Json.null path = pure (0, path)
    load (Json.text s) path = load_text path s string
    load (Json.integer i) path = load_text path (signed_text (2 ^ 32) (spirit.get_int i)) number
    load (Json.boolean b) path = load_text path (bool_text b) boolean
    load (Json.real s) path = load_text path s number
    load (Json.array vs) path = do
      first ← load_container path (b'A' ∷ to_text (Json.count vs)) array
      rest ← load_items 0 vs first.1
      pure ((first.0 + rest.0) % 2 ^ 64, rest.1)
    load (Json.object fs) path = do
      first ← load_container path (b'O' ∷ to_text (Json.count_fields fs)) object
      rest ← load_fields fs first.1
      pure ((first.0 + rest.0) % 2 ^ 64, rest.1)

    pub load_items : ℕ → Items → KeyPath → M (ℕ × KeyPath)
    load_items index Json.no_items path = pure (0, path)
    load_items index (Json.item v vs) path = do
      next ← lift (increment index)
      slot ← lift (Path.push_index path (to_size index))
      one ← load v slot
      back ← lift (Path.pop one.1)
      rest ← load_items next vs back
      pure ((one.0 + 1 + rest.0) % 2 ^ 64, rest.1)

    pub load_fields : Fields → KeyPath → M (ℕ × KeyPath)
    load_fields Json.no_fields path = pure (0, path)
    load_fields (Json.field n v fs) path = do
      member ← lift (Path.push_member path n)
      one ← load v member
      back ← lift (Path.pop one.1)
      rest ← load_fields fs back
      pure ((one.0 + 1 + rest.0) % 2 ^ 64, rest.1)

  unfoldable mutual
    -- `patch(js::Value&, Path&)`, and its loops over the members
    pub patch : Json → KeyPath → M (ℕ × KeyPath)
    patch Json.null path = pure (0, path)
    patch (Json.text s) path = patch_text path s string
    patch (Json.integer i) path = patch_text path (signed_text (2 ^ 64) i) number
    patch (Json.boolean b) path = patch_text path (bool_text b) boolean
    patch (Json.real s) path = patch_text path s number
    patch (Json.array vs) path = do
      (made, index, back) ← patch_array path
      rest ← patch_items index vs back
      pure ((made + rest.0) % 2 ^ 64, rest.1)
    patch (Json.object fs) path = do
      first ← patch_object path
      rest ← patch_fields fs first.1
      pure ((first.0 + rest.0) % 2 ^ 64, rest.1)

    pub patch_items : ℕ → Items → KeyPath → M (ℕ × KeyPath)
    patch_items index Json.no_items path = pure (0, path)
    patch_items index (Json.item v vs) path = do
      next ← lift (increment index)
      slot ← lift (Path.push_index path (to_size index))
      one ← patch v slot
      back ← lift (Path.pop one.1)
      rest ← patch_items next vs back
      pure ((one.0 + 1 + rest.0) % 2 ^ 64, rest.1)

    pub patch_fields : Fields → KeyPath → M (ℕ × KeyPath)
    patch_fields Json.no_fields path = pure (0, path)
    patch_fields (Json.field n v fs) path = do
      member ← lift (Path.push_member path n)
      one ← patch v member
      back ← lift (Path.pop one.1)
      rest ← patch_fields fs back
      pure ((one.0 + 1 + rest.0) % 2 ^ 64, rest.1)

  -- `loadJson(std::istream&)`, of the value that `js::read` has read
  unfoldable pub load_json : Json → M ℕ
  unfolding load
  load_json v = do r ← load v Path.empty; pure r.0

  -- `patch(std::istream&)`
  unfoldable pub patch_json : Json → M ℕ
  unfolding patch
  patch_json v = do r ← patch v Path.empty; pure r.0
