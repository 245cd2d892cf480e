-- ===== src/Database/Moving.antt =====
-- The operations of janosh.cpp that append, copy and remove records and what is below them. A
-- `Record&` is returned as it is after the call. Recursion into directories is bounded by a number
-- of levels.
use janosh.Common.{ℕ, zero, suc, ◌+◌, ◌%◌, ◌^◌, Bool, not, ◌&&◌, ◌||◌, ltb, if◌then◌else◌}
use janosh.Result.{Result, err, janosh_exception, out_of_fuel}
use janosh.Exec.{pure, throw, lift, ◌>>=◌, ◌>>◌, guard}
use janosh.Component.{LexicalCast}
use janosh.Path
use janosh.Path.{KeyPath}
use janosh.Value
use janosh.Value.{Value, ValueType, string, array}
use janosh.Tracker.{write}
use janosh.Remote.{RemoteDb, M, call, announce}
use janosh.Record
use janosh.Record.{Record}
use janosh.Record.Methods
use janosh.Record.Methods.{Method, pool_get, on, fetched, step, next, read_record}
use janosh.Database.{set, make_directory, set_container_size}

module _ ⦃cast : LexicalCast⦄ ⦃remote : RemoteDb⦄ where
  -- The record of a path that may have failed.
  abbrev pub opened_at : Result KeyPath → M Record
  opened_at p = do q ← lift p; pool_get q.key_str

  -- Adds the value of `src` under a path, or throws.
  unfoldable pub add_value : Record → Result KeyPath → M (Unit {0})
  add_value src at = do
    target ← lift at
    x ← lift (Record.value_of src)
    s ← lift (Value.make_db_string x)
    announce target.pretty_str s write
    added ← call (remote.add target.key_str s)
    guard added (janosh_exception "add failed")

  -- The value of `src` as a member of `dest`, `i` places behind its end.
  unfoldable pub append_scalar : Record → Record → ℕ → M (Unit {0})
  unfolding add_value
  append_scalar src dest i = do
    arr ← lift (Record.is_array dest)
    obj ← lift (Record.is_object dest)
    if arr
        then add_value src (Path.with_index dest.path i)
        else if obj
        then add_value src (Path.with_child dest.path (Path.name src.path))
        else pure tt

  -- The path of a directory as a member of `dest`.
  abbrev pub place_of : Record → Record → ℕ → Bool → Bool → Result KeyPath
  place_of src dest i obj arr =
      if obj
      then Path.with_child dest.path (Path.name src.path)
      else if arr
      then Path.with_index dest.path i
      else err (janosh_exception "can't append to a value")

  -- The directory `src` with what is below it, which `append` appends.
  unfoldable pub append_directory :
      (Record → Record → M (ℕ × Record × Record)) → Record → Record → ℕ → M (Unit {0})
  append_directory append src dest i = do
    obj ← lift (Record.is_object dest)
    arr ← lift (Record.is_array dest)
    place ← lift (place_of src dest i obj arr)
    target ← opened_at (Path.as_directory place)
    guard (not (Record.is_ancestor_of src target)) (janosh_exception "can't append an ancestor")
    t ← lift (Record.get_type src)
    made ← make_directory target t 0
    guard (ltb 0 made) (janosh_exception "failed to create directory")
    wildcard ← opened_at (Path.as_wildcard src.path)
    (n, _, _) ← append wildcard target
    guard (ltb 0 n) (janosh_exception "failed to append values")

  -- On to the record that is appended as number `cnt`.
  unfoldable pub advance : ℕ → Method (Unit {0})
  unfolding next step
  advance zero = do
    r ← Methods.self
    range ← lift (Record.is_range r)
    if range then (do step; pure tt) else pure tt
  advance (suc cnt) = next

  -- The loop of `append`: `n` records are left, and `cnt` are done.
  unfoldable pub append_loop :
      (Record → Record → M (ℕ × Record × Record)) → ℕ → ℕ → ℕ → Record → Record → M Record
  unfolding advance append_directory append_scalar
  append_loop append zero cnt s src dest = pure src
  append_loop append (suc n) cnt s src dest = do
    (_, moved) ← on src (advance cnt)
    (_, here) ← on moved read_record
    guard (not (Record.is_ancestor_of here dest)) (janosh_exception "can't append an ancestor")
    (if here.path.directory
        then append_directory append here dest ((s + cnt) % 2 ^ 64)
        else append_scalar here dest ((s + cnt) % 2 ^ 64))
    append_loop append n (cnt + 1) s here dest

  -- `append(Record&, Record&)`, down to `levels` levels
  unfoldable pub append : ℕ → Record → Record → M (ℕ × Record × Record)
  unfolding append_loop
  append zero src dest = throw out_of_fuel
  append (suc levels) src dest = do
    guard dest.path.directory (janosh_exception "append is limited to directories")
    src' ← fetched src
    dest' ← fetched dest
    n ← lift (Record.get_size src')
    s ← lift (Record.get_size dest')
    last ← append_loop (append levels) n 0 s src' dest'
    set_container_size dest' ((s + n) % 2 ^ 64)
    pure (n, last, dest')

  -- The branches of `copy` behind its guards.
  abbrev pub copy_parts : ℕ → Record → Record → Bool → Bool → Bool → M (ℕ × Record × Record)
  copy_parts levels src dest range scalar dest_scalar =
      if (range || src.path.directory) && not dest.does_exist
      then (do
        t ← lift (Record.get_type src)
        make_directory dest t 0
        wildcard ← opened_at (Path.as_wildcard src.path)
        (n, _, dest') ← append levels wildcard dest
        pure (n, src, dest'))
      else if scalar && dest_scalar
      then (do x ← lift (Record.value_of src); n ← set dest x; pure (n, src, dest))
      else append levels src dest

  unfoldable pub copy : ℕ → Record → Record → M (ℕ × Record × Record)
  unfolding append
  copy levels src dest = do
    src' ← fetched src
    dest' ← fetched dest
    range ← lift (Record.is_range src')
    guard (not (dest'.does_exist && not range)) (janosh_exception "destination exists")
    dest_range ← lift (Record.is_range dest')
    guard (not dest_range) (janosh_exception "destination can't be a range")
    scalar ← lift (Record.is_value src')
    dest_scalar ← lift (Record.is_value dest')
    if Record.equals src' dest' then pure (0, src', dest') else (do
      guard (scalar || dest'.path.directory) (janosh_exception "invalid target")
      copy_parts levels src' dest' range scalar dest_scalar)
