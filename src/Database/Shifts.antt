-- ===== src/Database/Shifts.antt =====
-- `replace`, `move` and `shift` of records. A `Record&` is returned as it is after the call;
-- recursion and the walks over records are bounded by a number of levels.
use janosh.Common.{ℕ, zero, suc, ◌-◌, Bool, true, false, not, ◌&&◌, ◌||◌, codes, ltb, if◌then◌else◌}
use janosh.Result.{janosh_exception}
use janosh.Exec.{pure, lift, ◌>>=◌, ◌>>◌, guard}
use janosh.Component.{LexicalCast}
use janosh.Path
use janosh.Path.{KeyPath}
use janosh.Value
use janosh.Value.{Value, ValueType, string, array}
use janosh.Tracker.{write}
use janosh.Remote.{RemoteDb, M, call, announce}
use janosh.Record
use janosh.Record.{Record}
use janosh.Record.Methods
use janosh.Record.Methods.{Method, pool_get, on, fetched, step, next, read_record}
use janosh.Record.Walks
use janosh.Database.{as_count, bounds_check, set, make_directory}
use janosh.Database.Removal.{remove, make_temp}
use janosh.Database.Moving.{opened_at, append, copy}

module _ ⦃cast : LexicalCast⦄ ⦃remote : RemoteDb⦄ where
  -- Removes the record if it exists.
  abbrev clear_place : ℕ → Bool → Record → M (Unit {0})
  clear_place levels pack r = do remove levels pack r; pure tt

  -- A scalar is written over the record of a path: the server's `replace`.
  abbrev overwrite : Record → Record → M ℕ
  overwrite src dest = do
    x ← lift (Record.value_of src)
    s ← lift (Value.make_db_string x)
    announce dest.path.pretty_str s write
    replaced ← call (remote.replace dest.path.key_str s)
    pure (as_count replaced)

  -- Where the source of a `move` goes: to a directory, or to the place of a value.
  abbrev move_target : Record → Record → M Record
  move_target src dest =
      if dest.path.directory
      then (if src.path.directory then pure dest else opened_at (Path.base_path dest.path))
      else Methods.parent dest

  -- `move` behind its guards: the count, the source and the destination.
  abbrev move_parts : ℕ → Record → Record → M (ℕ × Record × Record)
  move_parts levels src dest =
      if dest.path.directory || src.path.directory
      then (do
        target ← move_target src dest
        (if dest.does_exist then clear_place levels true dest else pure tt)
        copy levels src target)
      else (do r ← overwrite src dest; pure (r, src, dest))

  -- Both records stand for the destination afterwards.
  unfoldable pub move : ℕ → Record → Record → M (ℕ × Record)
  unfolding remove
  move levels src dest = do
    src' ← fetched src
    dest' ← fetched dest
    range ← lift (Record.is_range src')
    guard (not range && src'.does_exist) (janosh_exception "Invalid src")
    guard (not (Path.is_root dest'.path)) (janosh_exception "Invalid target")
    inside ← bounds_check dest'
    guard inside (janosh_exception "Out of array bounds")
    (r, from, to) ← move_parts levels src' dest'
    remove levels true from
    pure (r, to)

  -- A record made anew from a path, and fetched.
  abbrev reopened : KeyPath → M Record
  reopened p = do r ← pool_get p.key_str; fetched r

  -- `replace` of records behind its guards: the count and the destination.
  abbrev replace_parts : ℕ → Record → Record → M (ℕ × Record)
  replace_parts levels src dest =
      if dest.path.directory
      then (do
        target ←
            (if src.path.directory
              then pool_get dest.path.key_str
              else opened_at (Path.base_path dest.path))
        clear_place levels false dest
        (r, _, target') ← copy levels src target
        dest' ← reopened target'.path
        pure (r, dest'))
      else if src.path.directory
      then (do
        target ← opened_at (Path.as_directory dest.path)
        wildcard ← opened_at (Path.as_wildcard src.path)
        clear_place levels false dest
        t ← lift (Record.get_type src)
        make_directory target t 0
        (r, _, target') ← append levels wildcard target
        pure (r, target'))
      else (do r ← overwrite src dest; pure (r, dest))

  -- `replace(Record&, Record&)`: the count, and both records as they are read again.
  unfoldable pub replace_record : ℕ → Record → Record → M (ℕ × Record × Record)
  unfolding remove
  replace_record levels from dest = do
    src ← fetched from
    dest' ← fetched dest
    range ← lift (Record.is_range src)
    guard (not range && src.does_exist && dest'.does_exist) (janosh_exception "Invalid target")
    inside ← bounds_check dest'
    guard inside (janosh_exception "Out of array bounds")
    (r, to) ← replace_parts levels src dest'
    (_, from') ← on from read_record
    (_, to') ← on to read_record
    pure (r, from', to')

  -- One step of a record that `shift` moves along the array.
  abbrev along : ℕ → Bool → Record → M Record
  along levels true r = do (_, r') ← on r (Walks.previous levels); pure r'
  along levels false r = do (_, r') ← on r next; pure r'

  -- The loop of `shift`.
  unfoldable pub shift_loop : ℕ → Bool → ℕ → Record → Record → M (Unit {0})
  unfolding replace_record
  shift_loop levels back zero forward_rec back_rec = pure tt
  shift_loop levels back (suc n) forward_rec back_rec = do
    (_, f, b) ← replace_record levels forward_rec back_rec
    b' ← along levels back b
    f' ← along levels back f
    shift_loop levels back n f' b'

  -- The copy of the source that `shift` keeps under "/tmp/.".
  abbrev kept_copy : ℕ → Record → M Record
  kept_copy levels src =
      if src.path.directory
      then (do
        t ← lift (Record.get_type src)
        tmp ← make_temp t
        wildcard ← opened_at (Path.as_wildcard src.path)
        (_, _, tmp') ← append levels wildcard tmp
        pure tmp')
      else (do tmp ← make_temp string; x ← lift (Record.value_of src); set tmp x; pure tmp)

  -- `shift`: the element goes to the index of `dest`, and those between move by one.
  unfoldable pub shift : ℕ → Record → Record → M (ℕ × Record)
  unfolding shift_loop
  shift levels src dest = do
    made ← Methods.parent src
    src_parent ← fetched made
    arr ← lift (Record.is_array src_parent)
    dest_parent ← Methods.parent dest
    guard (arr && Record.equals src_parent dest_parent)
        (janosh_exception "shift is limited to operate within one array")
    size ← lift (Record.get_size src_parent)
    i ← lift (Record.get_index src)
    j ← lift (Record.get_index dest)
    guard (ltb i size && ltb j size) (janosh_exception "index out of bounds")
    cloned ← Methods.clone src
    at_src ← fetched cloned
    again ← Methods.clone src
    back_rec ← fetched again
    forward_rec ← along levels (ltb j i) at_src
    tmp ← kept_copy levels src
    shift_loop levels (ltb j i) (if ltb j i then i - j else j - i) forward_rec back_rec
    tmp' ← fetched tmp
    (_, _, dest') ← replace_record levels tmp' dest
    tmp_dir ← pool_get (codes "/tmp/.")
    remove levels true tmp_dir
    pure (1, dest')
