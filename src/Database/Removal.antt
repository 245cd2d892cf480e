-- ===== src/Database/Removal.antt =====
-- `remove` and `makeTemp` of janosh.cpp. A `Record&` is returned as it is after the call; recursion and the walks
-- over records are bounded by a number of levels.
use janosh.Common.{
  ℕ, zero, suc, ◌+◌, ◌-◌, ◌%◌, ◌^◌, [], Bool, true, false, not, ◌&&◌, ◌||◌, codes, ltb,
  if◌then◌else◌,
}
use janosh.Result.{ok, db_exception, out_of_fuel}
use janosh.Exec.{pure, throw, lift, ◌>>=◌, ◌>>◌, guard}
use janosh.Component.{LexicalCast}
use janosh.Path
use janosh.Path.{KeyPath}
use janosh.Value
use janosh.Value.{Value, ValueType, string, array}
use janosh.Tracker.{delete}
use janosh.Remote.{RemoteDb, M, announce}
use janosh.Record
use janosh.Record.{Record}
use janosh.Record.Methods
use janosh.Record.Methods.{Method, pool_get, on, fetched, step, next, read_record}
use janosh.Database.{add, make_directory, set_container_size, change_container_size}
use janosh.Database.Moving.{opened_at, copy}

module _ ⦃cast : LexicalCast⦄ ⦃remote : RemoteDb⦄ where
  abbrev told_delete : Bool → Record → M (Unit {0})
  told_delete true r = announce r.path.pretty_str [] delete
  told_delete false r = pure tt

  -- The loop of `remove` over `n` records; `cnt` counts those that are no directory.
  unfoldable pub remove_loop : (Record → M (ℕ × Record)) → Bool → ℕ → ℕ → Record → M (ℕ × Record)
  remove_loop remove_below pack zero cnt rec = pure (cnt, rec)
  remove_loop remove_below pack (suc n) cnt rec =
      let rest = remove_loop remove_below pack n in
      if rec.path.directory
      then (do (_, rec') ← remove_below rec; rest cnt rec')
      else (do told_delete pack rec; (_, rec') ← on rec Methods.remove; rest (cnt + 1) rec')

  -- A method whose exception is caught; what it did before stays done.
  abbrev pub attempt : Method (Unit {0}) → Method (Unit {0})
  attempt m s = (ok tt, (m s).1)

  -- One element of the array `parent` moves to the index `i`, or is stepped over.
  unfoldable pub pack_one : (Record → M (ℕ × Record)) → ℕ → Record → ℕ → Record → M Record
  pack_one remove_below levels parent i child = do
    idx ← lift (Record.get_index child)
    if ltb i idx
        then (if child.path.directory
            then (do
              slot ← lift (Path.with_index parent.path i)
              to ← opened_at (Path.as_directory slot)
              (_, from, _) ← copy levels child to
              (_, rest) ← remove_below from
              pure rest)
            else (do
              to ← opened_at (Path.with_index parent.path i)
              (_, from, _) ← copy levels child to
              announce from.path.pretty_str [] delete
              (_, rest) ← on from Methods.remove
              pure rest))
        else (do (_, rest) ← on child (attempt next); pure rest)

  -- The loop that closes the gaps of an array, from the index `i` on.
  unfoldable pub pack_loop : (Record → M (ℕ × Record)) → ℕ → Record → ℕ → ℕ → Record → M (Unit {0})
  unfolding pack_one
  pack_loop remove_below levels parent zero i child = pure tt
  pack_loop remove_below levels parent (suc left) i child = do
    here ← fetched child
    up ← Methods.parent here
    guard (Path.equals up.path parent.path) (db_exception "corrupted array detected")
    rest ← pack_one remove_below levels parent i here
    pack_loop remove_below levels parent left (i + 1) rest

  -- The part of `remove` for the parent that is an array.
  unfoldable pub pack_array : (Record → M (ℕ × Record)) → ℕ → Record → M (Unit {0})
  unfolding pack_loop
  pack_array remove_below levels parent = do
    (_, here) ← on parent read_record
    opened ← pool_get here.path.key_str
    child ← fetched opened
    left ← lift (Record.get_size here)
    (_, first) ← on child step
    pack_loop remove_below levels here left 0 first
    set_container_size here left

  -- What `remove` does behind its loop: the directory itself, and the size of the parent.
  unfoldable pub remove_container : Bool → ℕ → Record → Record → M Record
  remove_container pack cnt target parent =
      if target.path.directory
      then (do
        told_delete pack target
        (_, gone) ← on target Methods.remove
        change_container_size parent (2 ^ 64 - 1)
        pure gone)
      else (do change_container_size parent ((2 ^ 64 - cnt % 2 ^ 64) % 2 ^ 64); pure target)

  -- `remove(Record&, bool)`, down to `levels` levels
  unfoldable pub remove : ℕ → Bool → Record → M (ℕ × Record)
  remove zero pack rec = throw out_of_fuel
  remove (suc levels) pack rec =
      let remove_below = remove levels false in
      if not (Record.is_initialized rec) then pure (0, rec) else (do
        rec' ← fetched rec
        n ← lift (Record.get_size rec')
        parent ← Methods.parent rec'
        target ← pool_get rec'.path.key_str
        parent' ← fetched parent
        target' ← fetched target
        range ← lift (Record.is_range rec')
        first ←
            (if target'.path.directory || range
              then (do (_, r) ← on rec' step; pure r)
              else pure rec')
        (cnt, _) ← remove_loop remove_below pack n 0 first
        gone ← remove_container pack cnt target' parent'
        arr ← lift (Record.is_array parent')
        (if pack && arr then pack_array remove_below levels parent' else pure tt)
        pure (cnt, gone))

  -- `makeTemp`
  unfoldable pub make_temp : ValueType → M Record
  make_temp t = do
    made ← pool_get (codes "/tmp/.")
    found ← fetched made
    tmp ←
        (if found.does_exist then pure found else (do make_directory found array 0; fetched found))
    n ← lift (Record.get_size tmp)
    slot ← lift (Path.with_index tmp.path n)
    if Record.is_type string t
        then (do
          target ← pool_get slot.key_str
          empty ← lift (Value.of_type [] string)
          add target empty
          pure target)
        else (do
          target ← opened_at (Path.as_directory slot)
          make_directory target t 0
          pure target)
