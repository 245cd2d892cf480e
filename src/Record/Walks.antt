-- ===== src/Record/Walks.antt =====
-- The methods of record.cpp that walk over several records. Their loops end when the cursor does, or
-- at a record that the server decides on, so they are given a number of steps.
use janosh.Common.{ℕ, zero, suc, List, [], ◌∷◌, Bool, ◌&&◌, if◌then◌else◌}
use janosh.Result.{record_exception, out_of_fuel}
use janosh.Exec.{pure, throw, lift, ◌>>=◌, ◌>>◌, guard}
use janosh.Component.{LexicalCast}
use janosh.Path
use janosh.Path.{KeyPath}
use janosh.Remote.{RemoteDb, M, call}
use janosh.Record
use janosh.Record.{Record, get_size}
use janosh.Record.Methods
use janosh.Record.Methods.{
  Method, in_world, self, put, cursor_ptr, clear_own, read_path, step_back, step_or_throw, fetch,
}

module _ ⦃cast : LexicalCast⦄ ⦃remote : RemoteDb⦄ where
  -- `jump_back` reads nothing.
  unfoldable pub jump_back : KeyPath → Method Bool
  jump_back p = do c ← cursor_ptr; in_world (call (remote.jump_back c p.key_str))

  -- The loop of `previous`: back to a record with the same parent, or out of the parent.
  unfoldable pub back_to : ℕ → Record → Method (Unit {0})
  unfolding step_back
  back_to zero up = throw out_of_fuel
  back_to (suc fuel) up = do
    moved ← step_back
    guard moved (record_exception "step back failed")
    prev ← self
    prev_parent ← in_world (Methods.parent prev)
    let again = back_to fuel up in
        if Record.differs prev_parent up && Record.is_ancestor_of up prev then again else pure tt

  unfoldable pub previous : ℕ → Method (Unit {0})
  unfolding back_to read_path
  previous fuel = do
    cursor_ptr
    r ← self
    up ← in_world (Methods.parent r)
    back_to fuel up
    clear_own
    read_path
    pure tt

  -- The inner loop of `nextMember`: on to a record below `parent`.
  unfoldable pub on_to : ℕ → KeyPath → Method (Unit {0})
  on_to zero parent = throw out_of_fuel
  on_to (suc fuel) parent = do
    r ← self
    up ← lift (Path.parent r.path)
    let again = on_to fuel parent in
        if Path.differs up parent then (do step_or_throw; again) else pure tt

  -- The loop of `nextMember` over the members.
  unfoldable pub over_members : ℕ → ℕ → KeyPath → Method (Unit {0})
  unfolding on_to fetch
  over_members fuel zero parent = pure tt
  over_members fuel (suc n) parent = do
    fetch
    r ← self
    up ← lift (Path.parent r.path)
    (if Path.differs up parent then on_to fuel parent else step_or_throw)
    over_members fuel n parent

  unfoldable pub next_member : ℕ → Method (Unit {0})
  unfolding over_members
  next_member fuel = do
    cursor_ptr
    r ← self
    if r.path.directory
        then (do n ← lift (get_size r); step_or_throw; over_members fuel n r.path)
        else step_or_throw

  -- The loop of `getParents`; the list is the reversed one.
  unfoldable pub parents_from : ℕ → Record → List Record → M (List Record)
  parents_from zero parent parents = throw out_of_fuel
  parents_from (suc fuel) parent parents =
      let again = parents_from fuel in
      if Path.is_root parent.path
      then pure (parent ∷ parents)
      else (do up ← Methods.parent parent; again up (parent ∷ parents))

  unfoldable pub get_parents : ℕ → Record → M (List Record)
  unfolding parents_from
  get_parents fuel r =
      if Path.is_root r.path then pure [] else (do up ← Methods.parent r; parents_from fuel up [])
