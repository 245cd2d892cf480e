-- ===== src/Print/Random.antt =====
-- `random` of janosh.cpp without a JSON path, and its command: a member of a directory is drawn and
-- printed.
use janosh.Common.{ℕ, zero, suc, ◌+◌, ◌-◌, ◌%◌, ◌^◌, [], ◌∷◌, Bytes, leb, if◌then◌else◌}
use janosh.Result.{janosh_exception, out_of_fuel, undefined_behaviour}
use janosh.Exec.{pure, throw, lift, ◌>>=◌, ◌>>◌, guard}
use janosh.Component.{LexicalCast}
use janosh.Path
use janosh.Path.{KeyPath}
use janosh.Value.{Value}
use janosh.Remote.{RemoteDb, M}
use janosh.Record
use janosh.Record.{Record}
use janosh.Record.Methods
use janosh.Record.Methods.{fetched, on, pool_get}
use janosh.Commands.{Reply, failed, success, silent, named}
use janosh.Print.Visitors.{Format}
use janosh.Print.Walk.{get}

-- `uniform_int_distribution(a, b)`, for the number that the generator gives
pub record Dice : Type 0 where
  pub draw : ℕ → ℕ → ℕ

module _ ⦃cast : LexicalCast⦄ ⦃remote : RemoteDb⦄ ⦃dice : Dice⦄ where
  -- A distribution over no number is undefined.
  unfoldable pub roll : ℕ → ℕ → M ℕ
  roll a b = if leb a b then pure (dice.draw a b) else throw undefined_behaviour

  -- The inner loop, where a step that fails is not noticed.
  unfoldable pub step_back_to : ℕ → KeyPath → Record → M Record
  step_back_to zero parent r = throw out_of_fuel
  step_back_to (suc steps) parent r =
      let again = step_back_to steps parent in
      do
        up ← lift (Path.parent r.path)
        if Path.differs up parent then (do (_, r') ← on r Methods.step; again r') else pure r

  -- The loop over the members of an object.
  unfoldable pub step_members : ℕ → ℕ → KeyPath → Record → M Record
  unfolding step_back_to
  step_members steps zero parent r = pure r
  step_members steps (suc pick) parent r = do
    (_, r') ← on r Methods.step
    r'' ← step_back_to steps parent r'
    step_members steps pick parent r''

  -- The element at a random index of an array.
  unfoldable pub random_element : Record → M Record
  unfolding roll
  random_element r = do
    n ← lift (Record.get_size r)
    p ← lift (Path.pop_only r.path)
    i ← roll 0 ((n + 2 ^ 64 - 1) % 2 ^ 64)
    q ← lift (Path.push_index p i)
    opened ← pool_get q.key_str
    fetched opened

  unfoldable pub random_member : ℕ → Record → M Record
  unfolding roll step_members
  random_member steps r = do
    n ← lift (Record.get_size r)
    pick ← roll 1 n
    step_members steps pick r.path r

  unfoldable pub random : ℕ → Format → Record → M (ℕ × Bytes)
  unfolding random_element random_member
  random steps f rec = do
    guard rec.path.directory (janosh_exception "Path is not a directory")
    r ← fetched rec
    guard r.does_exist (janosh_exception "Path doesn't exists")
    object ← lift (Record.is_object r)
    picked ← (if object then random_member steps r else random_element r)
    get steps f (picked ∷ [])

  -- The command with one parameter.
  unfoldable pub random_command : ℕ → Format → Value → M (Reply × Bytes)
  unfolding random
  random_command steps f p = do
    rec ← named p
    if rec.path.directory
        then (do (n, out) ← random steps f rec; pure (success n, out))
        else pure (silent (failed "Expected a directory"))
