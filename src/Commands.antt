-- ===== src/Commands.antt =====
-- The commands of commands.cpp: their results, and their loops over parameters.
-- `get`, `random` and `filter` stand in Print.Command, Print.Random and Print.Filter.
pub mod Execute
pub mod Arity
pub mod Names
use janosh.Common.{
  ℕ, zero, suc, ◌+◌, ◌-◌, ◌/◌, ◌%◌, ◌^◌, List, [], ◌∷◌, ◌++◌, Bool, true, false, not, Option, none,
  some, String, Bytes, codes, ◌==◌, length, if◌then◌else◌,
}
use janosh.Result.{Result, ok, err, undefined_behaviour, invalid_argument}
use janosh.Exec.{pure, throw, lift, ◌>>=◌, ◌>>◌}
use janosh.Component.{LexicalCast, to_text}
use janosh.Path
use janosh.Path.{KeyPath}
use janosh.Value
use janosh.Value.{Value}
use janosh.Json.{Json, JsonSpirit}
use janosh.Tracker
use janosh.Remote.{RemoteDb, World, M, call}
use janosh.Record.{Record}
use janosh.Record.Methods.{pool_get, fetched}
use janosh.Database
use janosh.Database.{make_array, make_object, append_values}
use janosh.Database.Load.{load_json, patch_json}
use janosh.Database.Moving
use janosh.Database.Removal
use janosh.Database.Shifts
use janosh.Database.Dumps
use janosh.Database.Dumps.{Hasher}

-- `Command::Result`: the first is a 32-bit word.
pub record Reply : Type 0 where
  pub code : ℕ
  pub message : String

-- The word of -1.
abbrev pub minus_one : ℕ
minus_one = 2 ^ 32 - 1

abbrev pub failed : String → Reply
failed message = record { code = minus_one; message = message }

abbrev pub success : ℕ → Reply
success n = record { code = n % 2 ^ 32; message = "Successful" }

-- A reply without output, and one that depends on whether anything was done.
abbrev pub silent : Reply → Reply × Bytes
silent r = (r, [])

abbrev pub unless_none : ℕ → Reply → Reply → Reply × Bytes
unless_none n done nothing = silent (if n == 0 then nothing else done)

-- The classes of commands.cpp that are modelled.
pub data Command : Type 0 where
  load patch set add replace append dump size copy remove : Command
  shift move truncate mkarr mkobj hash publish exists : Command

-- What the commands take from outside: whether a text names a file, with its content, the standard
-- input, and the JSON reader.
pub record Outside : Type 0 where
  pub file : Bytes → Option Bytes
  pub input : Bytes
  pub read : Bytes → Result Json

abbrev pub or_self : Option Bytes → Bytes → Bytes
or_self none s = s
or_self (some content) s = content

module _ ⦃cast : LexicalCast⦄ ⦃remote : RemoteDb⦄ where
  -- The record that a parameter names.
  abbrev pub named : Value → M Record
  named v = do s ← lift (Value.str v); pool_get s

  abbrev pub pair_fails : ℕ → M Bool → M Bool
  pair_fails n rest = if n == 0 then pure false else rest

  -- `params.front().str()`, which is undefined without parameters
  abbrev pub first_of : List Value → Result Bytes
  first_of [] = err undefined_behaviour
  first_of (p ∷ rest) = Value.str p

  -- The loop of `add` over pairs of a path and a value; false at the first that is not added.
  unfoldable pub add_pairs : List Value → M Bool
  add_pairs (p ∷ v ∷ rest) = do r ← named p; n ← Database.add r v; pair_fails n (add_pairs rest)
  add_pairs _ = pure true

  unfoldable pub replace_pairs : List Value → M Bool
  replace_pairs (p ∷ v ∷ rest) = do
    r ← named p
    n ← Database.replace r v
    pair_fails n (replace_pairs rest)
  replace_pairs _ = pure true

  -- The loop of `set`, with the sum of what was set.
  unfoldable pub set_pairs : ℕ → List Value → M ℕ
  set_pairs cnt (p ∷ v ∷ rest) = do
    r ← named p
    n ← Database.set r v
    set_pairs ((cnt + n) % 2 ^ 64) rest
  set_pairs cnt _ = pure cnt

  -- The loop of `remove`; the sum is an `int`.
  unfoldable pub remove_all : ℕ → ℕ → List Value → M ℕ
  remove_all levels cnt [] = pure cnt
  remove_all levels cnt (p ∷ rest) = do
    r ← named p
    (n, _) ← Removal.remove levels true r
    remove_all levels ((cnt + n) % 2 ^ 32) rest

  -- The source of `shift`, `copy` and `move` has to exist.
  abbrev pub two_records : List Value → (Record → Record → M (Reply × Bytes)) → M (Reply × Bytes)
  two_records (p ∷ q ∷ []) f = do
    src ← named p
    dest ← named q
    src' ← fetched src
    if src'.does_exist then f src' dest else pure (silent (failed "Source path doesn't exist"))
  two_records _ f = pure (silent (failed "Expected two paths"))

  abbrev pub pairs_or : List Value → M (Reply × Bytes) → M (Reply × Bytes)
  pairs_or params m =
      if length params % 2 == 0
      then m
      else pure (silent (failed "Expected a list of path/value pairs"))

  -- What `send` of `publish` does: the message goes to the queue, the tracker is not asked.
  abbrev pub sent_out : Bytes → Bytes → Bytes → M (Reply × Bytes)
  sent_out key op value w =
      (ok (silent (success 1)), record w { sent = w.sent ++ Tracker.message key op value ∷ [] })
