-- ===== src/Commands/Execute.antt =====
-- `operator()` of the commands of commands.cpp: what each makes of its parameters, with its result
-- and its output.

use janosh.Common.{ℕ, ◌/◌, List, [], ◌∷◌, ◌++◌, true, Bytes, codes, length, if◌then◌else◌}
use janosh.Exec.{pure, lift, ◌>>=◌, ◌>>◌}
use janosh.Component.{LexicalCast, to_text}
use janosh.Value
use janosh.Value.{Value}
use janosh.Json.{Json, JsonSpirit}
use janosh.Remote.{RemoteDb, M}
use janosh.Record.Methods.{fetched}
use janosh.Database
use janosh.Database.{make_array, make_object, append_values}
use janosh.Database.Load.{load_json, patch_json}
use janosh.Database.Moving
use janosh.Database.Shifts
use janosh.Database.Dumps
use janosh.Database.Dumps.{Hasher}
use janosh.Commands.{
  Reply, failed, success, silent, unless_none, Command, Outside, or_self, named, first_of,
  add_pairs, replace_pairs, set_pairs, remove_all, two_records, pairs_or, sent_out, load, patch,
  set, add, replace, append, dump, size, copy, remove, shift, move, truncate, mkarr, mkobj, hash,
  publish, exists,
}

module _ ⦃cast : LexicalCast⦄ ⦃remote : RemoteDb⦄ ⦃spirit : JsonSpirit⦄ ⦃hasher : Hasher⦄
    ⦃outside : Outside⦄ where
  -- The loop of `load` and `patch`: each parameter is a file or a JSON text.
  abbrev pub each_document : (Json → M ℕ) → List Value → M (Reply × Bytes)
  each_document write [] = pure (silent (success 0))
  each_document write (p ∷ rest) = do
    s ← lift (Value.str p)
    v ← lift (outside.read (or_self (outside.file s) s))
    write v
    each_document write rest

  -- Without parameters both read the standard input with `patch`.
  abbrev from_input : M (Reply × Bytes)
  from_input = do v ← lift (outside.read outside.input); patch_json v; pure (silent (success 0))

  abbrev documents : (Json → M ℕ) → List Value → M (Reply × Bytes)
  documents write [] = from_input
  documents write (p ∷ rest) = each_document write (p ∷ rest)

  abbrev pub load_command : ℕ → List Value → M (Reply × Bytes)
  load_command levels params = documents load_json params

  abbrev pub patch_command : ℕ → List Value → M (Reply × Bytes)
  patch_command levels params = documents patch_json params

  abbrev pub set_command : ℕ → List Value → M (Reply × Bytes)
  set_command levels [] = pure (silent (failed "Expected a list of path/value pairs"))
  set_command levels (p ∷ rest) =
      pairs_or (p ∷ rest)
        (do cnt ← set_pairs 0 (p ∷ rest); pure (unless_none cnt (success cnt) (failed "Failed")))

  abbrev pub add_command : ℕ → List Value → M (Reply × Bytes)
  add_command levels params = pairs_or params (do
    lift (first_of params)
    all ← add_pairs params
    pure (silent (if all then success (length params / 2) else failed "Failed")))

  abbrev pub replace_command : ℕ → List Value → M (Reply × Bytes)
  replace_command levels [] = pure (silent (failed "Expected a list of path/value pairs"))
  replace_command levels (p ∷ rest) = pairs_or (p ∷ rest) (do
    all ← replace_pairs (p ∷ rest)
    pure (silent (if all then success (length (p ∷ rest) / 2) else failed "Failed")))

  abbrev pub append_command : ℕ → List Value → M (Reply × Bytes)
  append_command levels (p ∷ v ∷ vs) = do
    target ← named p
    cnt ← append_values (v ∷ vs) target
    pure (silent (success cnt))
  append_command levels _ = pure (silent (failed "Expected a path and a list of values"))

  abbrev pub dump_command : ℕ → List Value → M (Reply × Bytes)
  dump_command levels [] = do found ← Dumps.dump levels; pure (success 0, found.1)
  dump_command levels _ = pure (silent (failed "Dump doesn't take any parameters"))

  abbrev pub size_command : ℕ → List Value → M (Reply × Bytes)
  size_command levels (p ∷ []) = do
    r ← named p
    n ← Database.size r
    pure (success 0, to_text n ++ 10 ∷ [])
  size_command levels _ = pure (silent (failed "Expected a path"))

  abbrev pub copy_command : ℕ → List Value → M (Reply × Bytes)
  copy_command levels params = two_records params (λ src dest. do
    (n, _, _) ← Moving.copy levels src dest
    pure (unless_none n (success n) (failed "Failed")))

  abbrev pub remove_command : ℕ → List Value → M (Reply × Bytes)
  remove_command levels [] = pure (silent (failed "Too few parameters"))
  remove_command levels (p ∷ rest) = do
    cnt ← remove_all levels 0 (p ∷ rest)
    pure (unless_none cnt (success cnt) (record { code = 0; message = "No entries removed" }))

  abbrev pub shift_command : ℕ → List Value → M (Reply × Bytes)
  shift_command levels params = two_records params (λ src dest. do
    (n, _) ← Shifts.shift levels src dest
    pure (unless_none n (success 1) (failed "Failed")))

  abbrev pub move_command : ℕ → List Value → M (Reply × Bytes)
  move_command levels params = two_records params (λ src dest. do
    (n, _) ← Shifts.move levels src dest
    pure (unless_none n (success n) (failed "Failed")))

  abbrev pub truncate_command : ℕ → List Value → M (Reply × Bytes)
  truncate_command levels [] = do n ← Database.truncate; pure (silent (success n))
  truncate_command levels _ = pure (silent (failed "Truncate doesn't take any arguments"))

  abbrev pub mkarr_command : ℕ → List Value → M (Reply × Bytes)
  mkarr_command levels (p ∷ []) = do
    r ← named p
    n ← make_array r 0 true
    pure (unless_none n (success 1) (failed "Failed"))
  mkarr_command levels _ = pure (silent (failed "Expected one path"))

  abbrev pub mkobj_command : ℕ → List Value → M (Reply × Bytes)
  mkobj_command levels (p ∷ []) = do
    r ← named p
    n ← make_object r 0
    pure (unless_none n (success 1) (failed "Failed"))
  mkobj_command levels _ = pure (silent (failed "Expected one path"))

  abbrev pub hash_command : ℕ → List Value → M (Reply × Bytes)
  hash_command levels [] = do found ← Dumps.hash levels; pure (success found.0, found.1)
  hash_command levels _ = pure (silent (failed "Failed"))

  abbrev pub publish_command : ℕ → List Value → M (Reply × Bytes)
  publish_command levels (k ∷ []) = do key ← lift (Value.str k); sent_out key (codes "W") []
  publish_command levels (k ∷ v ∷ []) = do
    key ← lift (Value.str k)
    value ← lift (Value.str v)
    sent_out key (codes "W") value
  publish_command levels (k ∷ o ∷ v ∷ []) = do
    key ← lift (Value.str k)
    op ← lift (Value.str o)
    value ← lift (Value.str v)
    sent_out key op value
  publish_command levels _ =
      pure (silent (failed "Expected one, two or three parameters (key, operation, value)"))

  abbrev pub exists_command : ℕ → List Value → M (Reply × Bytes)
  exists_command levels (p ∷ []) = do
    r ← named p
    r' ← fetched r
    pure (silent (if r'.does_exist then success 1 else failed "Not found"))
  exists_command levels _ = pure (silent (failed "Only one parameter expected"))

  -- `operator()` of each command; `levels` bounds the walks over records.
  unfoldable pub execute : ℕ → Command → List Value → M (Reply × Bytes)
  execute levels load = load_command levels
  execute levels patch = patch_command levels
  execute levels set = set_command levels
  execute levels add = add_command levels
  execute levels replace = replace_command levels
  execute levels append = append_command levels
  execute levels dump = dump_command levels
  execute levels size = size_command levels
  execute levels copy = copy_command levels
  execute levels remove = remove_command levels
  execute levels shift = shift_command levels
  execute levels move = move_command levels
  execute levels truncate = truncate_command levels
  execute levels mkarr = mkarr_command levels
  execute levels mkobj = mkobj_command levels
  execute levels hash = hash_command levels
  execute levels publish = publish_command levels
  execute levels exists = exists_command levels
