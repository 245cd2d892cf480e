-- ===== src/Database/Dumps.antt =====
-- `dump` and `hash` of janosh.cpp, which go over all records with a cursor; `steps` bounds them.
use janosh.Common.{ℕ, zero, suc, ◌+◌, ◌%◌, ◌^◌, [], ◌++◌, ◌∷◌, none, some, Bytes, codes}
use janosh.Result.{Result, ok, out_of_fuel, ◌>>=◌ as bind}
use janosh.Exec.{pure, throw, lift, ◌>>=◌, ◌>>◌}
use janosh.Component.{LexicalCast, to_text}
use janosh.Path
use janosh.Path.{KeyPath}
use janosh.Remote.{RemoteDb, M, call}

-- `boost::hash<string>`
pub record Hasher : Type 0 where
  pub hash : Bytes → ℕ

module _ ⦃cast : LexicalCast⦄ ⦃remote : RemoteDb⦄ where
  -- The loop over the records behind the cursor `c`: what `line` makes of each, with the number.
  unfoldable pub each_record :
      {A : Type 0} → (A → Bytes → Bytes → Result A) → ℕ → ℕ → A → ℕ → M (ℕ × A)
  each_record line zero c out cnt = throw out_of_fuel
  each_record line (suc steps) c out cnt = do
    found ← call (remote.get_step c)
    elim found [
      | none ↦ pure (cnt, out)
      | some kv ↦ (do
        out' ← lift (line out kv.0 kv.1)
        each_record line steps c out' ((cnt + 1) % 2 ^ 64))
    ]

  abbrev newline : ℕ
  newline = 10

  -- What `dump` prints of a record.
  abbrev pub dump_line : Bytes → Bytes → Bytes → Result Bytes
  dump_line out key value =
      bind (Path.update key)
        (λ p. ok (out ++ codes "path:" ++ p.pretty_str ++ codes " value:" ++ value ++ newline ∷ []))

  unfoldable pub dump : ℕ → M (ℕ × Bytes)
  unfolding each_record
  dump steps = do
    c ← call remote.cursor
    call (remote.jump_first c)
    each_record dump_line steps c [] 0

  -- `hash` folds the hash so far and both texts of each record.
  unfoldable pub hash : ⦃hasher : Hasher⦄ → ℕ → M (ℕ × Bytes)
  unfolding each_record
  hash ⦃hasher = hasher⦄ steps = do
    c ← call remote.cursor
    call (remote.jump_first c)
    found ← each_record (λ h key value. ok (hasher.hash (to_text h ++ key ++ value))) steps c 0 0
    pure (found.0, to_text found.1)
