-- ===== src/Print/Filter.antt =====
-- `filter` and `random` of janosh.cpp with a JSON path, which they ask of the document that the JSON
-- path visitor has built, and their commands.
use janosh.Common.{
  ℕ, ◌+◌, ◌-◌, ◌%◌, ◌^◌, Bool, true, false, not, List, [], ◌∷◌, ◌++◌, Bytes, codes, ◌==◌, ◌&&◌,
  if◌then◌else◌, length, ltb, init, last?, none, some,
}
use janosh.Result.{err, janosh_exception, undefined_behaviour}
use janosh.Exec.{pure, lift, ◌>>=◌, ◌>>◌, guard}
use janosh.Component.{LexicalCast}
use janosh.Value
use janosh.Value.{Value}
use janosh.Remote.{RemoteDb, M}
use janosh.Record.{Record}
use janosh.Record.Methods.{fetched}
use janosh.Commands.{Reply, failed, success, silent, named}
use janosh.Print.Visitors.{Format, newline}
use janosh.Print.Walk.{recurse, is_json}
use janosh.Print.Command.{named_all}
use janosh.Print.Random.{Dice, roll, random_command}
use janosh.Print.JsonPath.{Jsoncons, Visitor, new_visitor, visit_path_all, result_lines, result_at}

module _ ⦃cast : LexicalCast⦄ ⦃remote : RemoteDb⦄ ⦃lib : Jsoncons⦄ where
  -- The loop of `get` with this visitor: the document, and what `get` itself prints.
  unfoldable pub build_each : ℕ → Format → Bool → Bool → List Record → Visitor → M (Visitor × Bytes)
  build_each steps f many first [] v = pure (v, [])
  build_each steps f many first (r ∷ rs) v = do
    r' ← fetched r
    guard r'.does_exist (janosh_exception "Path not found")
    es ← recurse steps r' (not many)
    w ← lift (visit_path_all es v)
    (built, rest) ← build_each steps f many false rs w
    pure (built, (if many && is_json f && not first then codes "," ++ newline else []) ++ rest)

  -- `get` with the visitor.
  unfoldable pub build : ℕ → Format → List Record → M (Visitor × Bytes)
  unfolding build_each
  build steps f recs = do
    let many = ltb 1 (length recs)
    (v, body) ← build_each steps f many true recs new_visitor
    let braces = many && is_json f
    pure (
      v,
      (if braces then codes "{" ++ newline else [])
          ++ body
          ++ (if braces then codes "}" ++ newline else []),
    )

  unfoldable pub filter : ℕ → Format → List Record → Bytes → M (ℕ × Bytes)
  unfolding build result_lines
  filter steps f recs expr = do
    (v, printed) ← build steps f recs
    results ← lift (lib.json_query v.doc expr)
    texts ← lift (result_lines results)
    pure (length results, printed ++ texts)

  -- The command; the last parameter is the JSON path.
  unfoldable pub filter_command : ℕ → Format → List Value → M (Reply × Bytes)
  unfolding filter
  filter_command steps f [] =
      pure (silent (failed "Expected a list of keys and a filter expression"))
  filter_command steps f (p ∷ rest) = do
    recs ← named_all (init (p ∷ rest))
    expr ← lift (elim (last? (p ∷ rest)) [ none ↦ err undefined_behaviour | some e ↦ Value.str e ])
    (n, out) ← filter steps f recs expr
    pure (if n == 0 then (failed "Fetching failed", out) else (success (length (p ∷ rest)), out))

  module _ ⦃dice : Dice⦄ where
    unfoldable pub random_by_path : ℕ → Format → Record → Bytes → M (ℕ × Bytes)
    unfolding build result_at
    random_by_path steps f rec expr = do
      (v, printed) ← build steps f (rec ∷ [])
      results ← lift (lib.json_query v.doc expr)
      i ← roll 0 ((length results + 2 ^ 64 - 1) % 2 ^ 64)
      text ← lift (result_at i results)
      pure (length results, printed ++ text ++ newline)

    -- The command with one parameter or two.
    unfoldable pub pick_command : ℕ → Format → List Value → M (Reply × Bytes)
    unfolding random_by_path
    pick_command steps f (p ∷ []) = random_command steps f p
    pick_command steps f (p ∷ e ∷ []) = do
      rec ← named p
      if rec.path.directory
          then (do
            expr ← lift (Value.str e)
            (n, out) ← random_by_path steps f rec expr
            pure (success n, out))
          else pure (silent (failed "Expected a directory"))
    pick_command steps f _ = pure (silent (failed "Only one or two parameters expected"))
