-- ===== src/Print/Command.antt =====
-- `GetCommand` of commands.cpp.
use janosh.Common.{ℕ, List, [], ◌∷◌, Bytes, ◌==◌, length, if◌then◌else◌}
use janosh.Exec.{pure, ◌>>=◌}
use janosh.Component.{LexicalCast}
use janosh.Value.{Value}
use janosh.Remote.{RemoteDb, M}
use janosh.Record.{Record}
use janosh.Commands.{Reply, failed, success, silent, named}
use janosh.Print.Visitors.{Format}
use janosh.Print.Walk.{get}

module _ ⦃cast : LexicalCast⦄ ⦃remote : RemoteDb⦄ where
  unfoldable pub named_all : List Value → M (List Record)
  named_all [] = pure []
  named_all (p ∷ rest) = do r ← named p; rs ← named_all rest; pure (r ∷ rs)

  -- `steps` bounds the walks over records, and the format is the request's.
  unfoldable pub get_command : ℕ → Format → List Value → M (Reply × Bytes)
  unfolding named_all
  get_command steps f [] = pure (silent (failed "Expected a list of keys"))
  get_command steps f (p ∷ rest) = do
    recs ← named_all (p ∷ rest)
    (n, out) ← get steps f recs
    pure (if n == 0 then (failed "Fetching failed", out) else (success (length (p ∷ rest)), out))
