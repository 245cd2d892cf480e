-- ===== src/Commands/Arity.antt =====
-- How many parameters each command takes, and what it does with any other number.
use janosh.Common.{
  ℕ, ◌%◌, List, [], ◌∷◌, Bool, true, false, ◌&&◌, ◌≡◌, refl, String, Bytes, ◌==◌, leb, length,
  arith,
}
use janosh.Result.{ok}
use janosh.Component.{LexicalCast}
use janosh.Value.{Value}
use janosh.Json.{JsonSpirit}
use janosh.Remote.{RemoteDb, World, M}
use janosh.Record.{Record}
use janosh.Database.Dumps.{Hasher}
use janosh.Commands.{
  Command, load, patch, set, add, replace, append, dump, size, copy, remove, shift, move, truncate,
  mkarr, mkobj, hash, publish, exists, Outside, failed, Reply, pairs_or, two_records,
}
use janosh.Commands.Execute.{execute}

-- The numbers of parameters that a command works on.
abbrev pub takes : Command → ℕ → Bool
takes load n = true
takes patch n = true
takes set n = leb 1 n && n % 2 == 0
takes add n = n % 2 == 0
takes replace n = leb 1 n && n % 2 == 0
takes append n = leb 2 n
takes dump n = n == 0
takes size n = n == 1
takes copy n = n == 2
takes remove n = leb 1 n
takes shift n = n == 2
takes move n = n == 2
takes truncate n = n == 0
takes mkarr n = n == 1
takes mkobj n = n == 1
takes hash n = n == 0
takes publish n = leb 1 n && leb n 3
takes exists n = n == 1

module _ ⦃cast : LexicalCast⦄ ⦃remote : RemoteDb⦄ ⦃spirit : JsonSpirit⦄ ⦃hasher : Hasher⦄
    ⦃outside : Outside⦄ where
  odd_tail :
      (p : Value) (ps : List Value)
      → (leb 1 (length (p ∷ ps)) && length (p ∷ ps) % 2 == 0) ≡ false
      → (length (p ∷ ps) % 2 == 0) ≡ false
  odd_tail p ps h = ground arith

  pairs_or_odd :
      (ps : List Value) (m : M (Reply × Bytes)) (w : World)
      → (length ps % 2 == 0) ≡ false
      → pairs_or ps m w ≡ (ok (failed "Expected a list of path/value pairs", []), w)
  pairs_or_odd ps m w h = rw h

  two_records_other :
      (ps : List Value) (f : Record → Record → M (Reply × Bytes)) (w : World)
      → (length ps == 2) ≡ false
      → two_records ps f w ≡ (ok (failed "Expected two paths", []), w)
  two_records_other [] f w h = refl
  two_records_other (p ∷ []) f w h = refl
  two_records_other (p ∷ q ∷ []) f w h = cc
  two_records_other (p ∷ q ∷ r ∷ ps) f w h = refl

  -- Every modelled command that is given a number of parameters that it does not take returns -1
  -- with a message and no output, and changes nothing.
  pub execute-refused :
      (levels : ℕ) (c : Command) (ps : List Value) (w : World)
      → takes c (length ps) ≡ false
      → (message : String) × (execute levels c ps w ≡ (ok (failed message, []), w))
  unfolding execute
  execute-refused levels set [] w h = (_, refl)
  execute-refused levels set (p ∷ ps) w h = (_, pairs_or_odd (p ∷ ps) _ w (odd_tail p ps h))
  execute-refused levels add ps w h = (_, pairs_or_odd ps _ w h)
  execute-refused levels replace [] w h = (_, refl)
  execute-refused levels replace (p ∷ ps) w h = (_, pairs_or_odd (p ∷ ps) _ w (odd_tail p ps h))
  execute-refused levels append [] w h = (_, refl)
  execute-refused levels append (p ∷ []) w h = (_, refl)
  execute-refused levels append (p ∷ q ∷ ps) w h = absurd (ground arith)
  execute-refused levels dump (p ∷ ps) w h = (_, refl)
  execute-refused levels size [] w h = (_, refl)
  execute-refused levels size (p ∷ q ∷ ps) w h = (_, refl)
  execute-refused levels copy ps w h = (_, two_records_other ps _ w h)
  execute-refused levels remove [] w h = (_, refl)
  execute-refused levels shift ps w h = (_, two_records_other ps _ w h)
  execute-refused levels move ps w h = (_, two_records_other ps _ w h)
  execute-refused levels truncate (p ∷ ps) w h = (_, refl)
  execute-refused levels mkarr [] w h = (_, refl)
  execute-refused levels mkarr (p ∷ q ∷ ps) w h = (_, refl)
  execute-refused levels mkobj [] w h = (_, refl)
  execute-refused levels mkobj (p ∷ q ∷ ps) w h = (_, refl)
  execute-refused levels hash (p ∷ ps) w h = (_, refl)
  execute-refused levels publish [] w h = (_, refl)
  execute-refused levels publish (p ∷ q ∷ r ∷ s ∷ ps) w h = (_, refl)
  execute-refused levels exists [] w h = (_, refl)
  execute-refused levels exists (p ∷ q ∷ ps) w h = (_, refl)
  execute-refused levels _ ps w h = absurd (ground arith)
