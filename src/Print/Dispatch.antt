-- ===== src/Print/Dispatch.antt =====
-- `DatabaseThread::run` of database_thread.cpp, over all commands: the map gives the command of the
-- request's name, and every exception ends there.
use janosh.Common.{
  ℕ, ◌≡◌, refl, Bool, false, not, List, [], ◌∷◌, Option, none, some, String, Bytes, length, leb,
  ◌==◌, ◌&&◌, arith,
}
use janosh.Result.{Result, ok, err}
use janosh.Component.{LexicalCast}
use janosh.Value.{Value}
use janosh.Json.{JsonSpirit}
use janosh.Remote.{RemoteDb, World, M}
use janosh.Database.Dumps.{Hasher}
use janosh.Commands.{Outside, Reply, failed, minus_one}
use janosh.Commands.Execute.{execute}
use janosh.Commands.Arity.{takes, execute-refused}
use janosh.Commands.Names.{Class, plain, get, random, filter, command_named}
use janosh.Print.Visitors.{Format}
use janosh.Print.Command.{get_command}
use janosh.Print.Random.{Dice}
use janosh.Print.JsonPath.{Jsoncons}
use janosh.Print.Filter.{filter_command, pick_command}

-- The numbers of parameters that a command works on.
abbrev pub class_takes : Class → ℕ → Bool
class_takes (plain c) n = takes c n
class_takes get n = leb 1 n
class_takes random n = leb 1 n && leb n 2
class_takes filter n = leb 1 n

-- The result that a request ends with.
abbrev pub succeeds : Result (Reply × Bytes) → Bool
succeeds (ok (reply, out)) = not (reply.code == minus_one)
succeeds (err e) = false

module _ ⦃cast : LexicalCast⦄ ⦃remote : RemoteDb⦄ ⦃spirit : JsonSpirit⦄ ⦃hasher : Hasher⦄
    ⦃outside : Outside⦄ ⦃lib : Jsoncons⦄ ⦃dice : Dice⦄ where
  -- `(*cmd)(req_.vecArgs_, out_)`; `levels` bounds walks, and the format is the request's.
  unfoldable pub dispatch : ℕ → Format → Class → List Value → M (Reply × Bytes)
  dispatch levels f (plain c) ps = execute levels c ps
  dispatch levels f get ps = get_command levels f ps
  dispatch levels f random ps = pick_command levels f ps
  dispatch levels f filter ps = filter_command levels f ps

  unfoldable pub run_class : ℕ → Format → Option Class → List Value → World → Bool × World
  unfolding dispatch
  run_class levels f none ps w = (false, w)
  run_class levels f (some c) ps w =
      let done = dispatch levels f c ps w in (succeeds done.0, done.1)

  -- A request without a command is refused.
  unfoldable pub run_named : ℕ → Format → Bytes → List Value → World → Bool × World
  unfolding run_class
  run_named levels f [] ps w = (false, w)
  run_named levels f (c ∷ name) ps w = run_class levels f (command_named (c ∷ name)) ps w

  dispatch_refused :
      (levels : ℕ) (f : Format) (c : Class) (ps : List Value) (w : World)
      → class_takes c (length ps) ≡ false
      → (message : String) × (dispatch levels f c ps w ≡ (ok (failed message, []), w))
  unfolding dispatch get_command pick_command filter_command
  dispatch_refused levels f (plain c) ps w h = execute-refused levels c ps w h
  dispatch_refused levels f get [] w h = (_, refl)
  dispatch_refused levels f get (p ∷ ps) w h = absurd (ground arith)
  dispatch_refused levels f random [] w h = (_, refl)
  dispatch_refused levels f random (p ∷ []) w h = absurd (ground arith)
  dispatch_refused levels f random (p ∷ q ∷ []) w h = absurd (ground arith)
  dispatch_refused levels f random (p ∷ q ∷ r ∷ ps) w h = (_, refl)
  dispatch_refused levels f filter [] w h = (_, refl)
  dispatch_refused levels f filter (p ∷ ps) w h = absurd (ground arith)

  run_class_refused :
      (levels : ℕ) (f : Format) (known : Option Class) (ps : List Value) (w : World)
      → ((c : Class) → known ≡ some c → class_takes c (length ps) ≡ false)
      → run_class levels f known ps w ≡ (false, w)
  unfolding run_class
  run_class_refused levels f none ps w h = refl
  run_class_refused levels f (some c) ps w h =
      let (_, e) = dispatch_refused levels f c ps w (h c refl) in rw e

  -- A request whose name is empty or not in the map of commands, or whose command does not take the
  -- number of its parameters, ends with the result false and changes neither the server nor the
  -- tracker nor the messages.
  pub run_named-refused :
      (levels : ℕ) (f : Format) (name : Bytes) (ps : List Value) (w : World)
      → ((c : Class) → command_named name ≡ some c → class_takes c (length ps) ≡ false)
      → run_named levels f name ps w ≡ (false, w)
  unfolding run_named
  run_named-refused levels f [] ps w h = refl
  run_named-refused levels f (c ∷ name) ps w h =
      run_class_refused levels f (command_named (c ∷ name)) ps w h
