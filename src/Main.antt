-- ===== src/Main.antt =====
-- `main` of janosh.cpp: what the program does for its options. The options were read by
-- boost::program_options; what `main` prints on the way is left out.
pub mod Settings
pub mod Macros
use janosh.Common.{ℕ, Bool, true, false, not, List, [], ◌∷◌, Bytes, ◌==◌, ◌&&◌, ◌||◌, if◌then◌else◌}
use janosh.Result.{Result, ok, err, janosh_exception, assertion_failed, ◌>>=◌}
use janosh.Component.{LexicalCast}
use janosh.Tracker.{PrintDirective, dont_print, print_meta, print_full}
use janosh.Print.Visitors.{Format, bash, json, raw}
use janosh.Wire.Request.{Request, is_digits, typed_all}
use janosh.Main.Macros.{macros_of}

-- `vm` and the variables of its options; the Booleans are the counts that are only tested.
pub record Options : Type 0 where
  pub help : Bool
  pub daemon : Bool
  pub json_output : Bool
  pub raw_output : Bool
  pub bash_output : Bool
  pub triggers : Bool
  pub verbose : Bool
  pub luafile : Bytes
  pub command : Bytes
  pub arguments : List Bytes
  pub defines : List Bytes
  pub bind_url : Bytes
  pub connect_url : Bytes
  pub max_threads : ℕ
  pub tracking_level : ℕ

abbrev is_nil : {A : Type 0} → List A → Bool
is_nil [] = true
is_nil (x ∷ xs) = false

unfoldable pub print_directive : ℕ → PrintDirective
print_directive level =
    if level == 1 then print_meta else if level == 2 then print_full else dont_print

unfoldable pub output_format : Options → Format
output_format o =
    if o.json_output
    then json
    else if o.bash_output
    then bash
    else if o.raw_output
    then raw
    else bash

-- Two combinations of options are logged as fatal, and have no other effect.
unfoldable pub has_two_formats : Options → Bool
has_two_formats o =
    (o.json_output && (o.bash_output || o.raw_output)) || (o.bash_output && o.raw_output)

unfoldable pub conflicts_with_daemon : Options → Bool
conflicts_with_daemon o =
    o.daemon
    && (not (is_nil o.defines) || o.bash_output || o.raw_output || o.json_output || o.triggers)

-- How `main` goes on: it prints its usage, serves clients at a URL with a limit of threads, sends a
-- request to a URL, or runs a script with macros.
pub data Action : Type 0 where
  shows_usage : Action
  serves : PrintDirective → Bytes → ℕ → Action
  sends : Bytes → Request → Action
  runs_script : List (Bytes × Bytes) → Bytes → Action

module _ ⦃cast : LexicalCast⦄ where
  -- The request of the command line.
  unfoldable pub command_request : Options → Result Request
  unfolding output_format
  command_request o = do
    args ← typed_all is_digits o.arguments
    ok (record {
      format = output_format o;
      command = o.command;
      args = args;
      triggers = o.triggers;
      verbose = o.verbose;
      info = [];
    })

  unfoldable pub main : Options → Result Action
  unfolding command_request print_directive
  main o =
      let request = (do r ← command_request o; ok (sends o.connect_url r)) in
      if o.help
      then ok shows_usage
      else if o.daemon
      then (if is_nil o.luafile
          then ok (serves (print_directive o.tracking_level) o.bind_url o.max_threads)
          else err assertion_failed)
      else if is_nil o.command && is_nil o.luafile
      then err (janosh_exception "missing command")
      else if is_nil o.luafile
      then request
      else ok (runs_script (macros_of o.defines) o.luafile)
