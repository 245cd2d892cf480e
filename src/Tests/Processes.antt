-- ===== src/Tests/Processes.antt =====
-- Servers, connections and command lines.
use janosh.Common.{◌≤◌, ◌≡◌, ◌≢◌, refl, true, false, [], ◌∷◌, ◌⊎◌, codes, some, arith, bytes_eq}
use janosh.Result.{ok}
use janosh.Component.{LexicalCast}
use janosh.Decimal.RoundTrip.{decimal}
use janosh.Record.Connections.{Connections, make_db}
use janosh.Record.Connections.Owners
use janosh.Logger.{ThreadNameLookup, no_threads, set, get}
use janosh.Logger.Names
use janosh.Logger.Names.{Run-get}
use janosh.Sync.Semaphore.{wait}
use janosh.Wire.Server
use janosh.Wire.Server.{TcpServer, Run, enter_wait, accept, Run-workers}
use janosh.Wire.Request.{is_digits, is_number, typed, typed_all}
use janosh.Wire.Arguments.{all_quoted, string_values, typed_all-quoted}
use janosh.Value
use janosh.Value.{number, string}
use janosh.Path.Tokens.{tokenize}
use janosh.Main.Macros.{macros_of}
use janosh.Commands.Names.{command_named, Class, find, make_command_map}

instance abbrev cast : LexicalCast
cast = decimal

-- A server with one thread that runs, and a loop that sleeps.
abbrev full : TcpServer
full = enter_wait (accept (enter_wait (Server.starting 1)))

full-Run : Run 1 full
unfolding enter_wait accept wait
full-Run = Run.waits (Run.accepts (Run.waits Run.start refl) refl) refl

Run-workers_example : (full.workers ≤ 1) × ((full.thread_limit.asleep ≡ 0) ⊎ (full.workers ≡ 1))
Run-workers_example = Run-workers (omega arith) full-Run

-- Two threads with a connection each, of which the first is not open.
abbrev connected : Connections
connected = (make_db true 8 (make_db false 5 Owners.no_connections).1).1

typed_all-quoted_example :
    typed_all is_digits (all_quoted (codes "7" ∷ codes "true" ∷ []))
    ≡ ok (string_values (codes "7" ∷ codes "true" ∷ []))
typed_all-quoted_example =
    typed_all-quoted is_digits (codes "7" ∷ codes "true" ∷ []) (omega arith, (omega arith, tt))

-- The command line and Lua disagree on a text with a dot.
typed-dot :
    (typed is_digits (codes "1.5") ≡ Value.of_type (codes "1.5") string)
    × (typed is_number (codes "1.5") ≡ Value.of_type (codes "1.5") number)
unfolding typed is_digits is_number bytes_eq
typed-dot = (refl, refl)

-- A macro with a value, and one without.
macros_of-two :
    macros_of (codes "a=b" ∷ codes "c" ∷ []) ≡ (codes "a", codes "b") ∷ (codes "c", codes "1") ∷ []
unfolding macros_of tokenize
macros_of-two = refl

command_named-filter : command_named (codes "filter") ≡ some Class.filter
unfolding command_named find make_command_map bytes_eq
command_named-filter = refl

-- Two workers in the log.
abbrev logged : ThreadNameLookup
logged = set 8 (codes "TcpWorker") (set 5 (codes "TcpWorker") no_threads)

logged-Run : Names.Run 2 logged
logged-Run =
    Names.Run.sets 8 (codes "TcpWorker") (Names.Run.sets 5 (codes "TcpWorker") Names.Run.start)

Run-get_example : get 5 logged ≢ get 8 logged
unfolding set
Run-get_example = Run-get 5 8 logged-Run (omega arith) refl refl (λ e. omega arith)
