-- ===== src/Record/Connections.antt =====
-- The connection of each thread to the server: `makeDB`, `getDB` and `destroyDB` of record.cpp.
-- Threads are numbers, and so are the connections, which `destroyDB` closes. Whether a connection can
-- be opened is up to the server.
pub mod Owners
use janosh.Common.{
  ℕ, ◌+◌, ◌==◌, if◌then◌else◌, Bool, List, [], ◌∷◌, none, some, Map, put, erase, number_eq,
}
use janosh.Result.{Result, ok, err, janosh_exception}
use janosh.Exec.{Exec}

pub record Connections : Type 0 where
  -- `db`
  pub of_thread : Map ℕ ℕ
  -- those that are open, the last one first, and a number above theirs
  pub opened : List ℕ
  pub next : ℕ

abbrev pub without : ℕ → List ℕ → List ℕ
without c [] = []
without c (d ∷ ds) = if d == c then without c ds else d ∷ without c ds

-- `opens` is the result of `open`, which the code does not look at.
unfoldable pub make_db : Bool → ℕ → Exec Connections (Unit {0})
make_db opens thread s = elim (s.of_thread thread) [
  | some c ↦ (err (janosh_exception "DB already initialized"), s)
  | none ↦ (
    ok tt,
    record s {
      of_thread = put thread s.next s.of_thread;
      opened = if opens then s.next ∷ s.opened else s.opened;
      next = s.next + 1;
    },
  )
]

unfoldable pub get_db : ℕ → Exec Connections ℕ
get_db thread s = elim (s.of_thread thread) [
  | none ↦ (err (janosh_exception "DB not initialized"), s)
  | some c ↦ (ok c, s)
]

unfoldable pub destroy_db : ℕ → Exec Connections (Unit {0})
destroy_db thread s = elim (s.of_thread thread) [
  | none ↦ (err (janosh_exception "DB not initialized"), s)
  | some c ↦ (ok tt, record s { of_thread = erase thread s.of_thread; opened = without c s.opened })
]
