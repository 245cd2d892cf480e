-- ===== src/Record/Connections/Owners.antt =====
-- Which thread owns which connection, whatever threads open and close.
use janosh.Common.{
  ℕ, ◌+◌, ◌<◌, ◌≡◌, Bool, true, [], ◌∷◌, some, contains, no_entries, put, erase, number_eq,
  if◌then◌else◌,
}
use janosh.Result.{ok}
use janosh.Record.Connections.{Connections, make_db, destroy_db, without}

abbrev pub no_connections : Connections
no_connections = record { of_thread = no_entries; opened = []; next = 0 }

-- The calls of threads that returned; the others change nothing.
pub data Reach : Connections → Type 0 where
  start : Reach no_connections
  makes :
      {s s' : Connections} (opens : Bool) (thread : ℕ)
      → Reach s
      → make_db opens thread s ≡ (ok tt, s')
      → Reach s'
  destroys :
      {s s' : Connections} (thread : ℕ) → Reach s → destroy_db thread s ≡ (ok tt, s') → Reach s'

-- Every connection that is open has one owner.
pub record IsOwned (s : Connections) : Type 0 where
  pub below : (t c : ℕ) → s.of_thread t ≡ some c → c < s.next
  pub unique : (t u c : ℕ) → s.of_thread t ≡ some c → s.of_thread u ≡ some c → t ≡ u
  pub has_owner : (c : ℕ) → contains c s.opened ≡ true → (t : ℕ) × (s.of_thread t ≡ some c)

abbrev made : Bool → ℕ → Connections → Connections
made opens thread s = record s {
  of_thread = put thread s.next s.of_thread;
  opened = if opens then s.next ∷ s.opened else s.opened;
  next = s.next + 1;
}

abbrev left : ℕ → ℕ → Connections → Connections
left thread c s = record s { of_thread = erase thread s.of_thread; opened = without c s.opened }
