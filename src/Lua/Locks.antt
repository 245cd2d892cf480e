-- ===== src/Lua/Locks.antt =====
-- `l_lock`, `l_try_lock` and `l_unlock` of lua_script.cpp. Each holds the mutex of the map of locks
-- until it returns, and `l_lock` also while it waits for the lock that is named.
use janosh.Common.{
  ℕ, ◌≡◌, Bool, true, false, Option, none, some, Bytes, arith, if◌then◌else◌, Map, no_entries, put,
  erase, is_some, text_eq,
}
use janosh.Result.{Result, ok, err, janosh_exception}

pub record Locks : Type 0 where
  -- a thread in `l_lock`, with the name of the lock that it waits for
  pub inside : Option (ℕ × Bytes)
  -- the threads that hold locks, and the locks that have an entry in the map
  pub held : Map Bytes ℕ
  pub entries : Map Bytes (Unit {0})

abbrev pub no_locks : Locks
no_locks = record { inside = none; held = no_entries; entries = no_entries }

-- `l_lock` up to `lock()`.
unfoldable pub enter_lock : ℕ → Bytes → Locks → Locks
enter_lock t name s = record s { inside = some (t, name); entries = put name tt s.entries }

-- The end of `l_lock`, once the lock is free.
unfoldable pub finish_lock : ℕ → Bytes → Locks → Locks
finish_lock t name s = record s { inside = none; held = put name t s.held }

unfoldable pub try_lock : ℕ → Bytes → Locks → Bool × Locks
try_lock t name s =
    let there = record s { entries = put name tt s.entries } in
    if is_some (s.held name)
    then (false, there)
    else (true, record there { held = put name t s.held })

unfoldable pub unlock : Bytes → Locks → Result Locks
unlock name s =
    if is_some (s.entries name)
    then ok (record s { held = erase name s.held })
    else err (janosh_exception "Attempt to unlock unknown lock")

-- What threads can do: the mutex of the map keeps all others out while one is inside `l_lock`.
pub data Step (s : Locks) (s' : Locks) : Type 0 where
  enters : (t : ℕ) (name : Bytes) → s.inside ≡ none → s' ≡ enter_lock t name s → Step s s'
  finishes :
      (t : ℕ) (name : Bytes)
      → s.inside ≡ some (t, name)
      → s.held name ≡ none
      → s' ≡ finish_lock t name s
      → Step s s'
  tries : (t : ℕ) (name : Bytes) → s.inside ≡ none → s' ≡ (try_lock t name s).1 → Step s s'
  unlocks : (name : Bytes) → s.inside ≡ none → unlock name s ≡ ok s' → Step s s'

-- While a thread that has called `l_lock` waits for a lock that is held, no thread can take any
-- step at the locks, so that the lock is never given back.
pub lock_stuck :
    (t owner : ℕ) (name : Bytes) (s s' : Locks)
    → s.held name ≡ some owner
    → ¬ Step (enter_lock t name s) s'
unfolding enter_lock
lock_stuck t owner name s s' held (enters u n free e) = cc
lock_stuck t owner name s s' held (finishes u n inside free e) = ground arith
lock_stuck t owner name s s' held (tries u n free e) = cc
lock_stuck t owner name s s' held (unlocks n free e) = cc
