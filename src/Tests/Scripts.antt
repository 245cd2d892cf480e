-- ===== src/Tests/Scripts.antt =====
-- Lua threads that open the connection, and that lock.
use janosh.Common.{
  ℕ, ◌≡◌, ◌<◌, ◌⊎◌, refl, true, false, List, [], ◌∷◌, codes, bytes_eq, contains, put, no_entries,
  text_eq,
}
use janosh.Result.{ok, err, assertion_failed}
use janosh.Lua.Transactions.{
  LuaScript, Run, start, calls, closes_it, starting, perform_open, perform_close, notify_all,
  queued, wake,
}
use janosh.Lua.Fairness.{Run-opens}
use janosh.Lua.Locks.{Locks, Step, no_locks, enter_lock, lock_stuck}

-- Thread 1 has opened and closed, and thread 2 has called in between, and is to be woken.
abbrev left : LuaScript
left = record {
  is_open = false;
  open_queue = 2 ∷ [];
  open_current_id = 1;
  asleep = 2 ∷ [];
  notifying = 1;
}

left-Run : Run (1 ∷ 2 ∷ []) (1 ∷ []) left
unfolding perform_open perform_close contains
left-Run = closes_it (ok tt) (calls 2 refl (calls 1 refl start))

Run-opens_example :
    (◌≡◌ {A = List ℕ} (1 ∷ 2 ∷ []) (1 ∷ 2 ∷ []))
    × ((contains 2 left.asleep ≡ false) ⊎ (0 < left.notifying))
    × (contains 2 (notify_all left).asleep ≡ false)
    × ((wake (ok tt) 2 left).0 ≡ ok tt)
    × ((wake (ok tt) 2 left).1.is_open ≡ true)
    × (queued (wake (ok tt) 2 left).1 ≡ [])
Run-opens_example = Run-opens left-Run refl refl

-- A thread whose callback throws stays at the front of the queue, where no other passes it.
abbrev thrown : LuaScript
thrown = (perform_open (err assertion_failed) 1 starting).1

thrown-queue : (thrown.open_queue ≡ 1 ∷ []) × (thrown.is_open ≡ false)
unfolding perform_open
thrown-queue = (refl, refl)

thrown-sleeps : (wake (ok tt) 2 (perform_open (ok tt) 2 thrown).1).1.is_open ≡ false
unfolding perform_open wake
thrown-sleeps = refl

abbrev locked : Locks
locked = record no_locks { held = put (codes "l") 1 no_entries }

lock_stuck_example : ¬ Step (enter_lock 2 (codes "l") locked) locked
unfolding bytes_eq
lock_stuck_example = lock_stuck 2 1 (codes "l") locked locked refl
