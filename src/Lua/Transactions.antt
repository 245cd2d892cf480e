-- ===== src/Lua/Transactions.antt =====
-- `performOpen`, `performClose` and `performRequest` of lua_script.cpp. They hold `open_lock_`, except
-- while a thread sleeps at the condition variable, and where `performClose` wakes the others. Threads
-- are numbers. Each callback that is called is given by what it returns or throws.
use janosh.Common.{
  ℕ, ◌≡◌, Bool, true, false, not, List, [], ◌∷◌, ◌++◌, ◌==◌, ◌&&◌, ◌||◌, ◌+◌, ◌-◌, ◌<◌, contains,
  if◌then◌else◌,
}
use janosh.Result.{Result, ok, err, janosh_exception, undefined_behaviour}
use janosh.Exec.{Exec}

pub record LuaScript : Type 0 where
  pub is_open : Bool
  pub open_queue : List ℕ
  pub open_current_id : ℕ
  -- threads that sleep at the condition variable and were not woken
  pub asleep : List ℕ
  -- calls of `performClose` that have unlocked and not woken the others yet
  pub notifying : ℕ

abbrev pub starting : LuaScript
starting = record {
  is_open = false;
  open_queue = [];
  open_current_id = 0;
  asleep = [];
  notifying = 0;
}

-- The thread has opened the connection.
abbrev pub opened_by : ℕ → LuaScript → LuaScript
opened_by t s = record s { is_open = true; open_current_id = t }

-- `openCallback_()` and what follows it; where it throws, the queue stays as it is.
unfoldable pub open_now : Result (Unit {0}) → ℕ → Exec LuaScript (Unit {0})
open_now (ok tt) t s = (ok tt, opened_by t s)
open_now (err e) t s = (err e, s)

abbrev pub is_front : ℕ → List ℕ → Bool
is_front t [] = false
is_front t (u ∷ queue) = t == u

abbrev pub sleep : ℕ → LuaScript → LuaScript
sleep t s = record s { asleep = t ∷ s.asleep }

-- The test in the loop of `performOpen`: the thread opens, or sleeps.
unfoldable pub test_front : Result (Unit {0}) → ℕ → Exec LuaScript (Unit {0})
unfolding open_now
test_front opens t s =
    if is_front t s.open_queue && not s.is_open then open_now opens t s else (ok tt, sleep t s)

abbrev pub has_items : List ℕ → Bool
has_items [] = false
has_items (t ∷ queue) = true

-- `performOpen(id, true)` until the thread sleeps, has opened, or throws.
unfoldable pub perform_open : Result (Unit {0}) → ℕ → Exec LuaScript (Unit {0})
unfolding test_front open_now
perform_open opens t s =
    if has_items s.open_queue || s.is_open
    then (let queued = record s { open_queue = s.open_queue ++ t ∷ [] } in
        if queued.is_open then (ok tt, sleep t queued) else test_front opens t queued)
    else open_now opens t (record s { open_queue = t ∷ [] })

-- A thread that was woken, or wakes without a notification, goes on: it reads the front of the queue.
abbrev pub without : ℕ → List ℕ → List ℕ
without t [] = []
without t (u ∷ us) = if u == t then without t us else u ∷ without t us

unfoldable pub wake : Result (Unit {0}) → ℕ → Exec LuaScript (Unit {0})
unfolding test_front
wake opens t s =
    let awake = record s { asleep = without t s.asleep } in
    if has_items awake.open_queue
    then test_front opens t awake
    else (err undefined_behaviour, awake)

abbrev pub pop_front : List ℕ → List ℕ
pop_front [] = []
pop_front (t ∷ queue) = queue

-- `performClose(true, commit)` up to `lock.unlock()`.
unfoldable pub perform_close : Result (Unit {0}) → Exec LuaScript (Unit {0})
perform_close closes s =
    if not s.is_open
    then (err (janosh_exception "Attempt to close and request that isn't open"), s)
    else (elim closes [
      | err e ↦ (err e, s)
      | ok _ ↦ (
        ok tt,
        record s {
          is_open = false;
          open_queue = pop_front s.open_queue;
          notifying = s.notifying + 1;
        },
      )
    ])

-- `open_lock_cond_.notify_all()`
unfoldable pub notify_all : LuaScript → LuaScript
notify_all s = record s { asleep = []; notifying = s.notifying - 1 }

-- The callbacks that `performRequest` has called.
pub data Callback : Type 0 where
  opens closes requests : Callback

-- With no open connection one is opened for the request, and closed behind it, neither of which asks
-- for the queue. Where the request throws, the connection stays open.
unfoldable pub perform_request :
    Result (Unit {0})
    → Result (Unit {0})
    → Result (Unit {0})
    → ℕ
    → LuaScript
    → Result (Unit {0}) × List Callback × LuaScript
perform_request opening requesting closing t s =
    let open_one = opened_by t s in
    if s.is_open then (requesting, requests ∷ [], s) else (elim opening [
      | err e ↦ (err e, opens ∷ [], s)
      | ok _ ↦ (elim requesting [
        | err e ↦ (err e, opens ∷ requests ∷ [], open_one)
        | ok _ ↦ (elim closing [
          | err e ↦ (err e, opens ∷ requests ∷ closes ∷ [], open_one)
          | ok _ ↦ (ok tt, opens ∷ requests ∷ closes ∷ [], record open_one { is_open = false })
        ])
      ])
    ])

-- The threads that wait for the connection, the first first.
abbrev pub queued : LuaScript → List ℕ
queued s = if s.is_open then pop_front s.open_queue else s.open_queue

-- The steps of threads, with the threads that have called `performOpen` and those that have opened the
-- connection. A thread calls it only while it is not in the queue, its callback opens the connection,
-- and a request leaves the connection as open as it was: where it has opened it, neither the request
-- nor the closing throws.
pub data Run : List ℕ → List ℕ → LuaScript → Type 0 where
  start : Run [] [] starting
  calls :
      {called opened : List ℕ} {s : LuaScript} (t : ℕ)
      → contains t s.open_queue ≡ false
      → Run called opened s
      → Run
          (called ++ t ∷ [])
          (if (perform_open (ok tt) t s).1.is_open && not s.is_open
            then opened ++ t ∷ []
            else opened)
          (perform_open (ok tt) t s).1
  wakes :
      {called opened : List ℕ} {s : LuaScript} (t : ℕ)
      → contains t (queued s) ≡ true
      → Run called opened s
      → Run called
          (if (wake (ok tt) t s).1.is_open && not s.is_open then opened ++ t ∷ [] else opened)
          (wake (ok tt) t s).1
  closes_it :
      {called opened : List ℕ} {s : LuaScript} (closing : Result (Unit {0}))
      → Run called opened s
      → Run called opened (perform_close closing s).1
  notifies :
      {called opened : List ℕ} {s : LuaScript}
      → 0 < s.notifying
      → Run called opened s
      → Run called opened (notify_all s)
  requests_it :
      {called opened : List ℕ} {s : LuaScript} (opening requesting closing : Result (Unit {0}))
      (t : ℕ)
      → (perform_request opening requesting closing t s).2.is_open ≡ s.is_open
      → Run called opened s
      → Run called opened (perform_request opening requesting closing t s).2
