-- ===== src/Wire/Server.antt =====
-- `TcpServer::run` of tcp_server.cpp: the loop that starts a thread for each client, and the
-- semaphore that it waits at.
use janosh.Common.{ℕ, ◌+◌, ◌-◌, ◌^◌, ◌≤◌, ◌<◌, ◌≡◌, ◌⊎◌, inl, inr, arith, ◌==◌, if◌then◌else◌}
use janosh.Sync.Semaphore
use janosh.Sync.Semaphore.{Semaphore, notify, wait, resume, IsServed}

-- Where the loop is: before `wait`, inside of it, or at `accept`.
pub data Place : Type 0 where
  at_head waiting accepting : Place

pub record TcpServer : Type 0 where
  pub thread_limit : Semaphore
  pub place : Place
  -- the threads whose `TcpWorker` runs
  pub workers : ℕ

-- `TcpServer(settings, maxThreads)`
abbrev pub starting : ℕ → TcpServer
starting max_threads = record {
  thread_limit = Semaphore.starting max_threads;
  place = at_head;
  workers = 0;
}

-- `threadLimit_.wait()` passes where a permit is left.
abbrev pub passed : Semaphore → Place
passed limit = if limit.count == 0 then waiting else accepting

unfoldable pub enter_wait : TcpServer → TcpServer
enter_wait s = record s { thread_limit = wait s.thread_limit; place = passed s.thread_limit }

unfoldable pub go_on : TcpServer → TcpServer
go_on s = record s { thread_limit = resume s.thread_limit; place = passed s.thread_limit }

-- A client was accepted, and its thread is started and detached.
unfoldable pub accept : TcpServer → TcpServer
accept s = record s { place = at_head; workers = s.workers + 1 }

-- The end of a thread.
unfoldable pub finish : TcpServer → TcpServer
finish s = record s { thread_limit = notify s.thread_limit; workers = s.workers - 1 }

-- What the loop and the threads do, with a condition variable that may return without a notification.
pub data Run (max_threads : ℕ) : TcpServer → Type 0 where
  start : Run max_threads (starting max_threads)
  waits : {s : TcpServer} → Run max_threads s → s.place ≡ at_head → Run max_threads (enter_wait s)
  wakes :
      {s : TcpServer}
      → Run max_threads s
      → s.place ≡ waiting
      → 0 < s.thread_limit.awake
      → Run max_threads (go_on s)
  spurious :
      {s : TcpServer}
      → Run max_threads s
      → 0 < s.thread_limit.asleep
      → Run max_threads (record s {
        thread_limit = record s.thread_limit {
          asleep = s.thread_limit.asleep - 1;
          awake = s.thread_limit.awake + 1;
        };
      })
  accepts : {s : TcpServer} → Run max_threads s → s.place ≡ accepting → Run max_threads (accept s)
  finishes : {s : TcpServer} → Run max_threads s → 0 < s.workers → Run max_threads (finish s)

zero_or_positive : (n : ℕ) → (n ≡ 0) ⊎ (0 < n)
zero_or_positive n = ground arith

-- Permits that are taken for the next client.
abbrev held : Place → ℕ
held at_head = 0
held waiting = 0
held accepting = 1

abbrev sleepers : Place → ℕ
sleepers at_head = 0
sleepers waiting = 1
sleepers accepting = 0

-- Every permit is left, held or used by a thread, and only the loop waits.
abbrev Balanced : ℕ → TcpServer → Type 0
Balanced max_threads s =
    (s.thread_limit.count + held s.place + s.workers ≡ max_threads)
    × (s.thread_limit.asleep + s.thread_limit.awake ≡ sleepers s.place)
    × IsServed s.thread_limit

enter_wait-Balanced :
    {n : ℕ} (s : TcpServer) → s.place ≡ at_head → Balanced n s → Balanced n (enter_wait s)
unfolding enter_wait wait
enter_wait-Balanced s p b = ground arith

go_on-Balanced :
    {n : ℕ} (s : TcpServer)
    → s.place ≡ waiting
    → 0 < s.thread_limit.awake
    → Balanced n s
    → Balanced n (go_on s)
unfolding go_on resume wait
go_on-Balanced s p q b = ground arith

accept-Balanced :
    {n : ℕ} (s : TcpServer) → s.place ≡ accepting → Balanced n s → Balanced n (accept s)
unfolding accept
accept-Balanced s p b = ground arith

finish-Balanced :
    {n : ℕ} (s : TcpServer) → n < 2 ^ 64 → 0 < s.workers → Balanced n s → Balanced n (finish s)
unfolding finish notify
finish-Balanced s w q b = ground arith

Run-Balanced : {n : ℕ} {s : TcpServer} → n < 2 ^ 64 → Run n s → Balanced n s
Run-Balanced w start = ground arith
Run-Balanced w (waits {s} r p) = enter_wait-Balanced s p (Run-Balanced w r)
Run-Balanced w (wakes {s} r p q) = go_on-Balanced s p q (Run-Balanced w r)
Run-Balanced w (spurious {s} r q) = let b = Run-Balanced w r in ground arith
Run-Balanced w (accepts {s} r p) = accept-Balanced s p (Run-Balanced w r)
Run-Balanced w (finishes {s} r q) = finish-Balanced s w q (Run-Balanced w r)

-- However its clients come and go, a server with a limit below 2 ^ 64 runs at most as many workers
-- at once as the limit says, and no thread sleeps at its semaphore, or all of the workers are in
-- use.
pub Run-workers :
    {max_threads : ℕ} {s : TcpServer}
    → max_threads < 2 ^ 64
    → Run max_threads s
    → (s.workers ≤ max_threads) × ((s.thread_limit.asleep ≡ 0) ⊎ (s.workers ≡ max_threads))
Run-workers {s} w r =
    let b = Run-Balanced w r in
    (
      omega (arith, b.0),
      elim (zero_or_positive s.thread_limit.asleep) [ inl z ↦ inl z | inr p ↦ inr (ground arith) ],
    )
