-- ===== src/Sync/Semaphore.antt =====
-- semaphore.hpp and semaphore.cpp. A thread that waits at the condition variable is asleep or, once
-- it was woken and before it has the lock again, awake.
use janosh.Common.{
  ℕ, ◌+◌, ◌-◌, ◌%◌, ◌^◌, ◌<◌, ◌≤◌, ◌≡◌, Bool, true, false, arith, ◌==◌, if◌then◌else◌,
}

pub record Semaphore : Type 0 where
  pub count : ℕ
  pub asleep : ℕ
  pub awake : ℕ

-- `Semaphore(count)`
abbrev pub starting : ℕ → Semaphore
starting n = record { count = n; asleep = 0; awake = 0 }

-- `condition_.notify_one()`
abbrev pub notify_one : Semaphore → Semaphore
notify_one s = if s.asleep == 0 then s else record s { asleep = s.asleep - 1; awake = s.awake + 1 }

unfoldable pub notify : Semaphore → Semaphore
notify s = notify_one (record s { count = (s.count + 1) % 2 ^ 64 })

-- The test of the loop in `wait`, by a thread that calls it or goes on after it was woken: it goes
-- to sleep, or passes.
unfoldable pub wait : Semaphore → Semaphore
wait s =
    if s.count == 0 then record s { asleep = s.asleep + 1 } else record s { count = s.count - 1 }

-- The loop of `wait` after the condition variable has returned.
unfoldable pub resume : Semaphore → Semaphore
unfolding wait
resume s = wait (record s { awake = s.awake - 1 })

unfoldable pub try_wait : Semaphore → Bool × Semaphore
try_wait s = if s.count == 0 then (false, s) else (true, record s { count = s.count - 1 })

unfoldable pub would_wait : Semaphore → Bool
would_wait s = if s.count == 0 then false else true

-- What any thread may do next. The condition variable may return without a notification.
pub data Step (s : Semaphore) : Semaphore → Type 0 where
  notifies : Step s (notify s)
  waits : Step s (wait s)
  tries : Step s (try_wait s).1
  resumes : 0 < s.awake → Step s (resume s)
  spurious : 0 < s.asleep → Step s (record s { asleep = s.asleep - 1; awake = s.awake + 1 })

pub data Reach (n : ℕ) : Semaphore → Type 0 where
  start : Reach n (starting n)
  next : {s t : Semaphore} → Reach n s → Step s t → Reach n t

-- Permits that sleeping threads could take are left to threads that are awake.
abbrev pub IsServed : Semaphore → Type 0
IsServed s = 0 < s.asleep → s.count ≤ s.awake

Step-IsServed : {s t : Semaphore} → Step s t → IsServed s → IsServed t
unfolding notify wait resume try_wait
Step-IsServed {s} notifies h = ground arith
Step-IsServed {s} waits h = ground arith
Step-IsServed {s} tries h = ground arith
Step-IsServed {s} (resumes p) h = ground arith
Step-IsServed {s} (spurious p) h = ground arith

Reach-IsServed : {n : ℕ} {s : Semaphore} → Reach n s → IsServed s
Reach-IsServed start h = omega arith
Reach-IsServed (next r st) h = Step-IsServed st (Reach-IsServed r) h

-- After any steps of threads at a semaphore, whenever it has a permit and a thread waits, a waiting
-- thread is awake, and going on it passes: it takes one permit, and no other thread goes to sleep.
pub Reach-resume :
    {n : ℕ} {s : Semaphore}
    → Reach n s
    → 0 < s.count
    → 0 < s.asleep + s.awake
    → (0 < s.awake)
      × ((resume s).count + 1 ≡ s.count)
      × ((resume s).asleep ≡ s.asleep)
      × ((resume s).awake + 1 ≡ s.awake)
unfolding resume wait
Reach-resume {n} {s} r c w = ground (arith, Reach-IsServed r)

pub try_wait-would_wait : (s : Semaphore) → would_wait s ≡ (try_wait s).0
unfolding try_wait would_wait
try_wait-would_wait s = ground arith
