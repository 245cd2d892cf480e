-- ===== src/Tests/Threads.antt =====
-- Threads at a semaphore and at a queue.
use janosh.Common.{ℕ, ◌+◌, ◌≡◌, refl, true, [], ◌∷◌, some, arith}
use janosh.Sync.Semaphore.{
  Semaphore, Reach, start, next, waits, notifies, wait, notify, resume, would_wait, Reach-resume,
}
use janosh.Sync.Queue
use janosh.Sync.Queue.{Queue, no_items, Run, Run-serves}

-- One thread sleeps at a semaphore without permits, and another has notified it.
abbrev notified : Semaphore
notified = record { count = 1; asleep = 0; awake = 1 }

notified-Reach : Reach 0 notified
unfolding wait notify
notified-Reach = next (next start waits) notifies

Reach-resume_example : (resume notified).count + 1 ≡ 1
Reach-resume_example = (Reach-resume notified-Reach (omega arith) (omega arith)).1

-- The answer of `would_wait` is the wrong way round.
would_wait-notified : would_wait notified ≡ true
unfolding would_wait
would_wait-notified = refl

-- One thread sleeps in `pop`, and two items were pushed.
abbrev waited : Queue ℕ
waited = record { items = 7 ∷ 8 ∷ []; asleep = 1; awake = 0; notifying = 2 }

waited-Run : Run (7 ∷ 8 ∷ []) [] waited
unfolding Queue.push Queue.pop
waited-Run = Run.pushes 8 (Run.pushes 7 (Run.pops Run.start))

Run-serves_example : (Queue.resume waited).0 ≡ some 7
Run-serves_example = (Run-serves waited-Run refl (omega arith)).2
