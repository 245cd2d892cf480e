-- ===== src/Sync.antt =====
-- The monitors that threads wait at: semaphore.cpp and queue.hpp. A method holds the lock of its
-- object, so that what it does between two waits is one step.
pub mod Semaphore
pub mod Queue
