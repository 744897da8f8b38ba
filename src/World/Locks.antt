-- ===== src/World/Locks.antt =====
-- A `pthread_rwlock_t` as one thread sees it. `stuck` is a thread that waits for a lock which it
-- holds itself, or one that has given back a lock which it does not hold; nothing leads out of it.
use libmq.Base.{ℕ, zero, suc}

-- `reading n` stands for n + 1 read locks.
pub data Lock : Type 0 where
  idle writing stuck : Lock
  reading : ℕ → Lock

unfoldable pub wrlock : Lock → Lock
wrlock idle = writing
wrlock (reading n) = stuck
wrlock writing = stuck
wrlock stuck = stuck

unfoldable pub rdlock : Lock → Lock
rdlock idle = reading 0
rdlock (reading n) = reading (suc n)
rdlock writing = stuck
rdlock stuck = stuck

unfoldable pub unlock : Lock → Lock
unlock idle = stuck
unlock (reading zero) = idle
unlock (reading (suc n)) = reading n
unlock writing = idle
unlock stuck = stuck
