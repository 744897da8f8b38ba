-- ===== src/Registry/Threads/Exclusion.antt =====
-- The lock of engine.c and what the threads in its loop see.
use libmq.Base.{ℕ, zero, suc, ◌+◌, ◌≡◌, refl, true, false, List, [], ◌∷◌, ◌++◌, none, some, arith}
use libmq.Base.CString.{CString}
use libmq.World.{Slot, World}
use libmq.World.Locks.{Lock, idle, reading, writing, stuck, wrlock, rdlock, unlock}
use libmq.Registry.{Build, register_locked, store, unregister_locked, unregister_where_locked}
use libmq.Registry.History.{Call, registers, unregisters, unregisters_constructor, unregisters_all}
use libmq.Registry.Threads.Reading.{
  reads, readers, readers-at, Right, AllRight, AllRight-at, AllRight-set, AllRight-apart, from,
  look-Right,
}
use libmq.Registry.Threads.{
  Phase, outside, returned, changing, scanning, chosen, look, can_read, change, Quiet, System, Move,
  Step, Run,
}

-- The threads that hold the write lock.
abbrev writes : Phase → ℕ
writes outside = 0
writes returned = 0
writes (changing c) = 1
writes (scanning uri c) = 0
writes (chosen uri k) = 0

unfoldable pub writers : List Phase → ℕ
writers [] = 0
writers (p ∷ ps) = writes p + writers ps

-- The state of the lock tells who holds it, and nobody waits for a lock of its own.
abbrev pub Locked : Lock → (readers writers : ℕ) → Type 0
Locked idle r w = (r ≡ 0) × (w ≡ 0)
Locked (reading n) r w = (r ≡ suc n) × (w ≡ 0)
Locked writing r w = (r ≡ 0) × (w ≡ 1)
Locked stuck r w = false ≡ true

pub record Safe {E : Type 0} (s : System E) : Type 0 where
  pub locked : Locked s.world.enginelock (readers s.threads) (writers s.threads)
  pub right : AllRight s.world.engines s.threads

writers-at :
    (xs ys : List Phase) (p : Phase) → writers (xs ++ p ∷ ys) ≡ writes p + writers (xs ++ ys)
unfolding writers
writers-at [] ys p = refl
writers-at (x ∷ xs) ys p = omega (arith, writers-at xs ys p)

-- The lock when one thread more takes it, or one of those that hold it gives it back.
wrlock-Locked :
    (l : Lock) (r w : ℕ) → l ≡ idle → Locked l (0 + r) (0 + w) → Locked (wrlock l) (0 + r) (1 + w)
unfolding wrlock
wrlock-Locked idle r w e h = ground arith
wrlock-Locked (reading n) r w e h = cc
wrlock-Locked writing r w e h = cc
wrlock-Locked stuck r w e h = cc

rdlock-Locked :
    (l : Lock) (r w : ℕ)
    → can_read l ≡ true
    → Locked l (0 + r) (0 + w)
    → Locked (rdlock l) (1 + r) (0 + w)
unfolding rdlock can_read
rdlock-Locked idle r w e h = ground arith
rdlock-Locked (reading n) r w e h = ground arith
rdlock-Locked writing r w e h = cc
rdlock-Locked stuck r w e h = cc

unlock_read-Locked :
    (l : Lock) (r w : ℕ) → Locked l (1 + r) (0 + w) → Locked (unlock l) (0 + r) (0 + w)
unfolding unlock
unlock_read-Locked idle r w h = ground arith
unlock_read-Locked (reading zero) r w h = ground arith
unlock_read-Locked (reading (suc n)) r w h = ground arith
unlock_read-Locked writing r w h = ground arith
unlock_read-Locked stuck r w h = h

unlock_write-Locked :
    (l : Lock) (r w : ℕ) → Locked l (0 + r) (1 + w) → Locked (unlock l) (0 + r) (0 + w)
unfolding unlock
unlock_write-Locked idle r w h = ground arith
unlock_write-Locked (reading n) r w h = ground arith
unlock_write-Locked writing r w h = ground arith
unlock_write-Locked stuck r w h = h

-- While a thread writes, the lock says so, and nobody reads.
pub writes-alone : (l : Lock) (r w : ℕ) → Locked l (0 + r) (1 + w) → (l ≡ writing) × (r ≡ 0)
writes-alone idle r w h = ground arith
writes-alone (reading n) r w h = ground arith
writes-alone writing r w h = (refl, omega (arith, h.0))
writes-alone stuck r w h = cc

reads-look : (uri : CString) (c : ℕ) (es : List Slot) → reads (look uri c es) ≡ 1
unfolding look
reads-look uri c es = ground arith

writes-look : (uri : CString) (c : ℕ) (es : List Slot) → writes (look uri c es) ≡ 0
unfolding look
writes-look uri c es = ground arith

module _ {E : Type 0} where
  pub change-lock : (c : Call) (w : World E) → (change c w).enginelock ≡ unlock w.enginelock
  unfolding change register_locked store unregister_locked unregister_where_locked
  change-lock (registers s construct handle) w = ground arith
  change-lock (unregisters s handle) w = ground arith
  change-lock (unregisters_constructor construct) w = ground arith
  change-lock (unregisters_all handle) w = ground arith

  -- A thread that is about to change the array holds the write lock.
  pub changing-writing :
      (s : System E) (xs ys : List Phase) (c : Call)
      → Safe s
      → s.threads ≡ xs ++ changing c ∷ ys
      → s.world.enginelock ≡ writing
  changing-writing s xs ys c v at =
      let l : Locked s.world.enginelock (reads (changing c) + readers (xs ++ ys))
          (writes (changing c) + writers (xs ++ ys)) =
        rw (← readers-at xs ys (changing c), ← writers-at xs ys (changing c), ← at) v.locked in
      (writes-alone s.world.enginelock (readers (xs ++ ys)) (writers (xs ++ ys)) l).0

module _ {E Mq : Type 0} (b : Build E Mq) (quiet : Quiet b) where
  move-Locked :
      {w w' : World E} {p p' : Phase} {log : List Call} (r v : ℕ)
      → Move b w p log w' p'
      → Locked w.enginelock (reads p + r) (writes p + v)
      → Locked w'.enginelock (reads p' + r) (writes p' + v)
  move-Locked {w} r v (Move.lock c free) h = wrlock-Locked w.enginelock r v free h
  move-Locked {w} r v (Move.changes c) h =
      rw (change-lock c w) (unlock_write-Locked w.enginelock r v h)
  move-Locked {w} r v (Move.enter uri free) h = rdlock-Locked w.enginelock r v free h
  move-Locked {w} r v (Move.looks uri c) h =
      rw (reads-look uri c w.engines, writes-look uri c w.engines) h
  move-Locked {w} {w'} r v (Move.calls uri k {mq} made) h = rw ((quiet k uri w mq w' made).lock) h
  move-Locked {w} r v Move.leave h = unlock_read-Locked w.enginelock r v h
  move-Locked {w} r v (Move.fails uri) h = unlock_read-Locked w.enginelock r v h
  move-Locked {w} r v (Move.elsewhere a) h = rw a.lock h

  -- A move leaves the array alone and the thread right, or it is a change.
  move-Right :
      {w w' : World E} {p p' : Phase} {log : List Call} (xs ys : List Phase)
      → Move b w p log w' p'
      → Locked w.enginelock (reads p + readers (xs ++ ys)) (writes p + writers (xs ++ ys))
      → AllRight w.engines (xs ++ p ∷ ys)
      → AllRight w'.engines (xs ++ p' ∷ ys)
  unfolding Right from
  move-Right {w} xs ys (Move.lock c free) l h =
      AllRight-set w.engines xs ys outside (changing c) tt h
  move-Right {w} xs ys (Move.changes c) l h =
      AllRight-apart (change c w).engines (xs ++ outside ∷ ys) (
        omega (
          arith,
          readers-at xs ys outside,
          (writes-alone w.enginelock (readers (xs ++ ys)) (writers (xs ++ ys)) l).1,
        ))
  move-Right {w} xs ys (Move.enter uri free) l h =
      AllRight-set w.engines xs ys outside (scanning uri 0) refl h
  move-Right {w} xs ys (Move.looks uri c) l h =
      AllRight-set w.engines xs ys (scanning uri c) (look uri c w.engines)
        (look-Right uri c w.engines (AllRight-at w.engines xs ys (scanning uri c) h)) h
  move-Right {w} {w'} xs ys (Move.calls uri k {mq} made) l h =
      rw ((quiet k uri w mq w' made).engines)
        (AllRight-set w.engines xs ys (chosen uri (some k)) returned tt h)
  move-Right {w} xs ys Move.leave l h = AllRight-set w.engines xs ys returned outside tt h
  move-Right {w} xs ys (Move.fails uri) l h =
      AllRight-set w.engines xs ys (chosen uri none) outside tt h
  move-Right {w} xs ys (Move.elsewhere a) l h = rw a.engines h

  pub step-Safe : {s t : System E} {log : List Call} → Step b s log t → Safe s → Safe t
  step-Safe {s} (Step.moves xs ys {p} {p'} {w'} at m) v =
      let l : Locked s.world.enginelock (reads p + readers (xs ++ ys))
          (writes p + writers (xs ++ ys)) =
        rw (← readers-at xs ys p, ← writers-at xs ys p, ← at) v.locked in
      record {
        locked =
            rw (readers-at xs ys p', writers-at xs ys p')
              (move-Locked (readers (xs ++ ys)) (writers (xs ++ ys)) m l);
        right = move-Right xs ys m l (rw (← at) v.right);
      }

  -- Whatever steps any number of threads that use engine.c make, in any order, a safe process stays
  -- safe if the constructors leave the table alone: the lock says how many threads read and whether
  -- one writes, none reads while one writes, at most one writes, no thread waits for a lock that it
  -- holds, each thread in the loop of mq_create_ has passed no slot, as the array is now, that
  -- serves its URI, and each thread behind the loop has what the loop finds in the array as it is
  -- now.
  pub run-Safe : {s t : System E} {log : List Call} → Run b s log t → Safe s → Safe t
  run-Safe Run.start v = v
  run-Safe (Run.later r m) v = step-Safe m (run-Safe r v)
