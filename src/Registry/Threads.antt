-- ===== src/Registry/Threads.antt =====
-- engine.c with any number of threads, in any order. A thread that holds the write lock makes its
-- change in one step; one that holds the read lock looks at one slot in a step, and the
-- constructor is called in a step. The table counts as initialised.
pub mod Reading
pub mod Exclusion
pub mod Schemes
pub mod Order
use libmq.Base.{
  ℕ, zero, suc, ◌+◌, ◌≡◌, refl, Bool, true, false, List, [], ◌∷◌, ◌++◌, Option, none, some,
  if◌then◌else◌, ℤ, pos,
}
use libmq.Base.CString.{CString}
use libmq.Libc.{set_errno, einval}
use libmq.World.{Slot, World}
use libmq.World.Locks.{Lock, idle, reading, writing, stuck}
use libmq.Registry.{
  Build, lock_write, lock_read, release_lock, register_locked, unregister_locked,
  unregister_where_locked,
}
use libmq.Registry.Slots.{passes, has_construct, has_handle, serves}
use libmq.Registry.History.{Call, registers, unregisters, unregisters_constructor, unregisters_all}

-- Where a thread is: outside of these functions; about to change the array, with the write lock; in
-- the loop of `mq_create_`, with the read lock; behind the loop; behind the constructor.
pub data Phase : Type 0 where
  outside returned : Phase
  changing : Call → Phase
  scanning : CString → (c : ℕ) → Phase
  chosen : CString → Option ℕ → Phase

-- One round of the loop of `mq_create_`.
unfoldable pub slot_at : ℕ → List Slot → Option Slot
slot_at c [] = none
slot_at zero (e ∷ es) = some e
slot_at (suc c) (e ∷ es) = slot_at c es

unfoldable pub look : CString → (c : ℕ) → List Slot → Phase
look uri c es = elim (slot_at c es) [
  | none ↦ chosen uri none
  | some e ↦ elim e.scheme [
    | none ↦ scanning uri (suc c)
    | some s ↦ if serves uri s then chosen uri (some e.construct) else scanning uri (suc c)
  ]
]

-- The lock can be taken for reading when nobody writes.
unfoldable pub can_read : Lock → Bool
can_read idle = true
can_read (reading n) = true
can_read writing = false
can_read stuck = false

module _ {E : Type 0} where
  -- The functions that change the array, behind the call that takes the lock.
  unfoldable pub change : Call → World E → World E
  change (registers s construct handle) w = (register_locked s construct handle w).1
  change (unregisters s handle) w = (unregister_locked s handle w).1
  change (unregisters_constructor construct) w =
      (unregister_where_locked (passes (has_construct construct)) w).1
  change (unregisters_all handle) w = (unregister_where_locked (passes (has_handle handle)) w).1

  -- What the rest of the process may do: everything but touch the table and its lock, or change how
  -- the allocator answers.
  pub record Apart (w w' : World E) : Type 0 where
    pub engines : w'.engines ≡ w.engines
    pub lock : w'.enginelock ≡ w.enginelock
    pub refuses : w'.libc.refuses ≡ w.libc.refuses

module _ {E Mq : Type 0} (b : Build E Mq) where
  -- A constructor of an engine does not touch the table.
  abbrev pub Quiet : Type 0
  Quiet =
      (k : ℕ) (uri : CString) (w : World E) (mq : Option Mq) (w' : World E)
      → b.call k uri none none w ≡ some (mq, w')
      → Apart w w'

  -- One step of one thread, with the change that it makes.
  pub data Move (w : World E) : Phase → List Call → World E → Phase → Type 0 where
    lock : (c : Call) → w.enginelock ≡ idle → Move w outside [] (lock_write w) (changing c)
    changes : (c : Call) → Move w (changing c) (c ∷ []) (change c w) outside
    enter :
        (uri : CString)
        → can_read w.enginelock ≡ true
        → Move w outside [] (lock_read w) (scanning uri 0)
    looks : (uri : CString) (c : ℕ) → Move w (scanning uri c) [] w (look uri c w.engines)
    calls :
        (uri : CString) (k : ℕ) {mq : Option Mq} {w' : World E}
        → b.call k uri none none w ≡ some (mq, w')
        → Move w (chosen uri (some k)) [] w' returned
    leave : Move w returned [] (release_lock w) outside
    fails :
        (uri : CString)
        → Move w
            (chosen uri none)
            []
            (let w' = release_lock w in record w' { libc = set_errno einval w'.libc })
            outside
    elsewhere : {w' : World E} → Apart w w' → Move w outside [] w' outside

-- A process and its threads.
pub record System (E : Type 0) : Type 0 where
  pub world : World E
  pub threads : List Phase

module _ {E Mq : Type 0} (b : Build E Mq) where
  pub data Step (s : System E) : List Call → System E → Type 0 where
    moves :
        (xs ys : List Phase) {p p' : Phase} {log : List Call} {w' : World E}
        → s.threads ≡ xs ++ p ∷ ys
        → Move b s.world p log w' p'
        → Step s log (record { world = w'; threads = xs ++ p' ∷ ys })

  -- The steps from one system to another, with the changes in the order in which they are made.
  pub data Run (s : System E) : List Call → System E → Type 0 where
    start : Run s [] s
    later :
        {t u : System E} {log new : List Call} → Run s log t → Step t new u → Run s (log ++ new) u
