-- ===== src/World.antt =====
-- The state of a process that uses the library: the C library's, the globals of engine.c (lines
-- 30 to 44), and what the engines keep (`heap`, of a type that each engine chooses).
pub mod Locks
use libmq.Base.{ℕ, Bool, List, Option}
use libmq.Base.CString.{CString}
use libmq.Libc.{Libc}
use Locks.{Lock}

-- `struct mq_engine_struct`. Function pointers and handles are addresses.
pub record Slot : Type 0 where
  pub scheme : Option CString
  pub construct : ℕ
  pub handle : ℕ

-- `engines` holds `enginecount` slots. `initialised` says whether `mq_init_once_` has run.
pub record World (E : Type 0) : Type 0 where
  pub libc : Libc
  pub engines : List Slot
  pub enginelock : Lock
  pub initialised : Bool
  pub heap : E
