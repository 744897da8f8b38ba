-- ===== src/Random.antt =====
-- queues/random.c: an engine whose incoming messages hold random numbers. Its objects live on a
-- heap and refer to each other by address. This file has the types (lines 68 to 81) and the
-- access to the heap; the functions are in the child modules `Connections` and `Messages`.
pub mod Connections
pub mod Messages
pub mod Impl
pub mod Errors
pub mod Partitions
pub mod Receiving
pub mod Sessions
pub mod Connecting
pub mod ErrorTexts
pub mod Contract
pub mod Lives
pub mod Sizes
pub mod Clients
use libmq.Base.{ℕ, ℤ, Bool, Option, none, some, ◌==◌, if◌then◌else◌, minus_one}
use libmq.Base.CString.{CString}
use libmq.Base.Cells.{put}
use libmq.Libc.{Libc, set_errno}
use libmq.Cmd.{Cmd}
use libmq.World.{World}
use libmq.Engine.{Ptr, MqMsgKind}
use libmq.Engine.Errors.{Members, set_syserr}

-- `struct mq_connection_struct`; `impl` is the same for every connection of the engine.
pub record RandomMq : Type 0 where
  pub members : Members
  pub open members use *
  pub partition : Option CString

-- `struct mq_message_struct`; `buf` holds the characters before the first NUL.
pub record RandomMessage : Type 0 where
  pub connection : Ptr
  pub kind : MqMsgKind
  pub buf : CString
  pub partition : Option CString

-- `fresh` is the address of the next object.
pub record Heap : Type 0 where
  pub conns : Ptr → Option RandomMq
  pub msgs : Ptr → Option RandomMessage
  pub fresh : Ptr

abbrev pub RandomWorld : Type 0
RandomWorld = World Heap

-- What a function on a connection reads and writes.
pub record Frame : Type 0 where
  pub libc : Libc
  pub mq : RandomMq

abbrev pub update : (Members → Members) → Frame → Frame
update g f = record f { mq = record (f.mq) { members = g f.mq.members } }

-- `SET_SYSERR(self, value); return -1;`
abbrev pub fail : (value : ℕ) → Frame → ℤ × Frame
fail value f = (minus_one, update (set_syserr value) (record f { libc = set_errno value f.libc }))

abbrev pub write_mq : Ptr → Frame → RandomWorld → RandomWorld
write_mq self f w = record w {
  libc = f.libc;
  heap = record (w.heap) { conns = put self (some f.mq) w.heap.conns };
}

-- Runs a function on the connection at an address.
unfoldable pub on_mq : {A : Type 0} → Ptr → (Frame → A × Frame) → Cmd RandomWorld A
on_mq self method w = elim (w.heap.conns self) [
  | none ↦ none
  | some mq ↦ let (a, f) = method (record { libc = w.libc; mq = mq }) in some (a, write_mq self f w)
]

-- Runs a function on the message at an address and on its connection; none of them writes to
-- the message itself.
unfoldable pub on_message :
    {A : Type 0} → Ptr → (RandomMessage → Frame → A × Frame) → Cmd RandomWorld A
on_message self method w = elim (w.heap.msgs self) [
  | none ↦ none
  | some message ↦ on_mq message.connection (method message) w
]
