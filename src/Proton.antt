-- ===== src/Proton.antt =====
-- queues/qpid-proton.c: the engine for AMQP. This file has the types (lines 75 to 93) and the
-- access to the heap; the functions are in `Connections` and `Messages`, over the library of
-- `Proton.Library`.
pub mod Library
pub mod Connections
pub mod Messages
pub mod Making
pub mod Impl
pub mod States
pub mod Sending
pub mod Settling
pub mod Leaks
pub mod Granting
pub mod Receiving
pub mod Holding
pub mod Opening
pub mod Contract
pub mod Makes
pub mod Sizes
pub mod Tables
pub mod Clients
use libmq.Base.{ℕ, ℤ, Bool, Option, none, some, minus_one}
use libmq.Base.Cells.{put}
use libmq.Base.CString.{CString}
use libmq.Libc.{Libc, set_errno}
use libmq.Cmd.{Cmd}
use libmq.World.{World}
use libmq.Engine.{Ptr, MqMsgKind}
use libmq.Engine.Errors.{Members, set_syserr}

-- `struct mq_connection_struct`
pub record ProtonMq : Type 0 where
  pub members : Members
  pub open members use *
  pub messenger : Option ℕ
  pub sub : Option ℕ
  pub window_size : ℤ

-- `struct mq_message_struct`. `bytes` is none while its pointer is NULL and its size 0.
pub record ProtonMessage : Type 0 where
  pub connection : Ptr
  pub kind : MqMsgKind
  pub msg : Option ℕ
  pub tracker : ℤ
  pub body : Option ℕ
  pub bytes : Option CString
  pub addressed : Bool

-- The objects of the engine, the address of the next one, and the state of Proton.
pub record Heap (P : Type 0) : Type 0 where
  pub conns : Ptr → Option ProtonMq
  pub msgs : Ptr → Option ProtonMessage
  pub fresh : Ptr
  pub pn : P

abbrev pub ProtonWorld : Type 0 → Type 0
ProtonWorld P = World (Heap P)

-- What a function on a connection reads and writes.
pub record Frame (P : Type 0) : Type 0 where
  pub libc : Libc
  pub pn : P
  pub mq : ProtonMq

-- What a function on a message reads and writes; `mq` is the message's connection.
pub record MessageFrame (P : Type 0) : Type 0 where
  pub frame : Frame P
  pub open frame use *
  pub message : ProtonMessage

module _ {P : Type 0} where
  abbrev pub update : (Members → Members) → Frame P → Frame P
  update g f = record f { mq = record (f.mq) { members = g f.mq.members } }

  -- `SET_SYSERR(self, value); return -1;`
  abbrev pub fail : (value : ℕ) → Frame P → ℤ × Frame P
  fail value f = (minus_one, update (set_syserr value) (record f { libc = set_errno value f.libc }))

  abbrev pub write_mq : Ptr → Frame P → ProtonWorld P → ProtonWorld P
  write_mq self f w = record w {
    libc = f.libc;
    heap = record (w.heap) { conns = put self (some f.mq) w.heap.conns; pn = f.pn };
  }

  -- Runs a function on the connection at an address.
  unfoldable pub on_mq : {A : Type 0} → Ptr → (Frame P → A × Frame P) → Cmd (ProtonWorld P) A
  on_mq self method w = elim (w.heap.conns self) [
    | none ↦ none
    | some mq ↦
        let (a, f) = method (record { libc = w.libc; pn = w.heap.pn; mq = mq }) in
        some (a, write_mq self f w)
  ]

  abbrev pub write_message : Ptr → Ptr → MessageFrame P → ProtonWorld P → ProtonWorld P
  write_message self connection f w =
      let w₁ = write_mq connection f.frame w in
      record w₁ { heap = record (w₁.heap) { msgs = put self (some f.message) w.heap.msgs } }

  -- Runs a function on the message at an address and on its connection.
  unfoldable pub on_message :
      {A : Type 0} → Ptr → (MessageFrame P → A × MessageFrame P) → Cmd (ProtonWorld P) A
  on_message self method w = elim (w.heap.msgs self) [
    | none ↦ none
    | some message ↦ elim (w.heap.conns message.connection) [
      | none ↦ none
      | some mq ↦
          let (a, f) = method (record {
            frame = record { libc = w.libc; pn = w.heap.pn; mq = mq };
            message = message;
          }) in
          some (a, write_message self message.connection f w)
    ]
  ]
