-- ===== src/Engine.antt =====
-- libmq.h and libmq-engine.h: the states of a connection, the kinds of message, and the tables
-- of functions through which the library calls an engine.
pub mod Errors
pub mod Backoff
pub mod Contract
use libmq.Base.{ℕ, ℤ, Option}
use libmq.Base.CString.{CString}
use libmq.Cmd.{Cmd}

-- `MQSTATE`
pub data MqState : Type 0 where
  disconnected send recv : MqState

-- `MQMSGKIND`
pub data MqMsgKind : Type 0 where
  outgoing incoming : MqMsgKind

-- The address of a connection or a message.
abbrev pub Ptr : Type 0
Ptr = ℕ

-- `MQMESSAGEIMPL`
pub record MessageImpl (W : Type 0) : Type 0 where
  pub release : Ptr → Cmd W ℕ
  pub kind : Ptr → Cmd W MqMsgKind
  pub accept : Ptr → Cmd W ℤ
  pub reject : Ptr → Cmd W ℤ
  pub pass : Ptr → Cmd W ℤ
  pub send : Ptr → Cmd W ℤ
  pub set_type : Ptr → Option CString → Cmd W ℤ
  pub content_type : Ptr → Cmd W (Option CString)
  pub set_subject : Ptr → Option CString → Cmd W ℤ
  pub subject : Ptr → Cmd W (Option CString)
  pub set_address : Ptr → Option CString → Cmd W ℤ
  pub address : Ptr → Cmd W (Option CString)
  pub body : Ptr → Cmd W (Option CString)
  pub len : Ptr → Cmd W ℕ
  pub add_bytes : Ptr → CString → Cmd W ℤ
  pub set_partition : Ptr → Option CString → Cmd W ℤ
  pub partition : Ptr → Cmd W (Option CString)

-- An `MQMESSAGE *`: the object's address and its `impl` field.
pub record Message (W : Type 0) : Type 0 where
  pub impl : MessageImpl W
  pub self : Ptr

-- `MQCONNIMPL`. `next` and `create` return what they have written to `*msg`.
pub record ConnImpl (W : Type 0) : Type 0 where
  pub release : Ptr → Cmd W ℕ
  pub error : Ptr → Cmd W ℤ
  pub errmsg : Ptr → Cmd W CString
  pub state : Ptr → Cmd W MqState
  pub connect_recv : Ptr → Cmd W ℤ
  pub connect_send : Ptr → Cmd W ℤ
  pub disconnect : Ptr → Cmd W ℤ
  pub next : Ptr → Cmd W (ℤ × Option (Message W))
  pub deliver : Ptr → Cmd W ℤ
  pub create : Ptr → Cmd W (ℤ × Option (Message W))
  pub set_cluster : Ptr → Option ℕ → Cmd W ℤ
  pub cluster : Ptr → Cmd W (Option ℕ)
  pub set_partition : Ptr → Option CString → Cmd W ℤ
  pub partition : Ptr → Cmd W (Option CString)

-- An `MQ *`.
pub record Mq (W : Type 0) : Type 0 where
  pub impl : ConnImpl W
  pub self : Ptr
