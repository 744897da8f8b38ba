-- ===== src/Message.antt =====
-- message.c: the public functions on messages, each a call of the engine that made the message.
use libmq.Base.{ℕ, ℤ, pos, Option}
use libmq.Base.CString.{CString}
use libmq.Cmd.{Cmd, pure, ◌>>=◌, ◌>>◌}
use libmq.Engine.{Message, MqMsgKind}

module _ {W : Type 0} (message : Message W) where
  -- `mq_message_kind`
  unfoldable pub kind : Cmd W MqMsgKind
  kind = message.impl.kind message.self

  -- `mq_message_accept`
  unfoldable pub accept : Cmd W ℤ
  accept = do r ← message.impl.accept message.self; message.impl.release message.self; pure r

  -- `mq_message_reject`
  unfoldable pub reject : Cmd W ℤ
  reject = do r ← message.impl.reject message.self; message.impl.release message.self; pure r

  -- `mq_message_pass`
  unfoldable pub pass : Cmd W ℤ
  pass = do r ← message.impl.pass message.self; message.impl.release message.self; pure r

  -- `mq_message_free`
  unfoldable pub free : Cmd W ℤ
  free = do message.impl.release message.self; pure (pos 0)

  -- `mq_message_set_type`
  unfoldable pub set_type : Option CString → Cmd W ℤ
  set_type type = message.impl.set_type message.self type

  -- `mq_message_type`
  unfoldable pub content_type : Cmd W (Option CString)
  content_type = message.impl.content_type message.self

  -- `mq_message_set_subject`
  unfoldable pub set_subject : Option CString → Cmd W ℤ
  set_subject subject = message.impl.set_subject message.self subject

  -- `mq_message_subject`
  unfoldable pub subject : Cmd W (Option CString)
  subject = message.impl.subject message.self

  -- `mq_message_set_address`
  unfoldable pub set_address : Option CString → Cmd W ℤ
  set_address address = message.impl.set_address message.self address

  -- `mq_message_address`
  unfoldable pub address : Cmd W (Option CString)
  address = message.impl.address message.self

  -- `mq_message_body`
  unfoldable pub body : Cmd W (Option CString)
  body = message.impl.body message.self

  -- `mq_message_len`
  unfoldable pub len : Cmd W ℕ
  len = message.impl.len message.self

  -- `mq_message_add_bytes`
  unfoldable pub add_bytes : CString → Cmd W ℤ
  add_bytes bytes = message.impl.add_bytes message.self bytes

  -- `mq_message_set_partition`
  unfoldable pub set_partition : Option CString → Cmd W ℤ
  set_partition partition = message.impl.set_partition message.self partition

  -- `mq_message_partition`
  unfoldable pub partition : Cmd W (Option CString)
  partition = message.impl.partition message.self

  -- `mq_message_send`
  unfoldable pub send : Cmd W ℤ
  send = message.impl.send message.self
