-- ===== src/Proton/Impl.antt =====
-- The two tables of functions of queues/qpid-proton.c (lines 95 to 138).
use libmq.Base.{Option, none, some}
use libmq.Base.CString.{CString}
use libmq.Cmd.{Cmd, pure, ◌>>=◌}
use libmq.Engine.{Ptr, Mq, Message, ConnImpl, MessageImpl}
use libmq.Proton.{ProtonWorld, on_mq, on_message}
use libmq.Proton.Library.{Proton}
use libmq.Proton.Connections
use libmq.Proton.Messages
use libmq.Proton.Making

module _ (lib : Proton) where
  open lib use {State}

  -- `mq_proton_message_impl_`
  abbrev pub message_impl : MessageImpl (ProtonWorld State)
  message_impl = record {
    release = Messages.release lib;
    kind = λ p. on_message p (Messages.kind lib);
    accept = λ p. on_message p (Messages.accept lib);
    reject = λ p. on_message p (Messages.reject lib);
    pass = λ p. on_message p (Messages.pass lib);
    send = λ p. on_message p (Messages.send lib);
    set_type = λ p type. on_message p (Messages.set_type lib type);
    content_type = λ p. on_message p (Messages.content_type lib);
    set_subject = λ p subject. on_message p (Messages.set_subject lib subject);
    subject = λ p. on_message p (Messages.subject lib);
    set_address = λ p address. on_message p (Messages.set_address lib address);
    address = λ p. on_message p (Messages.address lib);
    body = λ p. on_message p (Messages.body lib);
    len = λ p. on_message p (Messages.len lib);
    add_bytes = λ p bytes. on_message p (Messages.add_bytes lib bytes);
    set_partition = λ p partition. on_message p (Messages.set_partition lib partition);
    partition = λ p. on_message p (Messages.partition lib);
  }

  -- A handle on a message of the engine.
  abbrev pub handle : Ptr → Message (ProtonWorld State)
  handle p = record { impl = message_impl; self = p }

  abbrev pub as_message : Option Ptr → Option (Message (ProtonWorld State))
  as_message none = none
  as_message (some p) = some (handle p)

  -- `mq_proton_connection_impl_`
  abbrev pub connection_impl : ConnImpl (ProtonWorld State)
  connection_impl = record {
    release = Connections.release lib;
    error = λ p. on_mq p (Connections.error lib);
    errmsg = λ p. on_mq p (Connections.errmsg lib);
    state = λ p. on_mq p (Connections.state lib);
    connect_recv = λ p. on_mq p (Connections.connect_recv lib);
    connect_send = λ p. on_mq p (Connections.connect_send lib);
    disconnect = λ p. on_mq p (Connections.disconnect lib);
    next = λ p. (do (r, msg) ← Making.next lib p; pure (r, as_message msg));
    deliver = λ p. on_mq p (Connections.deliver lib);
    create = λ p. (do (r, msg) ← Making.create lib p; pure (r, as_message msg));
    set_cluster = λ p cluster. on_mq p (Connections.set_cluster lib cluster);
    cluster = λ p. on_mq p (Connections.cluster lib);
    set_partition = λ p partition. on_mq p (Connections.set_partition lib partition);
    partition = λ p. on_mq p (Connections.partition lib);
  }

  -- `mq_proton_construct_` with the table in the `impl` field
  unfoldable pub construct :
      CString
      → (reserved1 reserved2 : Option CString)
      → Cmd (ProtonWorld State) (Option (Mq (ProtonWorld State)))
  construct uri reserved1 reserved2 = do
    made ← Connections.construct lib uri reserved1 reserved2
    pure (elim made [ none ↦ none | some p ↦ some (record { impl = connection_impl; self = p }) ])
