-- ===== src/Random/Impl.antt =====
-- The two tables of functions of queues/random.c (lines 83 to 126), its entry point, and a build
-- of the library in which the engine is loaded.
use libmq.Base.{ℕ, ℤ, pos, minus_one, nonzero, Option, none, some, if◌then◌else◌}
use libmq.Base.CString.{CString, codes}
use libmq.Cmd.{Cmd, pure, ◌>>=◌}
use libmq.Engine.{Ptr, Mq, Message, ConnImpl, MessageImpl}
use libmq.Registry.{register}
use libmq.Random.{RandomWorld, on_mq, on_message}
use libmq.Random.Connections
use libmq.Random.Messages

-- `mq_random_message_impl_`
abbrev pub message_impl : MessageImpl RandomWorld
message_impl = record {
  release = Messages.release;
  kind = λ p. on_message p Messages.kind;
  accept = λ p. on_message p Messages.accept;
  reject = λ p. on_message p Messages.reject;
  pass = λ p. on_message p Messages.pass;
  send = λ p. on_message p Messages.send;
  set_type = λ p type. on_message p (Messages.set_type type);
  content_type = λ p. on_message p Messages.content_type;
  set_subject = λ p subject. on_message p (Messages.set_subject subject);
  subject = λ p. on_message p Messages.subject;
  set_address = λ p address. on_message p (Messages.set_address address);
  address = λ p. on_message p Messages.address;
  body = λ p. on_message p Messages.body;
  len = λ p. on_message p Messages.len;
  add_bytes = λ p bytes. on_message p (Messages.add_bytes bytes);
  set_partition = Messages.set_partition;
  partition = Messages.partition;
}

abbrev pub as_message : Option Ptr → Option (Message RandomWorld)
as_message none = none
as_message (some p) = some (record { impl = message_impl; self = p })

-- `mq_random_connection_impl_`. `cluster_partition` is libcluster's.
abbrev pub connection_impl : (Option ℕ → Option CString) → ConnImpl RandomWorld
connection_impl cluster_partition = record {
  release = Connections.release;
  error = λ p. on_mq p Connections.error;
  errmsg = λ p. on_mq p Connections.errmsg;
  state = λ p. on_mq p Connections.state;
  connect_recv = λ p. on_mq p Connections.connect_recv;
  connect_send = λ p. on_mq p Connections.connect_send;
  disconnect = λ p. on_mq p Connections.disconnect;
  next = λ p. (do (r, msg) ← Messages.next p; pure (r, as_message msg));
  deliver = λ p. on_mq p Connections.deliver;
  create = λ p. (do r ← on_mq p Connections.create; pure (r, none));
  set_cluster = λ p cluster. on_mq p (Connections.set_cluster cluster_partition cluster);
  cluster = λ p. on_mq p Connections.cluster;
  set_partition = λ p partition. on_mq p (Connections.set_partition partition);
  partition = λ p. on_mq p Connections.partition;
}

-- `mq_random_construct_` with the table in the `impl` field
unfoldable pub construct :
    (Option ℕ → Option CString)
    → CString
    → (reserved1 reserved2 : Option CString) → Cmd RandomWorld (Option (Mq RandomWorld))
construct cluster_partition uri reserved1 reserved2 = do
  made ← Connections.construct uri reserved1 reserved2
  pure (elim made [
    | none ↦ none
    | some p ↦ some (record { impl = connection_impl cluster_partition; self = p })
  ])

-- `mq_entry`, given the address of `mq_random_construct_`
unfoldable pub entry : (construct : ℕ) → (self : ℕ) → RandomWorld → ℤ × RandomWorld
entry construct self w =
    let (r, w₁) = register (codes "random") construct self w in
    (if nonzero r then minus_one else pos 0, w₁)
