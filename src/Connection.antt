-- ===== src/Connection.antt =====
-- connection.c: the public functions on connections, each a call of the engine that made the
-- connection.
use libmq.Base.{ℕ, ℤ, pos, nonzero, Option, none, some, if◌then◌else◌}
use libmq.Base.CString.{CString}
use libmq.Cmd.{Cmd, pure, ◌>>=◌, ◌>>◌}
use libmq.World.{World}
use libmq.Engine.{Mq, Message}
use libmq.Registry.{Build, create}

module _ {E : Type 0} (b : Build E (Mq (World E))) where
  -- `mq_connect_recv`
  unfoldable pub connect_recv :
      CString → (reserved1 reserved2 : Option CString) → Cmd (World E) (Option (Mq (World E)))
  connect_recv uri reserved1 reserved2 = do
    made ← create b uri reserved1 reserved2
    elim made [
      | none ↦ pure none
      | some mq ↦ do
        r ← mq.impl.connect_recv mq.self
        if nonzero r then (do mq.impl.release mq.self; pure none) else pure (some mq)
    ]

  -- `mq_connect_send`
  unfoldable pub connect_send :
      CString → (reserved1 reserved2 : Option CString) → Cmd (World E) (Option (Mq (World E)))
  connect_send uri reserved1 reserved2 = do
    made ← create b uri reserved1 reserved2
    elim made [
      | none ↦ pure none
      | some mq ↦ do
        r ← mq.impl.connect_send mq.self
        if nonzero r then (do mq.impl.release mq.self; pure none) else pure (some mq)
    ]

module _ {W : Type 0} (mq : Mq W) where
  -- `mq_disconnect`
  unfoldable pub disconnect : Cmd W ℤ
  disconnect = do mq.impl.release mq.self; pure (pos 0)

  -- `mq_set_cluster`
  unfoldable pub set_cluster : Option ℕ → Cmd W ℤ
  set_cluster cluster = mq.impl.set_cluster mq.self cluster

  -- `mq_set_partition`
  unfoldable pub set_partition : Option CString → Cmd W ℤ
  set_partition partition = mq.impl.set_partition mq.self partition

  -- `mq_partition`
  unfoldable pub partition : Cmd W (Option CString)
  partition = mq.impl.partition mq.self

  -- `mq_message_create`
  unfoldable pub message_create : Cmd W (Option (Message W))
  message_create = do
    (r, message) ← mq.impl.create mq.self
    if nonzero r then pure none else pure message

  -- `mq_next`
  unfoldable pub next : Cmd W (Option (Message W))
  next = do
    (r, message) ← mq.impl.next mq.self
    if nonzero r then (do mq.impl.error mq.self; pure none) else pure message

  -- `mq_deliver`
  unfoldable pub deliver : Cmd W ℤ
  deliver = mq.impl.deliver mq.self

  -- `mq_error`
  unfoldable pub error : Cmd W ℤ
  error = mq.impl.error mq.self

  -- `mq_errmsg`
  unfoldable pub errmsg : Cmd W CString
  errmsg = mq.impl.errmsg mq.self
