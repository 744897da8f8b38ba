-- ===== src/Client.antt =====
-- A program that uses the public functions of libmq on one connection: any list of calls, with
-- the messages that it holds. A message is named by its position; a call on a position that holds
-- no message is left out, and a message that has been settled or freed is forgotten.
pub mod Safety
pub mod Session
use libmq.Base.{
  ℕ, zero, suc, Bool, true, false, List, [], ◌∷◌, Option, none, some, ◌==◌, if◌then◌else◌,
}
use libmq.Base.CString.{CString}
use libmq.Cmd.{Cmd, pure, ◌>>=◌, ◌>>◌}
use libmq.World.{World}
use libmq.Engine.{Ptr, Mq, Message}
use libmq.Registry.{Build}
use libmq.Connection
use libmq.Message

-- The functions that read a message or change it, and those that end its life.
pub data Use : Type 0 where
  kind send content_type subject address body len partition : Use
  set_type set_subject set_address set_partition : Option CString → Use
  add_bytes : CString → Use

pub data Settling : Type 0 where
  accept reject pass free : Settling

pub data Call : Type 0 where
  error errmsg deliver connection_partition message_create next : Call
  set_cluster : Option ℕ → Call
  set_connection_partition : Option CString → Call
  uses : (position : ℕ) → Use → Call
  settles : (position : ℕ) → Settling → Call

module _ {W : Type 0} where
  unfoldable pub use_message : Use → Message W → Cmd W (Unit {0})
  use_message kind m = do Message.kind m; pure tt
  use_message send m = do Message.send m; pure tt
  use_message content_type m = do Message.content_type m; pure tt
  use_message subject m = do Message.subject m; pure tt
  use_message address m = do Message.address m; pure tt
  use_message body m = do Message.body m; pure tt
  use_message len m = do Message.len m; pure tt
  use_message partition m = do Message.partition m; pure tt
  use_message (set_type s) m = do Message.set_type m s; pure tt
  use_message (set_subject s) m = do Message.set_subject m s; pure tt
  use_message (set_address s) m = do Message.set_address m s; pure tt
  use_message (set_partition s) m = do Message.set_partition m s; pure tt
  use_message (add_bytes s) m = do Message.add_bytes m s; pure tt

  unfoldable pub settle : Settling → Message W → Cmd W (Unit {0})
  settle accept m = do Message.accept m; pure tt
  settle reject m = do Message.reject m; pure tt
  settle pass m = do Message.pass m; pure tt
  settle free m = do Message.free m; pure tt

  -- The message at a position, and the messages at other addresses.
  unfoldable pub pick : List (Message W) → ℕ → Option (Message W)
  pick [] i = none
  pick (m ∷ ms) zero = some m
  pick (m ∷ ms) (suc i) = pick ms i

  unfoldable pub without : Ptr → List (Message W) → List (Message W)
  without p [] = []
  without p (m ∷ ms) = if m.self == p then without p ms else m ∷ without p ms

  abbrev pub with_new : List (Message W) → Option (Message W) → List (Message W)
  with_new ms none = ms
  with_new ms (some m) = m ∷ ms

  module _ (mq : Mq W) where
    -- One call, with the messages that are held before and after it.
    unfoldable pub perform : Call → List (Message W) → Cmd W (List (Message W))
    perform error ms = do Connection.error mq; pure ms
    perform errmsg ms = do Connection.errmsg mq; pure ms
    perform deliver ms = do Connection.deliver mq; pure ms
    perform connection_partition ms = do Connection.partition mq; pure ms
    perform message_create ms = do m ← Connection.message_create mq; pure (with_new ms m)
    perform next ms = do m ← Connection.next mq; pure (with_new ms m)
    perform (set_cluster c) ms = do Connection.set_cluster mq c; pure ms
    perform (set_connection_partition s) ms = do Connection.set_partition mq s; pure ms
    perform (uses i u) ms = elim (pick ms i) [
      | none ↦ pure ms
      | some m ↦ do use_message u m; pure ms
    ]
    perform (settles i s) ms = elim (pick ms i) [
      | none ↦ pure ms
      | some m ↦ do settle s m; pure (without m.self ms)
    ]

    unfoldable pub performs : List Call → List (Message W) → Cmd W (List (Message W))
    performs [] ms = pure ms
    performs (c ∷ cs) ms = do ms' ← perform c ms; performs cs ms'

-- A connection for receiving or for sending, the calls, and the end of the connection. The result
-- says whether there was a connection.
module _ {E : Type 0} (b : Build E (Mq (World E))) where
  abbrev pub connect : (receiving : Bool) → CString → Cmd (World E) (Option (Mq (World E)))
  connect true uri = Connection.connect_recv b uri none none
  connect false uri = Connection.connect_send b uri none none

  unfoldable pub session : (receiving : Bool) → CString → List Call → Cmd (World E) Bool
  session receiving uri calls = do
    connected ← connect receiving uri
    elim connected [
      | none ↦ pure false
      | some mq ↦ do performs mq calls []; Connection.disconnect mq; pure true
    ]
