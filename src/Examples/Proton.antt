-- ===== src/Examples/Proton.antt =====
-- Examples for the engine of queues/qpid-proton.c, over a small library in the place of Proton.
use libmq.Base.{◌≡◌, refl, false, List, [], ◌∷◌, none, some, pos}
use libmq.Base.CString.{CString, codes}
use libmq.Base.Cells.{put}
use libmq.Engine.{send, recv, incoming, outgoing}
use libmq.Message
use libmq.Proton.{ProtonMq, ProtonMessage, ProtonWorld, Frame, MessageFrame}
use libmq.Proton.Connections
use libmq.Proton.Connections.{new_mq}
use libmq.Proton.Messages
use libmq.Proton.Impl.{handle}
use libmq.Proton.States.{
  Call, performs, Consistent, performs-Consistent, Connects, opening-Connects,
  connect_recv_unreported,
}
use libmq.Proton.Sending.{Handed, send-Handed, content_type-set_subject}
use libmq.Proton.Making
use libmq.Proton.Leaks.{Accounted, makes-Accounted}
use libmq.Proton.Settling.{accepted, accept-accepted, frame}
use libmq.Examples.Library.{Pn, empty, granting, refusing}
use libmq.Examples.Data.{roomy, process}

abbrev uri : CString
uri = codes "amqp://host/queue"

abbrev new_frame : Frame Pn
new_frame = record { libc = roomy; pn = empty; mq = new_mq granting uri }

new_frame-Consistent : Consistent (new_mq granting uri)
new_frame-Consistent = record { messenger = refl; sub = refl }

-- A receiver that is asked to send, and is disconnected.
abbrev calls : List Call
calls = Call.connects_recv ∷ Call.connects_send ∷ Call.delivers ∷ Call.disconnects ∷ []

performs-Consistent_example : Consistent (performs granting calls new_frame).mq
performs-Consistent_example = performs-Consistent granting calls new_frame new_frame-Consistent

opening-Connects_example :
    Connects granting recv (Connections.connect_recv granting new_frame)
    × Connects granting send (Connections.connect_send granting new_frame)
opening-Connects_example = opening-Connects granting new_frame new_frame-Consistent refl

abbrev refused_frame : Frame Pn
refused_frame = record { libc = roomy; pn = empty; mq = new_mq refusing uri }

connect_recv_unreported_example :
    let (r, f') = Connections.connect_recv refusing refused_frame in
    (r ≡ pos 1) × ((Connections.error refusing f').0 ≡ pos 0)
connect_recv_unreported_example =
    connect_recv_unreported refusing refused_frame {m = 1} refl refl refl refl

-- An incoming delivery, and an outgoing message without an address.
abbrev delivery : ProtonMessage
delivery = record {
  connection = 1;
  kind = incoming;
  msg = some 1;
  tracker = pos 5;
  body = some 1;
  bytes = some (codes "42");
  addressed = false;
}

abbrev receiver : ProtonMq
receiver = record (new_mq granting uri) { messenger = some 1 }

abbrev receiving : ProtonWorld Pn
receiving = process roomy [] (record {
  conns = put 1 (some receiver) (λ _. none);
  msgs = put 2 (some delivery) (λ _. none);
  fresh = 3;
  pn = empty;
})

accept-accepted_example :
    (w' : ProtonWorld Pn) × (Message.accept (handle granting 2) receiving ≡ some (pos 0, w'))
    × (w'.heap.pn ≡ accepted granting (some 1) 1 (pos 5) empty)
    × (w'.heap.msgs 2 ≡ none)
    × (w'.libc.blocks ≡ 4)
accept-accepted_example =
    accept-accepted granting receiving 2 {m = delivery} {q = receiver} {msg = 1} refl refl refl refl
      refl

abbrev unsent : MessageFrame Pn
unsent = frame granting receiving receiver (record delivery { kind = outgoing; body = none })

send-Handed_example : Handed granting unsent 1 (Messages.send granting unsent).1
unfolding Messages.send
send-Handed_example = send-Handed granting (λ m s p done. refl) unsent {m = 1} refl refl

content_type-set_subject_example :
    (Messages.content_type granting
      (Messages.set_subject granting (some (codes "news")) unsent).1).0
    ≡ some (codes "news")
unfolding Messages.set_subject
content_type-set_subject_example =
    content_type-set_subject granting (λ m s p done. refl) (some (codes "news")) unsent {m = 1} refl
      refl

makes-Accounted_example :
    Accounted granting receiving (Making.next granting 1 receiving)
    × Accounted granting receiving (Making.create granting 1 receiving)
makes-Accounted_example = makes-Accounted granting (λ c p. refl) 1 receiving {q = receiver} refl
