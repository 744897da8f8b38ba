-- ===== src/Random/Errors.antt =====
-- How the functions of queues/random.c report errors, and which states a connection can be in.
use libmq.Base.{◌≡◌, List, [], ◌∷◌, false, Option, ℤ, minus_one, arith}
use libmq.Base.CString.{CString}
use libmq.Libc.{einval}
use libmq.Engine.{disconnected}
use libmq.Random.{RandomMessage, Frame}
use libmq.Random.Connections
use libmq.Random.Connections.{is_sending}
use libmq.Random.Messages

-- The functions that return an `int` and work on one connection, those on a message included.
pub data Call : Type 0 where
  connects_recv connects_send disconnects delivers creates : Call
  accepts rejects passes sends : RandomMessage → Call
  sets_type sets_subject sets_address : RandomMessage → Option CString → Call
  adds_bytes : RandomMessage → CString → Call

unfoldable pub perform : Call → Frame → ℤ × Frame
perform connects_recv f = Connections.connect_recv f
perform connects_send f = Connections.connect_send f
perform disconnects f = Connections.disconnect f
perform delivers f = Connections.deliver f
perform creates f = Connections.create f
perform (accepts m) f = Messages.accept m f
perform (rejects m) f = Messages.reject m f
perform (passes m) f = Messages.pass m f
perform (sends m) f = Messages.send m f
perform (sets_type m t) f = Messages.set_type t m f
perform (sets_subject m t) f = Messages.set_subject t m f
perform (sets_address m t) f = Messages.set_address t m f
perform (adds_bytes m t) f = Messages.add_bytes t m f

unfoldable pub performs : List Call → Frame → Frame
performs [] f = f
performs (c ∷ cs) f = performs cs (perform c f).1

not_sending :
    (c : Call) (f : Frame)
    → is_sending f.mq.state ≡ false
    → is_sending (perform c f).1.mq.state ≡ false
unfolding perform Connections.connect_recv Connections.connect_send Connections.disconnect
    Connections.deliver Connections.create Messages.accept Messages.reject Messages.pass
    Messages.send Messages.set_type Messages.set_subject Messages.set_address Messages.add_bytes
not_sending connects_recv f h = ground arith
not_sending c f h = ground arith

performs-not_sending :
    (cs : List Call) (f : Frame)
    → is_sending f.mq.state ≡ false
    → is_sending (performs cs f).mq.state ≡ false
unfolding performs
performs-not_sending [] f h = h
performs-not_sending (c ∷ cs) f h = performs-not_sending cs (perform c f).1 (not_sending c f h)

-- After any list of calls that connect, disconnect, deliver or create, or that settle, send or
-- change a message, on a disconnected connection of the random engine, deliver returns -1 with
-- EINVAL as the connection's error and in errno: no such connection ever gets into the state
-- MQS_SEND.
pub deliver-performs :
    (cs : List Call) (f : Frame)
    → f.mq.state ≡ disconnected
    → let g = (Connections.deliver (performs cs f)) in
      (g.0 ≡ minus_one) × (g.1.mq.syserr ≡ einval) × (g.1.libc.errno ≡ einval)
unfolding Connections.deliver
deliver-performs cs f h = ground (arith, performs-not_sending cs f (rw h))
