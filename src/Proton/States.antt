-- ===== src/Proton/States.antt =====
-- The states of a connection of queues/qpid-proton.c: it has a messenger exactly while it is
-- connected, whatever the library answers.
use libmq.Base.{
  ℕ, ◌≡◌, ◌⊎◌, List, [], ◌∷◌, Bool, true, false, not, Option, none, some, ℤ, pos, nonzero, arith,
}
use libmq.Base.CString.{CString}
use libmq.Libc.{Libc, einval}
use libmq.Engine.{MqState, disconnected, send, recv}
use libmq.Engine.Errors.{reset_error}
use libmq.Proton.{ProtonMq, Frame, update, fail}
use libmq.Proton.Library.{Proton}
use libmq.Proton.Connections
use libmq.Proton.Connections.{is_disconnected, new_mq}

abbrev pub is_none : Option ℕ → Bool
is_none none = true
is_none (some _) = false

abbrev pub is_receiving : MqState → Bool
is_receiving recv = true
is_receiving _ = false

pub record Consistent (q : ProtonMq) : Type 0 where
  pub messenger : is_none q.messenger ≡ is_disconnected q.state
  pub sub : is_none q.sub ≡ not (is_receiving q.state)

-- The functions on a connection that return an `int`.
pub data Call : Type 0 where
  connects_recv connects_send disconnects delivers : Call
  sets_cluster : Option ℕ → Call
  sets_partition : Option CString → Call

module _ (lib : Proton) where
  open lib use {State}

  unfoldable pub perform : Call → Frame State → ℤ × Frame State
  perform connects_recv f = Connections.connect_recv lib f
  perform connects_send f = Connections.connect_send lib f
  perform disconnects f = Connections.disconnect lib f
  perform delivers f = Connections.deliver lib f
  perform (sets_cluster c) f = Connections.set_cluster lib c f
  perform (sets_partition p) f = Connections.set_partition lib p f

  unfoldable pub performs : List Call → Frame State → Frame State
  performs [] f = f
  performs (c ∷ cs) f = performs cs (perform c f).1

  perform-Consistent :
      (c : Call) (f : Frame State) → Consistent f.mq → Consistent (perform c f).1.mq
  unfolding perform Connections.connect_recv Connections.connect_send Connections.disconnect
      Connections.deliver Connections.set_cluster Connections.set_partition
      Connections.disconnect_internal Connections.subscribe
  perform-Consistent connects_recv f v = ground arith
  perform-Consistent c f v = ground arith

  -- Whatever the Proton library answers, any list of calls of connect_recv, connect_send,
  -- disconnect, deliver, set_cluster and set_partition on a connection keeps it consistent: it has
  -- no messenger exactly when it is disconnected, and a subscription exactly when it is receiving.
  pub performs-Consistent :
      (cs : List Call) (f : Frame State) → Consistent f.mq → Consistent (performs cs f).mq
  unfolding performs
  performs-Consistent [] f v = v
  performs-Consistent (c ∷ cs) f v =
      performs-Consistent cs (perform c f).1 (perform-Consistent c f v)

  -- What an attempt to connect from the disconnected state leaves.
  abbrev pub Connects : MqState → ℤ × Frame State → Type 0
  Connects target (r, f) =
      (r ≡ pos 0) × (f.mq.state ≡ target) × (is_none f.mq.messenger ≡ false)
      ⊎ (nonzero r ≡ true)
        × (f.mq.state ≡ disconnected)
        × (f.mq.messenger ≡ none)
        × (is_none f.mq.sub ≡ true)

  module _ (f : Frame State) (v : Consistent f.mq) (down : f.mq.state ≡ disconnected) where
    -- Whatever the Proton library answers, connect_recv on a consistent and disconnected connection
    -- either returns 0 and leaves it in the state MQS_RECV with a messenger, or returns another
    -- number and leaves it disconnected with neither messenger nor subscription.
    connect_recv-Connects : Connects recv (Connections.connect_recv lib f)
    unfolding Connections.connect_recv Connections.disconnect_internal Connections.subscribe
    connect_recv-Connects = ground arith

    -- Whatever the Proton library answers, connect_send on a consistent and disconnected connection
    -- either returns 0 and leaves it in the state MQS_SEND with a messenger, or returns another
    -- number and leaves it disconnected with neither messenger nor subscription.
    connect_send-Connects : Connects send (Connections.connect_send lib f)
    unfolding Connections.connect_send Connections.disconnect_internal
    connect_send-Connects = ground arith

    -- Whatever the Proton library answers, connect_recv and connect_send on a consistent and
    -- disconnected connection either return 0 and leave it in the state MQS_RECV or MQS_SEND with a
    -- messenger, or return another number and leave it disconnected with neither messenger nor
    -- subscription.
    pub opening-Connects :
        Connects recv (Connections.connect_recv lib f)
        × Connects send (Connections.connect_send lib f)
    opening-Connects = (connect_recv-Connects, connect_send-Connects)

  -- A connection that is in use cannot be connected again, and nothing but its error changes.
  pub connect_busy :
      (f : Frame State)
      → is_disconnected f.mq.state ≡ false
      → (Connections.connect_recv lib f ≡ fail einval (update reset_error f))
        × (Connections.connect_send lib f ≡ fail einval (update reset_error f))
  unfolding Connections.connect_recv Connections.connect_send
  connect_busy f up = ground arith

  subscribe_unreported :
      (f : Frame State) {p' : State}
      → lib.subscribe f.mq.messenger f.mq.uri f.pn ≡ (none, p')
      → let (r, f') = Connections.subscribe lib (pos 0) f in
        (r ≡ pos 1) × ((Connections.error lib f').0 ≡ pos 0)
  unfolding Connections.error Connections.subscribe
  subscribe_unreported f nothing = ground arith

  -- If pn_messenger makes a messenger, its error number is 0 once it is started, and
  -- pn_messenger_subscribe returns NULL, then connect_recv on a disconnected connection returns 1
  -- and yet the connection reports no error.
  pub connect_recv_unreported :
      (f : Frame State) {m : ℕ} {c : Libc} {p p' : State}
      → f.mq.state ≡ disconnected
      → lib.messenger f.libc f.pn ≡ (some m, c, p)
      → lib.errno (some m) (lib.start (some m) p) ≡ pos 0
      → lib.subscribe (some m) f.mq.uri (lib.start (some m) p) ≡ (none, p')
      → let (r, f') = Connections.connect_recv lib f in
        (r ≡ pos 1) × ((Connections.error lib f').0 ≡ pos 0)
  unfolding Connections.connect_recv
  connect_recv_unreported f down made fine nothing =
      simp (down, made, fine) (subscribe_unreported _ nothing)
