-- ===== src/Proton/Granting.antt =====
-- The engine of queues/qpid-proton.c over a library whose calls succeed: what each function that a
-- sender calls does on its connection and its message.
use libmq.Base.{ℕ, ◌≡◌, Option, none, some, ℤ, pos, minus_one, arith}
use libmq.Base.CString.{CString}
use libmq.Libc.{Libc}
use libmq.Engine.{Ptr, send}
use libmq.Proton.{ProtonMq, ProtonMessage, Frame, MessageFrame}
use libmq.Proton.Library.{Proton}
use libmq.Proton.Connections
use libmq.Proton.Connections.{new_mq}
use libmq.Proton.Messages
use libmq.Proton.Messages.{let_go}
use libmq.Proton.Making
use libmq.Proton.Making.{blank}

module _ (lib : Proton) where
  open lib use {State}

  -- The calls of a sender succeed, and leave the allocator and `errno` alone.
  pub record Granting : Type 0 where
    pub messenger :
        (c : Libc) (p : State) → (m : ℕ) × (p' : State) × (lib.messenger c p ≡ (some m, c, p'))
    pub message :
        (c : Libc) (p : State) → (msg : ℕ) × (p' : State) × (lib.message c p ≡ (some msg, c, p'))
    pub errno : (m : ℕ) (p : State) → lib.errno (some m) p ≡ pos 0
    pub body : (msg : ℕ) (p : State) → (d : ℕ) × (lib.body msg p ≡ some d)
    pub put_binary : (d : ℕ) (s : CString) (p : State) → (lib.put_binary d s p).0 ≡ pos 0
    pub set_address :
        (msg : ℕ) (s : Option CString) (p : State) → (lib.set_address msg s p).0 ≡ pos 0
    pub put : (m msg : ℕ) (p : State) → (lib.put (some m) msg p).0 ≡ pos 0
    pub send : (m : ℕ) (n : ℤ) (p : State) → (lib.send (some m) n p).0 ≡ pos 0

  -- A connection that is sending, and an outgoing message on it.
  abbrev pub sender : CString → ℕ → ProtonMq
  sender uri m =
      let q = new_mq lib uri in
      record q { members = record (q.members) { state = send }; messenger = some m }

  abbrev pub outgoing_message : Ptr → ℕ → (body : Option ℕ) → ProtonMessage
  outgoing_message self msg body = record (blank lib self) { msg = some msg; body = body }

  abbrev pub on_connection : Libc → State → ProtonMq → Frame State
  on_connection c p q = record { libc = c; pn = p; mq = q }

  abbrev pub on_both : Libc → State → ProtonMq → ProtonMessage → MessageFrame State
  on_both c p q m = record { frame = on_connection c p q; message = m }

  module _ (g : Granting) (c : Libc) (p : State) (uri : CString) where
    pub connect_send_lem :
        {m : ℕ} {p' : State}
        → lib.messenger c p ≡ (some m, c, p')
        → Connections.connect_send lib (on_connection c p (new_mq lib uri)) ≡ (
          pos 0,
          on_connection c
              (lib.set_outgoing_window (some m) (pos 1) (lib.start (some m) p'))
              (sender uri m),
        )
    unfolding Connections.connect_send
    connect_send_lem {m} {p'} opened = ground (arith, opened, g.errno m (lib.start (some m) p'))

    module _ (m : ℕ) where
      pub error_lem :
          Connections.error lib (on_connection c p (sender uri m))
          ≡ (pos 0, on_connection c p (sender uri m))
      unfolding Connections.error
      error_lem = ground arith

      pub deliver_lem :
          Connections.deliver lib (on_connection c p (sender uri m))
          ≡ (pos 0, on_connection c (lib.send (some m) minus_one p).1 (sender uri m))
      unfolding Connections.deliver
      deliver_lem = ground (arith, g.send m minus_one p)

      module _ (self : Ptr) where
        pub begin_lem :
            {msg : ℕ} {p' : State}
            → lib.message c p ≡ (some msg, c, p')
            → Making.begin lib (on_both c p (sender uri m) (blank lib self))
              ≡ (pos 0, on_both c p' (sender uri m) (outgoing_message self msg none))
        unfolding Making.begin
        begin_lem {msg} {p'} made = ground (arith, made)

        module _ (msg : ℕ) where
          abbrev pub on_new : State → (body : Option ℕ) → MessageFrame State
          on_new p body = on_both c p (sender uri m) (outgoing_message self msg body)

          pub set_type_lem :
              (s : Option CString)
              → Messages.set_type lib s (on_new p none)
                ≡ (let (r, p') = lib.set_content_type msg s p in (r, on_new p' none))
          unfolding Messages.set_type
          set_type_lem s = ground arith

          pub set_subject_lem :
              (s : Option CString)
              → Messages.set_subject lib s (on_new p none)
                ≡ (let (r, p') = lib.set_content_type msg s p in (r, on_new p' none))
          unfolding Messages.set_subject
          set_subject_lem s = ground arith

          pub add_bytes_lem :
              (s : CString) {d : ℕ}
              → lib.body msg p ≡ some d
              → Messages.add_bytes lib s (on_new p none)
                ≡ (pos 0, on_new (lib.put_binary d s p).1 (some d))
          unfolding Messages.add_bytes
          add_bytes_lem s {d} found = ground (arith, found, g.put_binary d s p)

          pub send_lem :
              (d : ℕ)
              → Messages.send lib (on_new p (some d)) ≡ (
                pos 0,
                on_new (lib.put (some m) msg (lib.set_address msg (some uri) p).1).1 (some d),
              )
          unfolding Messages.send
          send_lem d =
              let p' = (lib.set_address msg (some uri) p).1 in
              ground (arith, g.set_address msg (some uri) p, g.put m msg p')

          pub let_go_lem :
              (d : ℕ)
              → let_go lib (on_new p (some d)) ≡ (0, on_new (lib.message_free msg p) (some d))
          unfolding let_go
          let_go_lem d = ground arith
