-- ===== src/Proton/Receiving.antt =====
-- The engine of queues/qpid-proton.c on the side of a receiver: which calls of the library one
-- message takes, and what each function does on its connection and its message.
use libmq.Base.{
  ℕ, ◌≡◌, ◌⊎◌, inl, inr, true, false, [], Option, none, some, ◌==◌, nonzero, if◌then◌else◌, ℤ, pos,
  minus_one, length, arith,
}
use libmq.Base.CString.{CString, codes}
use libmq.Libc.{Libc, exhausted, after_alloc}
use libmq.Engine.{Ptr, recv, incoming}
use libmq.Engine.Errors.{set_error}
use libmq.Proton.{ProtonMq, ProtonMessage, MessageFrame}
use libmq.Proton.Library.{Proton}
use libmq.Proton.Connections
use libmq.Proton.Connections.{errbuf_len, new_mq, subscribe}
use libmq.Proton.Messages
use libmq.Proton.Messages.{let_go}
use libmq.Proton.Making
use libmq.Proton.Making.{blank}
use libmq.Proton.Granting.{on_connection, on_both}

-- The length of the bytes of a body; NULL has none.
abbrev pub size : Option CString → ℕ
size none = 0
size (some s) = length s

module _ (lib : Proton) where
  open lib use {State}

  -- A connection that is receiving, and a received message on it.
  abbrev pub receiver : CString → (m s : ℕ) → ProtonMq
  receiver uri m s =
      let q = new_mq lib uri in
      record q { members = record (q.members) { state = recv }; messenger = some m; sub = some s }

  abbrev pub incoming_message :
      Ptr → (msg : ℕ) → (tracker : ℤ) → (d : ℕ) → (bytes : Option CString) → ProtonMessage
  incoming_message self msg tracker d bytes = record (blank lib self) {
    kind = incoming;
    msg = some msg;
    tracker = tracker;
    body = some d;
    bytes = bytes;
  }

  -- The connection once an error of the library is set, and once its text was asked for.
  abbrev pub failed : ℤ → ProtonMq → ProtonMq
  failed e q = record q { members = set_error e q.members }

  abbrev pub told : ProtonMq → ProtonMq
  told q = record q {
    members = record (q.members) { errmsg = some (record { size = errbuf_len; text = [] }) };
  }

  -- The library subscribes to the URI.
  pub record Subscribes (uri : CString) (m s : ℕ) (p p' : State) : Type 0 where
    pub started : State
    pub subscribed : State
    pub messenger : (c : Libc) → lib.messenger c p ≡ (some m, c, started)
    pub start : lib.errno (some m) (lib.start (some m) started) ≡ pos 0
    pub subscribe : lib.subscribe (some m) uri (lib.start (some m) started) ≡ (some s, subscribed)
    pub sound : lib.errno (some m) subscribed ≡ pos 0
    pub window : p' ≡ lib.set_incoming_window (some m) (pos 1) subscribed

  -- A message is at hand, or comes while the library waits for one.
  abbrev pub Arrives : (m : ℕ) → (p p' : State) → Type 0
  Arrives m p p' =
      let p₁ = lib.recv (some m) minus_one p in
      ((lib.incoming (some m) p == 0) ≡ false) × (p' ≡ p)
      ⊎ ((lib.incoming (some m) p == 0) ≡ true)
        × (lib.errno (some m) p₁ ≡ pos 0)
        × ((lib.incoming (some m) p₁ == 0) ≡ false)
        × (p' ≡ p₁)

  -- No message comes: the library reports an error, or has none after the wait.
  abbrev pub Fails : (m : ℕ) → (e : ℤ) → State → Type 0
  Fails m e p =
      let p₁ = lib.recv (some m) minus_one p in
      ((lib.incoming (some m) p == 0) ≡ true)
      × (lib.errno (some m) p₁ ≡ e)
      × ((nonzero e ≡ true) ⊎ ((lib.incoming (some m) p₁ == 0) ≡ true))

  -- A tracker of 0 is not settled.
  abbrev pub settled : (m : ℕ) → ℤ → State → State
  settled m tracker p = if nonzero tracker then lib.settle (some m) tracker p else p

  -- A message that the library hands over, with its body read.
  pub record Handover (m : ℕ) (p : State) (msg : ℕ) (tracker : ℤ) (d : ℕ) (bytes : Option CString)
      (p' : State) : Type 0 where
    pub made : State
    pub message : (c : Libc) → lib.message c p ≡ (some msg, c, made)
    pub sound : lib.errno (some m) (lib.get (some m) msg made) ≡ pos 0
    pub tracked : lib.incoming_tracker (some m) (lib.get (some m) msg made) ≡ tracker
    pub body : lib.body msg (lib.get (some m) msg made) ≡ some d
    pub binary : lib.get_binary d (lib.data_next d (lib.get (some m) msg made)) ≡ bytes
    pub read : lib.data_next d (lib.get (some m) msg made) ≡ p'

  module _ (uri : CString) (m s : ℕ) (c : Libc) (p : State) where
    pub connect_recv_lem :
        {p' : State}
        → Subscribes uri m s p p'
        → Connections.connect_recv lib (on_connection lib c p (new_mq lib uri))
          ≡ (pos 0, on_connection lib c p' (receiver uri m s))
    unfolding Connections.connect_recv subscribe
    connect_recv_lem t = ground (arith, t.messenger c, t.start, t.subscribe, t.sound, t.window)

    pub error_lem :
        Connections.error lib (on_connection lib c p (receiver uri m s))
        ≡ (pos 0, on_connection lib c p (receiver uri m s))
    unfolding Connections.error
    error_lem = ground arith

    pub await-Arrives :
        {p' : State}
        → Arrives m p p'
        → Making.await lib (on_connection lib c p (receiver uri m s))
          ≡ (true, on_connection lib c p' (receiver uri m s))
    unfolding Making.await
    await-Arrives (inl (there, same)) = ground arith
    await-Arrives (inr (empty, sound, there, after)) = ground arith

    pub await-Fails :
        {e : ℤ}
        → Fails m e p
        → Making.await lib (on_connection lib c p (receiver uri m s)) ≡ (
          false,
          on_connection lib c (lib.recv (some m) minus_one p) (failed e (receiver uri m s)),
        )
    unfolding Making.await
    await-Fails (empty, code, inl bad) = ground arith
    await-Fails (empty, code, inr none_left) = ground arith

    pub receive_lem :
        (self : Ptr) {msg : ℕ} {tracker : ℤ} {d : ℕ} {bytes : Option CString} {p' : State}
        → Handover m p msg tracker d bytes p'
        → Making.receive lib (on_both lib c p (receiver uri m s) (blank lib self))
          ≡ (pos 0, on_both lib c p' (receiver uri m s) (incoming_message self msg tracker d bytes))
    unfolding Making.receive
    receive_lem self h = ground (arith, h.message c, h.sound, h.tracked, h.body, h.binary, h.read)

    module _ (self : Ptr) (msg : ℕ) (tracker : ℤ) (d : ℕ) (bytes : Option CString) where
      abbrev pub on_incoming : State → MessageFrame State
      on_incoming p = on_both lib c p (receiver uri m s) (incoming_message self msg tracker d bytes)

      pub len_lem : Messages.len lib (on_incoming p) ≡ (size bytes, on_incoming p)
      unfolding Messages.len
      len_lem = ground arith

      pub body_lem : Messages.body lib (on_incoming p) ≡ (bytes, on_incoming p)
      unfolding Messages.body
      body_lem = ground arith

      pub content_type_lem :
          Messages.content_type lib (on_incoming p) ≡ (lib.get_content_type msg p, on_incoming p)
      unfolding Messages.content_type
      content_type_lem = ground arith

      pub accept_lem :
          Messages.accept lib (on_incoming p)
          ≡ (pos 0, on_incoming (settled m tracker (lib.accept (some m) tracker p)))
      unfolding Messages.accept
      accept_lem = ground arith

      pub let_go_lem :
          let_go lib (on_incoming p) ≡ (0, on_incoming (lib.message_free msg (settled m tracker p)))
      unfolding let_go
      let_go_lem = ground arith

    -- The text of mq_errmsg on a connection that has failed; the buffer is made.
    pub errmsg_lem :
        (e : ℤ)
        → exhausted c ≡ false
        → Connections.errmsg lib (on_connection lib c p (failed e (receiver uri m s))) ≡ (
          if nonzero e then lib.error_text (some m) p else codes "Success",
          on_connection lib (after_alloc c) p (told (failed e (receiver uri m s))),
        )
    unfolding Connections.errmsg Connections.describe
    errmsg_lem e room = ground arith
