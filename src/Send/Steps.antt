-- ===== src/Send/Steps.antt =====
-- The calls of mq-send.c on a connection and a message of the Proton engine, over a library whose
-- calls succeed.
use libmq.Base.{ℕ, suc, ◌≡◌, refl, ◌∙◌, Option, none, some, ℤ, pos, minus_one, arith}
use libmq.Base.CString.{CString}
use libmq.Libc.{Libc, after_alloc, after_free}
use libmq.Cmd.{pure, >>=-some}
use libmq.Engine.{Ptr}
use libmq.Engine.Errors.{reset_error}
use libmq.Connection
use libmq.Message
use libmq.Proton.{ProtonMessage, ProtonWorld, Frame, update, on_mq}
use libmq.Proton.Library.{Proton}
use libmq.Proton.Connections
use libmq.Proton.Messages
use libmq.Proton.Making
use libmq.Proton.Making.{make, begin}
use libmq.Proton.Impl.{handle}
use libmq.Proton.Granting
use libmq.Proton.Granting.{Granting, sender, outgoing_message, on_connection}
use libmq.Proton.Holding.{
  Holds, Yields, bind-Yields, on_mq-Yields, on_message-Yields, make-Yields, release_message-Yields,
  release-Yields,
}
use libmq.Proton.Opening.{connection}
use libmq.Send.{optionally}

-- What setting a text of a message does, or not, if there is none.
abbrev pub typed : (lib : Proton) → (msg : ℕ) → Option CString → lib.State → lib.State
typed lib msg none p = p
typed lib msg (some s) p = (lib.set_content_type msg (some s) p).1

module _ (lib : Proton) (self : Ptr) (uri : CString) (m : ℕ) (g : Granting lib) where
  open lib use {State}

  -- A process with a connection that is sending.
  abbrev pub Sending : Ptr → Option ProtonMessage → State → ℕ → ProtonWorld State → Type 0
  Sending ptr message p n w = Holds lib self (some (sender lib uri m)) ptr message p n w

  -- A command that keeps it sending.
  abbrev pub Keeps :
      {A : Type 0}
      → Option (A × ProtonWorld State)
      → A
      → Ptr
      → Option ProtonMessage
      → State
      → ℕ
      → Type 0
  Keeps x a ptr message p n = Yields lib self x a (some (sender lib uri m)) ptr message p n

  module _ {ptr : Ptr} {message : Option ProtonMessage} {p : State} {n : ℕ} (w : ProtonWorld State)
      (h : Sending ptr message p n w) where
    pub error_lem : Keeps (Connection.error (connection lib self) w) (pos 0) ptr message p n
    unfolding Connection.error
    error_lem =
        on_mq-Yields lib self w (Connections.error lib) (Granting.error_lem lib g w.libc p uri m) h

    pub deliver_lem :
        Keeps
          (Connection.deliver (connection lib self) w)
          (pos 0)
          ptr
          message
          (lib.send (some m) minus_one p).1
          n
    unfolding Connection.deliver
    deliver_lem =
        on_mq-Yields lib self w (Connections.deliver lib)
          (Granting.deliver_lem lib g w.libc p uri m) h

    reset_lem :
        Keeps
          (on_mq self (λ (f : Frame State). (tt {0}, update reset_error f)) w)
          tt
          ptr
          message
          p
          n
    reset_lem = on_mq-Yields lib self w (λ f. (tt, update reset_error f)) refl h

  -- A message that mq_message_create has made.
  pub record Created (p : State) (n : ℕ) (w : ProtonWorld State) : Type 0 where
    pub new : Ptr
    pub msg : ℕ
    pub libc : Libc
    pub made : State
    pub message : lib.message libc p ≡ (some msg, libc, made)
    pub run :
        Keeps
          (Connection.message_create (connection lib self) w)
          (some (handle lib new))
          new
          (some (outgoing_message lib self msg none))
          made
          (suc n)

  module _ {ptr : Ptr} {message : Option ProtonMessage} {p : State} {n : ℕ} (w : ProtonWorld State)
      (h : Sending ptr message p n w) where
    pub message_create-Created : Created p n w
    unfolding Connection.message_create Making.create
    message_create-Created =
        let (w₁, e₁, h₁) = reset_lem w h in
        let libc = after_alloc w₁.libc in
        let (msg, made, fresh) = g.message libc p in
        let (new, (w₂, e₂, h₂)) =
          make-Yields lib self w₁ (begin lib) (Granting.begin_lem lib g libc p uri m self fresh)
            h₁ in
        record {
          new = new;
          msg = msg;
          libc = libc;
          made = made;
          message = fresh;
          run = (
            w₂,
            >>=-some ((connection lib self).impl.create self) _ (
                >>=-some (Making.create lib self) _
                  (>>=-some (on_mq self (λ f. (tt, update reset_error f))) _ e₁ ∙ e₂)),
            h₂,
          );
        }

  module _ (new msg : Ptr) {p : State} {n : ℕ} (w : ProtonWorld State) where
    module _ (h : Sending new (some (outgoing_message lib self msg none)) p n w) where
      pub subject_lem :
          (subj : Option CString)
          → (r : ℤ) × Keeps
              (optionally Message.set_subject (handle lib new) subj w)
              r
              new
              (some (outgoing_message lib self msg none))
              (typed lib msg subj p)
              n
      unfolding Message.set_subject
      subject_lem none = (pos 0, (w, refl, h))
      subject_lem (some s) = (
        (lib.set_content_type msg (some s) p).0,
        on_message-Yields lib self w (Messages.set_subject lib (some s)) refl
            (Granting.set_subject_lem lib g w.libc p uri m self msg (some s)) h,
      )

      pub type_lem :
          (type : Option CString)
          → (r : ℤ) × Keeps
              (optionally Message.set_type (handle lib new) type w)
              r
              new
              (some (outgoing_message lib self msg none))
              (typed lib msg type p)
              n
      unfolding Message.set_type
      type_lem none = (pos 0, (w, refl, h))
      type_lem (some s) = (
        (lib.set_content_type msg (some s) p).0,
        on_message-Yields lib self w (Messages.set_type lib (some s)) refl
            (Granting.set_type_lem lib g w.libc p uri m self msg (some s)) h,
      )

      pub add_bytes_lem :
          (s : CString) {d : ℕ}
          → lib.body msg p ≡ some d
          → Keeps
              (Message.add_bytes (handle lib new) s w)
              (pos 0)
              new
              (some (outgoing_message lib self msg (some d)))
              (lib.put_binary d s p).1
              n
      unfolding Message.add_bytes
      add_bytes_lem s {d} found =
          on_message-Yields lib self w (Messages.add_bytes lib s) refl
            (Granting.add_bytes_lem lib g w.libc p uri m self msg s found) h

  module _ (new msg d : Ptr) {p : State} {n : ℕ} (w : ProtonWorld State) where
    pub send_lem :
        Sending new (some (outgoing_message lib self msg (some d))) p n w
        → Keeps
            (Message.send (handle lib new) w)
            (pos 0)
            new
            (some (outgoing_message lib self msg (some d)))
            (lib.put (some m) msg (lib.set_address msg (some uri) p).1).1
            n
    unfolding Message.send
    send_lem h =
        on_message-Yields lib self w (Messages.send lib) refl
          (Granting.send_lem lib g w.libc p uri m self msg d) h

    pub free_lem :
        Sending new (some (outgoing_message lib self msg (some d))) p (suc n) w
        → Keeps (Message.free (handle lib new) w) (pos 0) new none (lib.message_free msg p) n
    unfolding Message.free
    free_lem h =
        bind-Yields lib self (Messages.release lib new) (λ _. pure (pos 0)) w
          (release_message-Yields lib self w refl
            (Granting.let_go_lem lib g w.libc p uri m self msg d) h)
          (λ w₁ h₁. (w₁, refl, h₁))

    pub disconnect_lem :
        Sending new none p (suc (suc n)) w
        → Yields lib self
            (Connection.disconnect (connection lib self) w)
            (pos 0)
            none
            new
            none
            (lib.free (some m) (lib.stop (some m) p))
            n
    unfolding Connection.disconnect
    disconnect_lem h =
        bind-Yields lib self (Connections.release lib self) (λ _. pure (pos 0)) w
          (release-Yields lib self w refl h) (λ w₁ h₁. (w₁, refl, h₁))

    -- `free(buffer)`
    pub free_buffer_lem :
        Sending new none p (suc n) w → Sending new none p n (record w { libc = after_free w.libc })
    unfolding after_free
    free_buffer_lem h = record {
      conn = h.conn;
      message = h.message;
      pn = h.pn;
      blocks = omega (arith, h.blocks);
      room = h.room;
      unlocked = h.unlocked;
    }
