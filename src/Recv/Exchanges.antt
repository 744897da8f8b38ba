-- ===== src/Recv/Exchanges.antt =====
-- One round of mq-recv.c on a connection of the Proton engine.
use libmq.Base.{
  ℕ, suc, ◌≡◌, refl, ◌∙◌, false, ◌&&◌, not, inl, inr, Option, none, some, ◌==◌, if◌then◌else◌, ℤ,
  pos, Bool-cases,
}
use libmq.Base.CString.{CString}
use libmq.Libc.{after_alloc}
use libmq.Cmd.{pure, ◌>>=◌, >>=-some}
use libmq.Engine.{Ptr}
use libmq.Registry.Slots.{size_max}
use libmq.Connection
use libmq.Message
use libmq.Proton.{ProtonMessage, ProtonWorld, on_mq}
use libmq.Proton.Library.{Proton}
use libmq.Proton.Messages
use libmq.Proton.Making
use libmq.Proton.Impl.{handle}
use libmq.Proton.Receiving
use libmq.Proton.Receiving.{
  receiver, incoming_message, size, Arrives, Handover, settled, Fails, failed, told,
}
use libmq.Proton.Holding.{
  Holds, Yields, on_mq-Yields, on_message-Yields, make-Yields, release_message-Yields,
}
use libmq.Proton.Opening.{connection}
use libmq.Recv.{Report, write}
use libmq.Recv.Writing.{write_all}

module _ (lib : Proton) (m : ℕ) where
  open lib use {State}

  -- One message: what is printed of it, and the calls of the library, which end with its
  -- acceptance, two settlements and its release.
  pub record Exchange (p : State) (report : Report) (p' : State) : Type 0 where
    pub arrived : State
    pub msg : ℕ
    pub tracker : ℤ
    pub d : ℕ
    pub bytes : Option CString
    pub read : State
    pub arrives : Arrives lib m p arrived
    pub handover : Handover lib m arrived msg tracker d bytes read
    pub small : (size bytes == size_max) ≡ false
    pub printed : report ≡ record {
      type = lib.get_content_type msg read;
      len = size bytes;
      body = if size bytes == 0 then none else bytes;
    }
    pub after :
        p'
        ≡ lib.message_free msg
            (settled lib m tracker (settled lib m tracker (lib.accept (some m) tracker read)))

write_bytes :
    {W : Type 0} (bytes : Option CString) (w : W)
    → (size bytes == 0) ≡ false
    → write (size bytes) bytes w ≡ some (bytes, w)
write_bytes none w full = cc
write_bytes (some s) w full = write_all s w

module _ (lib : Proton) (self : Ptr) (uri : CString) (m s : ℕ) where
  open lib use {State}

  -- A process with a connection that is receiving.
  abbrev pub Listening : Ptr → Option ProtonMessage → State → ℕ → ProtonWorld State → Type 0
  Listening ptr message p n w = Holds lib self (some (receiver lib uri m s)) ptr message p n w

  abbrev Keeps :
      {A : Type 0}
      → Option (A × ProtonWorld State)
      → A
      → Ptr
      → Option ProtonMessage
      → State
      → ℕ
      → Type 0
  Keeps x a ptr message p n = Yields lib self x a (some (receiver lib uri m s)) ptr message p n

  pub next_lem :
      {ptr : Ptr} {message : Option ProtonMessage} {p p' q : State} {n : ℕ} {msg : ℕ} {tracker : ℤ}
      {d : ℕ} {bytes : Option CString} (w : ProtonWorld State)
      → Arrives lib m p p'
      → Handover lib m p' msg tracker d bytes q
      → Listening ptr message p n w
      → (new : Ptr) × Keeps
          (Connection.next (connection lib self) w)
          (some (handle lib new))
          new
          (some (incoming_message lib self msg tracker d bytes))
          q
          (suc n)
  unfolding Connection.next Making.next
  next_lem {p = p} {p'} w arrives handover h =
      let (w₁, e₁, h₁) =
        on_mq-Yields lib self w (Making.await lib)
          (Receiving.await-Arrives lib uri m s w.libc p arrives) h in
      let (new, (w₂, e₂, h₂)) =
        make-Yields lib self w₁ (Making.receive lib)
          (Receiving.receive_lem lib uri m s (after_alloc w₁.libc) p' self handover) h₁ in
      (
        new,
        (
          w₂,
          >>=-some ((connection lib self).impl.next self) _ (
              >>=-some (Making.next lib self) _
                (>>=-some (on_mq self (Making.await lib)) _ e₁ ∙ e₂)),
          h₂,
        ),
      )

  module _ (new msg : ℕ) (tracker : ℤ) (d : ℕ) (bytes : Option CString) {p : State} {n : ℕ}
      (w : ProtonWorld State)
      (h : Listening new (some (incoming_message lib self msg tracker d bytes)) p n w) where
    pub len_lem :
        Keeps
          (Message.len (handle lib new) w)
          (size bytes)
          new
          (some (incoming_message lib self msg tracker d bytes))
          p
          n
    unfolding Message.len
    len_lem =
        on_message-Yields lib self w (Messages.len lib) refl
          (Receiving.len_lem lib uri m s w.libc p self msg tracker d bytes) h

    pub content_type_lem :
        Keeps
          (Message.content_type (handle lib new) w)
          (lib.get_content_type msg p)
          new
          (some (incoming_message lib self msg tracker d bytes))
          p
          n
    unfolding Message.content_type
    content_type_lem =
        on_message-Yields lib self w (Messages.content_type lib) refl
          (Receiving.content_type_lem lib uri m s w.libc p self msg tracker d bytes) h

    -- The body is asked for only if the length is neither 0 nor `(size_t) -1`.
    pub printed_lem :
        (size bytes == size_max) ≡ false
        → Keeps
            ((if not (size bytes == 0) && not (size bytes == size_max)
                then (do start ← Message.body (handle lib new); write (size bytes) start)
                else pure none)
              w)
            (if size bytes == 0 then none else bytes)
            new
            (some (incoming_message lib self msg tracker d bytes))
            p
            n
    unfolding Message.body
    printed_lem small = elim (Bool-cases (size bytes == 0)) [
      | inl empty ↦ rw empty (w, refl, h)
      | inr full ↦
          let (w', e, h') =
            on_message-Yields lib self w (Messages.body lib) refl
              (Receiving.body_lem lib uri m s w.libc p self msg tracker d bytes) h in
          rw (full, small)
            (
              w',
              >>=-some (Message.body (handle lib new)) (write (size bytes)) e
                  ∙ write_bytes bytes w' full,
              h',
            )
    ]

  pub accept_lem :
      (new msg : ℕ) (tracker : ℤ) (d : ℕ) (bytes : Option CString) {p : State} {n : ℕ}
      (w : ProtonWorld State)
      → Listening new (some (incoming_message lib self msg tracker d bytes)) p (suc n) w
      → Keeps
          (Message.accept (handle lib new) w)
          (pos 0)
          new
          none
          (lib.message_free msg
            (settled lib m tracker (settled lib m tracker (lib.accept (some m) tracker p))))
          n
  unfolding Message.accept
  accept_lem new msg tracker d bytes {p} w h =
      let p₁ = settled lib m tracker (lib.accept (some m) tracker p) in
      let (w₁, e₁, h₁) =
        on_message-Yields lib self w (Messages.accept lib) refl
          (Receiving.accept_lem lib uri m s w.libc p self msg tracker d bytes) h in
      let (w₂, e₂, h₂) =
        release_message-Yields lib self w₁ refl
          (Receiving.let_go_lem lib uri m s w₁.libc p₁ self msg tracker d bytes) h₁ in
      (
        w₂,
        >>=-some ((handle lib new).impl.accept new) _ e₁ ∙ >>=-some (Messages.release lib new) _ e₂,
        h₂,
      )
