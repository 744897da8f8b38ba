-- ===== src/Proton/Making.antt =====
-- The functions of queues/qpid-proton.c that make a message: `mq_proton_next_`,
-- `mq_proton_create_` and what they call.
use libmq.Base.{
  ℕ, suc, Bool, true, false, Option, none, some, ◌==◌, not, nonzero, if◌then◌else◌, ℤ, pos,
  minus_one,
}
use libmq.Base.Cells.{put}
use libmq.Libc.{exhausted, after_alloc}
use libmq.Cmd.{Cmd, pure, ◌>>=◌, ◌>>◌}
use libmq.Engine.{Ptr, outgoing, incoming}
use libmq.Engine.Errors.{reset_error, set_error, set_from_errno}
use libmq.Proton.{ProtonMessage, ProtonWorld, Frame, MessageFrame, update, on_mq, on_message}
use libmq.Proton.Library.{Proton}
use libmq.Proton.Messages.{with_pn, messenger_error, free_message}

module _ (lib : Proton) where
  open lib use {State}

  -- What `calloc` leaves of a message, with the connection filled in.
  abbrev pub blank : Ptr → ProtonMessage
  blank connection = record {
    connection = connection;
    kind = outgoing;
    msg = none;
    tracker = pos 0;
    body = none;
    bytes = none;
    addressed = false;
  }

  -- `mq_proton_message_construct_`
  unfoldable pub construct : Ptr → Cmd (ProtonWorld State) (Option Ptr)
  construct connection w =
      if exhausted w.libc
      then on_mq connection (λ f. (none, update (set_from_errno f.libc) f))
          (record w { libc = after_alloc w.libc })
      else some (
        some w.heap.fresh,
        record w {
          libc = after_alloc w.libc;
          heap = record (w.heap) {
            msgs = put w.heap.fresh (some (blank connection)) w.heap.msgs;
            fresh = suc w.heap.fresh;
          };
        },
      )

  -- The wait of `mq_proton_next_` for a message: whether there is one.
  unfoldable pub await : Frame State → Bool × Frame State
  await f =
      let f₁ = update reset_error f in
      let f₂ = record f₁ { pn = lib.recv f₁.mq.messenger minus_one f₁.pn } in
      let e = lib.errno f₂.mq.messenger f₂.pn in
      if not (lib.incoming f₁.mq.messenger f₁.pn == 0)
      then (true, f₁)
      else if nonzero e
      then (false, update (set_error e) f₂)
      else if lib.incoming f₂.mq.messenger f₂.pn == 0
      then (false, update (set_error (lib.errno f₂.mq.messenger f₂.pn)) f₂)
      else (true, f₂)

  -- `p->msg = pn_message();`
  abbrev make_msg : MessageFrame State → MessageFrame State
  make_msg f =
      let (m, libc, pn) = lib.message f.frame.libc f.frame.pn in
      record f {
        frame = record (f.frame) { libc = libc; pn = pn };
        message = record (f.message) { msg = m };
      }

  -- The body of a message that has been received.
  abbrev read_body : ℕ → MessageFrame State → MessageFrame State
  read_body m f =
      let tracker = lib.incoming_tracker f.frame.mq.messenger f.frame.pn in
      elim (lib.body m f.frame.pn) [
        | none ↦ record f { message = record (f.message) { tracker = tracker; body = none } }
        | some d ↦
            let pn = lib.data_next d f.frame.pn in
            record (with_pn pn f) {
              message = record (f.message) {
                tracker = tracker;
                body = some d;
                bytes = lib.get_binary d pn;
              };
            }
      ]

  -- The rest of `mq_proton_next_` on the new message; on an error the object is freed.
  unfoldable pub receive : MessageFrame State → ℤ × MessageFrame State
  receive f =
      let f₁ = make_msg (record f { message = record (f.message) { kind = incoming } }) in
      elim f₁.message.msg [
        | none ↦ (minus_one, record f₁ { frame = update (set_from_errno f₁.frame.libc) f₁.frame })
        | some m ↦
            let f₂ = with_pn (lib.get f₁.frame.mq.messenger m f₁.frame.pn) f₁ in
            let e = lib.errno f₂.frame.mq.messenger f₂.frame.pn in
            let f₃ = with_pn (lib.message_free m f₂.frame.pn) f₂ in
            if nonzero e
            then (pos 1, record f₃ { frame = update (set_error e) f₃.frame })
            else (pos 0, read_body m f₂)
      ]

  -- The rest of `mq_proton_create_` on the new message.
  unfoldable pub begin : MessageFrame State → ℤ × MessageFrame State
  begin f =
      let f₁ = make_msg (record f { message = record (f.message) { kind = outgoing } }) in
      elim f₁.message.msg [ none ↦ messenger_error lib f₁ | some _ ↦ (pos 0, f₁) ]

  -- `*msg = p` if `method` succeeds on the new message, and `free(p)` if it does not.
  abbrev pub deliver_new :
      (MessageFrame State → ℤ × MessageFrame State) → Ptr → Cmd (ProtonWorld State) (ℤ × Option Ptr)
  deliver_new method p = do
    r ← on_message p method
    λ w. if nonzero r then some ((r, none), free_message lib p w) else some ((r, some p), w)

  abbrev pub make :
      (MessageFrame State → ℤ × MessageFrame State) → Ptr → Cmd (ProtonWorld State) (ℤ × Option Ptr)
  make method self = do
    made ← construct self
    elim made [ none ↦ pure (minus_one, none) | some p ↦ deliver_new method p ]

  -- `mq_proton_next_`
  unfoldable pub next : Ptr → Cmd (ProtonWorld State) (ℤ × Option Ptr)
  next self = do
    ready ← on_mq self await
    if ready then make receive self else pure (minus_one, none)

  -- `mq_proton_create_`
  unfoldable pub create : Ptr → Cmd (ProtonWorld State) (ℤ × Option Ptr)
  create self = do on_mq self (λ f. (tt, update reset_error f)); make begin self
