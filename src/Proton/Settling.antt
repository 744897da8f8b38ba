-- ===== src/Proton/Settling.antt =====
-- Incoming messages of queues/qpid-proton.c: which calls of the library settle a delivery, and
-- what a failure to receive leaves.
use libmq.Base.{ℕ, ◌-◌, ◌≡◌, refl, ◌∙◌, ap, true, Option, none, some, ℤ, pos, nonzero, arith}
use libmq.Base.Cells.{get_put}
use libmq.Libc.{after_free}
use libmq.Cmd.{>>=-some}
use libmq.Engine.{Ptr, incoming}
use libmq.Engine.Errors.{reset_error}
use libmq.Message
use libmq.Proton.{
  ProtonMq, ProtonMessage, ProtonWorld, MessageFrame, update, write_message, on_message,
}
use libmq.Proton.Library.{Proton}
use libmq.Proton.Messages
use libmq.Proton.Messages.{reset, free_message, let_go}
use libmq.Proton.Impl.{handle}

module _ (lib : Proton) where
  open lib use {State}

  abbrev pub frame : ProtonWorld State → ProtonMq → ProtonMessage → MessageFrame State
  frame w q m = record { frame = record { libc = w.libc; pn = w.heap.pn; mq = q }; message = m }

  pub on_message_lem :
      {A : Type 0} (w : ProtonWorld State) (p : Ptr) {m : ProtonMessage} {q : ProtonMq}
      (method : MessageFrame State → A × MessageFrame State)
      → w.heap.msgs p ≡ some m
      → w.heap.conns m.connection ≡ some q
      → on_message p method w
        ≡ (let (a, f) = method (frame w q m) in some (a, write_message p m.connection f w))
  unfolding on_message
  on_message_lem w p method live owner = ground arith

  release_lem :
      (w : ProtonWorld State) (p : Ptr) {m : ProtonMessage} {q : ProtonMq}
      → w.heap.msgs p ≡ some m
      → w.heap.conns m.connection ≡ some q
      → Messages.release lib p w
        ≡ some (0, free_message lib p (write_message p m.connection (let_go lib (frame w q m)).1 w))
  unfolding Messages.release let_go
  release_lem w p live owner =
      >>=-some (on_message p (let_go lib)) _ (on_message_lem w p (let_go lib) live owner)

  -- The calls of the library that `mq_message_accept` makes for a delivery.
  abbrev pub accepted : Option ℕ → ℕ → ℤ → State → State
  accepted messenger msg tracker p =
      lib.message_free msg (
        lib.settle messenger tracker
          (lib.settle messenger tracker (lib.accept messenger tracker p)))

  -- A frame with the error reset and another state of the library.
  abbrev behind : State → MessageFrame State → MessageFrame State
  behind pn f = record f { frame = record (update reset_error f.frame) { pn = pn } }

  module _ (f : MessageFrame State) {msg : ℕ} (received : f.message.msg ≡ some msg)
      (tracked : nonzero f.message.tracker ≡ true) where
    accept_lem :
        f.message.kind ≡ incoming
        → Messages.accept lib f ≡ (
          pos 0,
          behind
              (lib.settle f.frame.mq.messenger f.message.tracker
                (lib.accept f.frame.mq.messenger f.message.tracker f.frame.pn))
              f,
        )
    unfolding Messages.accept
    accept_lem kind = ground arith

    let_go_lem : let_go lib f ≡ (
      0,
      behind
          (lib.message_free msg (lib.settle f.frame.mq.messenger f.message.tracker f.frame.pn))
          f,
    )
    unfolding let_go
    let_go_lem = ground arith

  module _ (w : ProtonWorld State) (p : Ptr) {m : ProtonMessage} {q : ProtonMq} {msg : ℕ}
      (live : w.heap.msgs p ≡ some m) (owner : w.heap.conns m.connection ≡ some q)
      (kind : m.kind ≡ incoming) (received : m.msg ≡ some msg)
      (tracked : nonzero m.tracker ≡ true) where
    -- On a live incoming message of the Proton engine with a received message, a tracker that is
    -- not 0 and a live connection, mq_message_accept returns 0, has told the library to accept the
    -- delivery, to settle it twice and to free the message, in this order, and has freed the object
    -- and one block.
    pub accept-accepted :
        (w' : ProtonWorld State) × (Message.accept (handle lib p) w ≡ some (pos 0, w'))
        × (w'.heap.pn ≡ accepted q.messenger msg m.tracker w.heap.pn)
        × (w'.heap.msgs p ≡ none)
        × (w'.libc.blocks ≡ w.libc.blocks - 1)
    unfolding Message.accept after_free
    accept-accepted =
        let f = frame w q m in
        let g =
          behind (lib.settle q.messenger m.tracker (lib.accept q.messenger m.tracker w.heap.pn))
            f in
        let w₁ = write_message p m.connection g w in
        let h = behind (lib.message_free msg (lib.settle q.messenger m.tracker g.frame.pn)) g in
        (
          free_message lib p (write_message p m.connection h w₁),
          >>=-some (on_message p (Messages.accept lib)) _ (
                on_message_lem w p (Messages.accept lib) live owner
                ∙ ap
                    (λ (r : ℤ × MessageFrame State). some (r.0, write_message p m.connection r.1 w))
                    (accept_lem f received tracked kind))
              ∙ >>=-some (Messages.release lib p) _ (
                  release_lem w₁ p {m = m} {q = g.frame.mq} (get_put p (some m) w.heap.msgs)
                    (get_put m.connection (some g.frame.mq) w.heap.conns)
                  ∙ ap
                      (λ (r : ℕ × MessageFrame State).
                        some (0, free_message lib p (write_message p m.connection r.1 w₁)))
                      (let_go_lem g received tracked)),
          refl,
          get_put p none (write_message p m.connection h w₁).heap.msgs,
          refl,
        )
