-- ===== src/Proton/Contract.antt =====
-- The contract of libmq-engine.h for the engine of queues/qpid-proton.c: the functions on one
-- connection or one message.
use libmq.Base.{
  ◌<◌, ◌≤◌, ◌≡◌, refl, ◌∙◌, ap, inl, inr, false, Option, none, some, ◌==◌, arith, Bool-cases,
}
use libmq.Base.Cells.{put, get_put}
use libmq.Cmd.{Cmd}
use libmq.Cmd.Ends.{Ends, Ends-bind, Ends-eq, Ends-weaken}
use libmq.Engine.{Ptr, Message}
use libmq.Engine.Contract.{Steady, Keeps, Serves, Frees}
use libmq.Proton.{
  ProtonMq, ProtonMessage, ProtonWorld, Frame, MessageFrame, write_mq, write_message, on_mq,
  on_message,
}
use libmq.Proton.Library.{Proton}
use libmq.Proton.Messages
use libmq.Proton.Messages.{let_go, put_message, free_message}
use libmq.Proton.Impl.{handle}
use libmq.Proton.Leaks.{on_mq_lem}
use libmq.Proton.Settling.{frame, on_message_lem}

module _ (lib : Proton) (self : Ptr) where
  open lib use {State}

  -- The connection at the address is live.
  abbrev pub Held : ProtonWorld State → Type 0
  Held w = (q : ProtonMq) × (w.heap.conns self ≡ some q)

  -- A handle on a live message of the connection.
  pub record Live (m : Message (ProtonWorld State)) (w : ProtonWorld State) : Type 0 where
    pub p : Ptr
    pub x : ProtonMessage
    pub same : m ≡ handle lib p
    pub live : w.heap.msgs p ≡ some x
    pub its : x.connection ≡ self
    pub old : p < w.heap.fresh

  -- A function on a message that leaves it on its connection.
  abbrev pub Stays : {A : Type 0} → (MessageFrame State → A × MessageFrame State) → Type 0
  Stays method = (f : MessageFrame State) → (method f).1.message.connection ≡ f.message.connection

  pub moved-Live :
      (m : Message (ProtonWorld State)) (w w' : ProtonWorld State)
      → w.heap.fresh ≤ w'.heap.fresh
      → w'.heap.msgs ≡ w.heap.msgs
      → Live m w
      → Live m w'
  moved-Live m w w' later same h = record {
    p = h.p;
    x = h.x;
    same = h.same;
    live = ap (λ (f : Ptr → Option ProtonMessage). f h.p) same ∙ h.live;
    its = h.its;
    old = omega (arith, h.old, later);
  }

  -- A write to a message that stays on its connection.
  pub put-Live :
      (p : Ptr) (x : ProtonMessage) (m : Message (ProtonWorld State)) (w w' : ProtonWorld State)
      → x.connection ≡ self
      → w.heap.fresh ≤ w'.heap.fresh
      → w'.heap.msgs ≡ put p (some x) w.heap.msgs
      → Live m w
      → Live m w'
  put-Live p x m w w' its later written h = elim (Bool-cases (p == h.p)) [
    | inl it ↦ record {
      p = h.p;
      x = x;
      same = h.same;
      live = ap (λ (f : Ptr → Option ProtonMessage). f h.p) written ∙ rw (it, put);
      its = its;
      old = omega (arith, h.old, later);
    }
    | inr other ↦ record {
      p = h.p;
      x = h.x;
      same = h.same;
      live = ap (λ (f : Ptr → Option ProtonMessage). f h.p) written ∙ rw (other, put) h.live;
      its = h.its;
      old = omega (arith, h.old, later);
    }
  ]

  -- A message that is freed; the messages at other addresses stay.
  freed-Live :
      (p : Ptr) (m : Message (ProtonWorld State)) (w w' : ProtonWorld State)
      → (m.self == p) ≡ false
      → w.heap.fresh ≤ w'.heap.fresh
      → w'.heap.msgs ≡ put p none w.heap.msgs
      → Live m w
      → Live m w'
  freed-Live p m w w' other later written h =
      let e : m.self ≡ h.p = ap (λ (m : Message (ProtonWorld State)). m.self) h.same in
      record {
        p = h.p;
        x = h.x;
        same = h.same;
        live =
            ap (λ (f : Ptr → Option ProtonMessage). f h.p) written
            ∙ ground (arith, e, other, h.live);
        its = h.its;
        old = omega (arith, h.old, later);
      }

  pub on_mq-Keeps :
      {A : Type 0} (method : Frame State → A × Frame State) → Keeps Held Live (on_mq self method)
  on_mq-Keeps method w (q, held) =
      let (a, f) = method (record { libc = w.libc; pn = w.heap.pn; mq = q }) in
      record {
        result = a;
        after = write_mq self f w;
        run = on_mq_lem lib self w method held;
        holds = (
          (f.mq, get_put self (some f.mq) w.heap.conns),
          λ m h. moved-Live m w (write_mq self f w) (omega arith) refl h,
        );
      }

  -- The connection behind a write to a message of it.
  own :
      (s : Ptr) (q : ProtonMq) (w : ProtonWorld State)
      → s ≡ self
      → put s (some q) w.heap.conns self ≡ some q
  own s q w its =
      ap (λ (s : Ptr). put s (some q) w.heap.conns self) its ∙ get_put self (some q) w.heap.conns

  -- A function on the message at an address, with the frame that it is given.
  pub on_message-Exact :
      {A : Type 0} (method : MessageFrame State → A × MessageFrame State) (p : Ptr)
      (x : ProtonMessage) (w : ProtonWorld State)
      → Stays method
      → Held w
      → w.heap.msgs p ≡ some x
      → x.connection ≡ self
      → Ends (on_message p method w) (λ a w'.
        Steady Held Live w w'
        × (w'.heap.fresh ≡ w.heap.fresh)
        × (f : MessageFrame State) × (f.message ≡ x)
        × (a ≡ (method f).0)
        × (w'.heap.msgs p ≡ some (method f).1.message))
  on_message-Exact method p x w stays (q, held) live its =
      let (a, f) = method (frame lib w q x) in
      let w' = write_message p x.connection f w in
      let still = stays (frame lib w q x) ∙ its in
      record {
        result = a;
        after = w';
        run = on_message_lem lib w p {m = x} {q = q} method live (ap w.heap.conns its ∙ held);
        holds = (
          (
            (f.mq, own x.connection f.mq w its),
            λ m h. put-Live p f.message m w w' still (omega arith) refl h,
          ),
          refl,
          frame lib w q x,
          refl,
          refl,
          get_put p (some f.message) w.heap.msgs,
        );
      }

  -- The message stays on its connection.
  pub on_message-Ends :
      {A : Type 0} (method : MessageFrame State → A × MessageFrame State) (p : Ptr)
      (x : ProtonMessage) (w : ProtonWorld State)
      → Stays method
      → Held w
      → w.heap.msgs p ≡ some x
      → x.connection ≡ self
      → Ends (on_message p method w) (λ _ w'.
        Steady Held Live w w'
        × ((y : ProtonMessage) × (w'.heap.msgs p ≡ some y) × (y.connection ≡ self))
        × (w'.heap.fresh ≡ w.heap.fresh))
  on_message-Ends method p x w stays held live its =
      Ends-weaken
        (λ a w' (steady, fresh, f, same, result, at). (
          steady,
          ((method f).1.message, at, stays f ∙ ap (λ (m : ProtonMessage). m.connection) same ∙ its),
          fresh,
        ))
        (on_message-Exact method p x w stays held live its)

  pub serves :
      {A : Type 0} (f : Message (ProtonWorld State) → Cmd (ProtonWorld State) A)
      (method : MessageFrame State → A × MessageFrame State)
      → Stays method
      → ((p : Ptr) → f (handle lib p) ≡ on_message p method)
      → Serves Held Live f
  serves {A} f method stays is m w held h = rw h.same (
      Ends-eq (ap (λ (k : Cmd (ProtonWorld State) A). k w) (is h.p))
        (Ends-weaken (λ a w' r. r.0) (on_message-Ends method h.p h.x w stays held h.live h.its)))

  -- `free` of a message that is live; the others stay live.
  pub freed :
      (p : Ptr) (w : ProtonWorld State)
      → Held w
      → Held (free_message lib p w)
        × ((o : Message (ProtonWorld State))
            → (o.self == p) ≡ false
            → Live o w
            → Live o (free_message lib p w))
  freed p w held =
      (held, λ o other h. freed-Live p o w (free_message lib p w) other (omega arith) refl h)

  let_go-Stays : Stays (let_go lib)
  unfolding let_go
  let_go-Stays f = ground arith

  released :
      (p : Ptr) (x : ProtonMessage) (w : ProtonWorld State)
      → Held w
      → w.heap.msgs p ≡ some x
      → x.connection ≡ self
      → Ends (Messages.release lib p w) (λ _ w'.
        Held w'
        × ((o : Message (ProtonWorld State)) → (o.self == p) ≡ false → Live o w → Live o w'))
  unfolding Messages.release
  released p x w held live its =
      Ends-bind (on_message p (let_go lib)) (λ r w. some (r, free_message lib p w))
        (on_message-Ends (let_go lib) p x w let_go-Stays held live its)
        λ r w₁ ((held₁, still), y, same).
          let (held₂, others) = freed p w₁ held₁ in
          record {
            result = r;
            after = free_message lib p w₁;
            run = refl;
            holds = (held₂, λ o other h. others o other (still o h));
          }

  pub release-Frees : Frees Held Live (λ m. m.impl.release m.self)
  release-Frees m w held h = rw h.same (released h.p h.x w held h.live h.its)
