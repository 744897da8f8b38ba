-- ===== src/Random/Contract.antt =====
-- The contract of libmq-engine.h for the engine of queues/random.c: the functions on
-- one connection or one message.
use libmq.Base.{◌≡◌, refl, ◌∙◌, ap, inl, inr, Option, some, ◌==◌, Bool-cases}
use libmq.Base.Cells.{put, get_put}
use libmq.Cmd.{Cmd}
use libmq.Cmd.Ends.{Ends, Ends-weaken}
use libmq.Engine.{Ptr, Message}
use libmq.Engine.Contract.{Steady, Keeps, Serves}
use libmq.Random.{RandomMq, RandomMessage, RandomWorld, Frame, write_mq, on_mq, on_message}
use libmq.Random.Sessions.{handle, frame, on_message_lem}
use libmq.Random.Connecting.{on_mq_lem}

module _ (self : Ptr) where
  -- The connection at the address is live.
  abbrev pub Held : RandomWorld → Type 0
  Held w = (q : RandomMq) × (w.heap.conns self ≡ some q)

  -- A handle on a live message of the connection.
  pub record Live (m : Message RandomWorld) (w : RandomWorld) : Type 0 where
    pub p : Ptr
    pub x : RandomMessage
    pub same : m ≡ handle p
    pub live : w.heap.msgs p ≡ some x
    pub its : x.connection ≡ self

  -- A write to a message that stays on its connection.
  pub put-Live :
      (p : Ptr) (x : RandomMessage) (m : Message RandomWorld) (w w' : RandomWorld)
      → x.connection ≡ self
      → w'.heap.msgs ≡ put p (some x) w.heap.msgs
      → Live m w
      → Live m w'
  put-Live p x m w w' its written h = elim (Bool-cases (p == h.p)) [
    | inl it ↦ record {
      p = h.p;
      x = x;
      same = h.same;
      live = ap (λ (f : Ptr → Option RandomMessage). f h.p) written ∙ rw (it, put);
      its = its;
    }
    | inr other ↦ record {
      p = h.p;
      x = h.x;
      same = h.same;
      live = ap (λ (f : Ptr → Option RandomMessage). f h.p) written ∙ rw (other, put) h.live;
      its = h.its;
    }
  ]

  -- A step that leaves the messages alone.
  pub moved-Live :
      (m : Message RandomWorld) (w w' : RandomWorld)
      → w'.heap.msgs ≡ w.heap.msgs
      → Live m w
      → Live m w'
  moved-Live m w w' same h = record {
    p = h.p;
    x = h.x;
    same = h.same;
    live = ap (λ (f : Ptr → Option RandomMessage). f h.p) same ∙ h.live;
    its = h.its;
  }

  pub on_mq-Ends :
      {A : Type 0} (method : Frame → A × Frame) (w : RandomWorld) {q : RandomMq}
      → w.heap.conns self ≡ some q
      → Ends (on_mq self method w) (λ a w'. Steady Held Live w w' × (a ≡ (method (frame w q)).0))
  on_mq-Ends method w {q} live =
      let (a, f) = method (frame w q) in
      record {
        result = a;
        after = write_mq self f w;
        run = on_mq_lem w self method live;
        holds = (
          (
            (f.mq, get_put self (some f.mq) w.heap.conns),
            λ m h. moved-Live m w (write_mq self f w) refl h,
          ),
          refl,
        );
      }

  pub on_mq-Keeps : {A : Type 0} (method : Frame → A × Frame) → Keeps Held Live (on_mq self method)
  on_mq-Keeps method w (q, live) = Ends-weaken (λ a w' h. h.0) (on_mq-Ends method w live)

  -- A function of messages, given at the address of a live one.
  pub served :
      {A : Type 0} (f : Message RandomWorld → Cmd RandomWorld A)
      → ((p : Ptr) (x : RandomMessage) (w : RandomWorld)
          → Held w
          → w.heap.msgs p ≡ some x
          → x.connection ≡ self
          → Ends (f (handle p) w) (λ _ w'. Steady Held Live w w'))
      → Serves Held Live f
  served f each m w held h = rw h.same (each h.p h.x w held h.live h.its)

  pub on_message-Exact :
      {A : Type 0} (method : RandomMessage → Frame → A × Frame) (p : Ptr) (x : RandomMessage)
      (w : RandomWorld)
      → Held w
      → w.heap.msgs p ≡ some x
      → x.connection ≡ self
      → Ends (on_message p method w) (λ a w'.
        Steady Held Live w w' × (w'.heap.msgs ≡ w.heap.msgs) × (f : Frame) × (a ≡ (method x f).0))
  on_message-Exact method p x w (q, held) live its =
      let f = (method x (frame w q)).1 in
      record {
        result = (method x (frame w q)).0;
        after = write_mq x.connection f w;
        run = on_message_lem w p {m = x} {q = q} live (ap w.heap.conns its ∙ held) method;
        holds = (
          (
            (
              f.mq,
              ap (λ (s : Ptr). put s (some f.mq) w.heap.conns self) its
                  ∙ get_put self (some f.mq) w.heap.conns,
            ),
            λ m h. moved-Live m w (write_mq x.connection f w) refl h,
          ),
          refl,
          frame w q,
          refl,
        );
      }

  pub on_message-Steady :
      {A : Type 0} (method : RandomMessage → Frame → A × Frame) (p : Ptr) (x : RandomMessage)
      (w : RandomWorld)
      → Held w
      → w.heap.msgs p ≡ some x
      → x.connection ≡ self
      → Ends (on_message p method w) (λ _ w'. Steady Held Live w w')
  on_message-Steady method p x w held live its =
      Ends-weaken (λ a w' h. h.0) (on_message-Exact method p x w held live its)
