-- ===== src/Proton/Makes.antt =====
-- The contract of libmq-engine.h for the functions of queues/qpid-proton.c that make a message.
use libmq.Base.{
  ◌≡◌, refl, ◌∙◌, ap, sym, inl, inr, false, Option, none, some, ◌==◌, nonzero, if◌then◌else◌, ℤ,
  minus_one, arith, Bool-cases,
}
use libmq.Base.Cells.{get_put}
use libmq.Libc.{exhausted}
use libmq.Cmd.{Cmd, pure, ◌>>=◌, >>=-some}
use libmq.Cmd.Ends.{Ends, Ends-pure, Ends-if, Ends-bind, Ends-eq, Ends-weaken}
use libmq.Engine.{Ptr, Message}
use libmq.Engine.Errors.{reset_error}
use libmq.Engine.Contract.{Steady, Makes}
use libmq.Proton.{ProtonWorld, Frame, MessageFrame, write_mq, on_mq, on_message, update}
use libmq.Proton.Library.{Proton}
use libmq.Proton.Messages.{free_message}
use libmq.Proton.Making
use libmq.Proton.Making.{blank, make, deliver_new}
use libmq.Proton.Impl.{handle, as_message}
use libmq.Proton.Opening.{connection}
use libmq.Proton.Leaks.{failed, made, construct-full, construct-made}
use libmq.Proton.Contract.{
  Held, Live, Stays, moved-Live, put-Live, freed, on_mq-Keeps, on_message-Ends,
}

module _ (lib : Proton) (self : Ptr) where
  open lib use {State}

  -- What a function that makes a message returns, at its address.
  abbrev Delivers : ProtonWorld State → ℤ × Option Ptr → ProtonWorld State → Type 0
  Delivers w r w' =
      Steady (Held lib self) (Live lib self) w w'
      × (nonzero r.0 ≡ false → (p : Ptr) × (r.1 ≡ some p) × Live lib self (handle lib p) w')

  older :
      (m : Message (ProtonWorld State)) (w : ProtonWorld State)
      → Live lib self m w
      → (m.self == w.heap.fresh) ≡ false
  older m w h =
      let e : m.self ≡ h.p = ap (λ (m : Message (ProtonWorld State)). m.self) h.same in
      ground (arith, e, h.old)

  -- The new message is filled in, or freed lib self if that fails; then no other message is touched.
  delivered :
      (method : MessageFrame State → ℤ × MessageFrame State) (w : ProtonWorld State)
      → Stays lib self method
      → Held lib self w
      → Ends (deliver_new lib method w.heap.fresh (made lib self w)) (Delivers w)
  delivered method w stays (q, held) =
      let p = w.heap.fresh in
      let w₁ = made lib self w in
      let still₁ : (m : Message (ProtonWorld State)) → Live lib self m w → Live lib self m w₁ =
        λ m h. put-Live lib self p (blank lib self) m w w₁ refl (omega arith) refl h in
      Ends-bind (on_message p method)
        (λ r w. if nonzero r then some ((r, none), free_message lib p w) else some ((r, some p), w))
        (on_message-Ends lib self method p (blank lib self) w₁ stays (q, held)
          (get_put p (some (blank lib self)) w.heap.msgs) refl)
        λ r w₂ ((held₂, still₂), (y, live₂, its₂), same). elim (Bool-cases (nonzero r)) [
          | inl bad ↦
              let (held₃, others) = freed lib self p w₂ held₂ in
              record {
                result = (r, none);
                after = free_message lib p w₂;
                run = rw bad;
                holds = (
                  (held₃, λ m h. others m (older m w h) (still₂ m (still₁ m h))),
                  λ good. cc (sym bad ∙ good),
                );
              }
          | inr good ↦ record {
            result = (r, some p);
            after = w₂;
            run = rw good;
            holds = (
              (held₂, λ m h. still₂ m (still₁ m h)),
              λ _. (
                p,
                refl,
                record {
                  p = p;
                  x = y;
                  same = refl;
                  live = live₂;
                  its = its₂;
                  old = omega (arith, same);
                },
              ),
            );
          }
        ]

  make-Delivers :
      (method : MessageFrame State → ℤ × MessageFrame State) (w : ProtonWorld State)
      → Stays lib self method
      → Held lib self w
      → Ends (make lib method self w) (Delivers w)
  make-Delivers method w stays (q, held) = elim (Bool-cases (exhausted w.libc)) [
    | inl full ↦ record {
      result = (minus_one, none);
      after = write_mq self (failed lib w q) w;
      run = >>=-some (Making.construct lib self) _ (construct-full lib self w held full);
      holds = (
        (
          ((failed lib w q).mq, get_put self (some (failed lib w q).mq) w.heap.conns),
          λ m h. moved-Live lib self m w (write_mq self (failed lib w q) w) (omega arith) refl h,
        ),
        λ bad. cc bad,
      );
    }
    | inr room ↦
        Ends-eq (>>=-some (Making.construct lib self) _ (construct-made lib self w room))
          (delivered method w stays (q, held))
  ]

  -- A step that keeps everything, and then what makes a message.
  after_step :
      (w w₁ : ProtonWorld State) (r : ℤ × Option Ptr) (w₂ : ProtonWorld State)
      → Steady (Held lib self) (Live lib self) w w₁
      → Delivers w₁ r w₂
      → Delivers w r w₂
  after_step w w₁ r w₂ (held₁, still₁) ((held₂, still₂), made) =
      ((held₂, λ m h. still₂ m (still₁ m h)), made)

  begin-Stays : Stays lib self (Making.begin lib)
  unfolding Making.begin
  begin-Stays f = ground arith

  receive-Stays : Stays lib self (Making.receive lib)
  unfolding Making.receive
  receive-Stays f = ground arith

  create-Delivers :
      (w : ProtonWorld State) → Held lib self w → Ends (Making.create lib self w) (Delivers w)
  unfolding Making.create
  create-Delivers w held =
      Ends-bind (on_mq self (λ (f : Frame State). (tt {0}, update reset_error f)))
        (λ _. make lib (Making.begin lib) self)
        (on_mq-Keeps lib self (λ f. (tt, update reset_error f)) w held)
        λ a w₁ steady.
          Ends-weaken (λ r w₂ h. after_step w w₁ r w₂ steady h)
            (make-Delivers (Making.begin lib) w₁ begin-Stays steady.0)

  next-Delivers :
      (w : ProtonWorld State) → Held lib self w → Ends (Making.next lib self w) (Delivers w)
  unfolding Making.next
  next-Delivers w held =
      Ends-bind (on_mq self (Making.await lib)) _ (on_mq-Keeps lib self (Making.await lib) w held)
        λ ready w₁ steady.
          Ends-if ready (make lib (Making.receive lib) self) (pure (minus_one, none)) w₁
            (λ _.
              Ends-weaken (λ r w₂ h. after_step w w₁ r w₂ steady h)
                (make-Delivers (Making.receive lib) w₁ receive-Stays steady.0))
            (λ _. Ends-pure (minus_one, none) w₁ (steady, λ bad. cc bad))

  -- The functions of the table, which return a handle.
  handed :
      (f : Cmd (ProtonWorld State) (ℤ × Option Ptr))
      → ((w : ProtonWorld State) → Held lib self w → Ends (f w) (Delivers w))
      → Makes (Held lib self) (Live lib self) (do (r, p) ← f; pure (r, as_message lib p))
  handed f delivers w held =
      Ends-bind f (λ (r, p). pure (r, as_message lib p)) (delivers w held)
        λ (r, p) w₁ (steady, made).
          Ends-pure (r, as_message lib p) w₁
            (
              steady,
              λ good. let (q, e, live) = made good in (handle lib q, ap (as_message lib) e, live),
            )

  pub next-Makes : Makes (Held lib self) (Live lib self) ((connection lib self).impl.next self)
  next-Makes = handed (Making.next lib self) next-Delivers

  pub create-Makes : Makes (Held lib self) (Live lib self) ((connection lib self).impl.create self)
  create-Makes = handed (Making.create lib self) create-Delivers
