-- ===== src/Proton/Leaks.antt =====
-- The functions of queues/qpid-proton.c that make a message lose no block when they fail.
use libmq.Base.{
  ℕ, suc, ◌+◌, ◌≡◌, refl, ◌∙◌, ap, inl, inr, true, false, Option, none, some, ℤ, minus_one, nonzero,
  if◌then◌else◌, arith, Bool-cases,
}
use libmq.Base.Cells.{put, get_put}
use libmq.Libc.{Libc, exhausted, after_alloc, after_free}
use libmq.Cmd.{pure, >>=-some}
use libmq.Engine.{Ptr}
use libmq.Engine.Errors.{reset_error, set_from_errno}
use libmq.Proton.{
  ProtonMq, ProtonWorld, Frame, MessageFrame, update, write_mq, write_message, on_mq, on_message,
}
use libmq.Proton.Library.{Proton}
use libmq.Proton.Messages.{free_message}
use libmq.Proton.Making
use libmq.Proton.Making.{blank, receive, begin, deliver_new, make}
use libmq.Proton.Settling.{on_message_lem, frame}

-- The blocks that belong to a message, if there is one.
abbrev pub held : Option Ptr → ℕ
held none = 0
held (some _) = 1

module _ (lib : Proton) where
  open lib use {State}

  -- `pn_message` may set `errno`, but does not touch the blocks of libmq.
  abbrev pub LeavesBlocks : Type 0
  LeavesBlocks = (c : Libc) (p : State) → (lib.message c p).1.blocks ≡ c.blocks

  -- A result of 0 comes with a message, any other without; the message is the only new block.
  pub record Accounted (w : ProtonWorld State)
      (made : Option ((ℤ × Option Ptr) × ProtonWorld State)) : Type 0 where
    pub result : ℤ
    pub msg : Option Ptr
    pub after : ProtonWorld State
    pub run : made ≡ some ((result, msg), after)
    pub blocks : after.libc.blocks ≡ w.libc.blocks + held msg
    pub success : held msg ≡ (if nonzero result then 0 else 1)

  receive-blocks :
      (quiet : LeavesBlocks) (f : MessageFrame State)
      → (receive lib f).1.frame.libc.blocks ≡ f.frame.libc.blocks
  unfolding receive
  receive-blocks quiet f = ground (arith, quiet f.frame.libc f.frame.pn)

  begin-blocks :
      (quiet : LeavesBlocks) (f : MessageFrame State)
      → (begin lib f).1.frame.libc.blocks ≡ f.frame.libc.blocks
  unfolding begin
  begin-blocks quiet f = ground (arith, quiet f.frame.libc f.frame.pn)

  -- The connection when `calloc` has failed.
  abbrev pub failed : ProtonWorld State → ProtonMq → Frame State
  failed w q =
      let c = after_alloc w.libc in
      update (set_from_errno c) (record { libc = c; pn = w.heap.pn; mq = q })

  -- The state behind a message that was made.
  abbrev pub made : Ptr → ProtonWorld State → ProtonWorld State
  made self w = record w {
    libc = after_alloc w.libc;
    heap = record (w.heap) {
      msgs = put w.heap.fresh (some (blank lib self)) w.heap.msgs;
      fresh = suc w.heap.fresh;
    };
  }

  pub construct-full :
      (self : Ptr) (w : ProtonWorld State) {q : ProtonMq}
      → w.heap.conns self ≡ some q
      → exhausted w.libc ≡ true
      → Making.construct lib self w ≡ some (none, write_mq self (failed w q) w)
  unfolding Making.construct on_mq
  construct-full self w live full = ground arith

  pub construct-made :
      (self : Ptr) (w : ProtonWorld State)
      → exhausted w.libc ≡ false
      → Making.construct lib self w ≡ some (some w.heap.fresh, made self w)
  unfolding Making.construct
  construct-made self w room = ground arith

  settled :
      (r : ℤ) (p : Ptr) (w w₀ : ProtonWorld State)
      → w.libc.blocks ≡ suc w₀.libc.blocks
      → Accounted w₀
          (if nonzero r then some ((r, none), free_message lib p w) else some ((r, some p), w))
  unfolding after_free
  settled r p w w₀ one = elim (Bool-cases (nonzero r)) [
    | inl bad ↦ record {
      result = r;
      msg = none;
      after = free_message lib p w;
      run = rw bad;
      blocks = omega (arith, one);
      success = rw bad;
    }
    | inr good ↦ record {
      result = r;
      msg = some p;
      after = w;
      run = rw good;
      blocks = omega (arith, one);
      success = rw good;
    }
  ]

  moved :
      (w : ProtonWorld State) {a b : Option ((ℤ × Option Ptr) × ProtonWorld State)}
      → a ≡ b
      → Accounted w b
      → Accounted w a
  moved w e r = record {
    result = r.result;
    msg = r.msg;
    after = r.after;
    run = e ∙ r.run;
    blocks = r.blocks;
    success = r.success;
  }

  make-Accounted :
      (method : MessageFrame State → ℤ × MessageFrame State)
      → ((f : MessageFrame State) → (method f).1.frame.libc.blocks ≡ f.frame.libc.blocks)
      → (self : Ptr) (w : ProtonWorld State) {q : ProtonMq} → w.heap.conns self ≡ some q
      → Accounted w (make lib method self w)
  unfolding after_alloc
  make-Accounted method quiet self w {q} live = elim (Bool-cases (exhausted w.libc)) [
    | inl full ↦ record {
      result = minus_one;
      msg = none;
      after = write_mq self (failed w q) w;
      run = >>=-some (Making.construct lib self) _ (construct-full self w live full);
      blocks = ground (arith, full);
      success = refl;
    }
    | inr room ↦
        let w₁ = made self w in
        let p = w.heap.fresh in
        let f = frame lib w₁ q (blank lib self) in
        let g = method f in
        let w₂ = write_message p self g.1 w₁ in
        let e : make lib method self w ≡ (
            if nonzero g.0
            then some ((g.0, none), free_message lib p w₂)
            else some ((g.0, some p), w₂)) =
          >>=-some (Making.construct lib self) _ (construct-made self w room)
          ∙ >>=-some (on_message p method) _ (
              on_message_lem lib w₁ p {m = blank lib self} {q = q} method
                (get_put p (some (blank lib self)) w.heap.msgs) live) in
        moved w e (settled g.0 p w₂ w (ground (arith, quiet f, room)))
  ]

  pub reset_lem :
      (self : Ptr) (w : ProtonWorld State) {q : ProtonMq}
      → w.heap.conns self ≡ some q
      → on_mq self (λ f. (tt, update reset_error f)) w
        ≡ some (
          tt,
          write_mq self (update reset_error (record { libc = w.libc; pn = w.heap.pn; mq = q })) w,
        )
  unfolding on_mq
  reset_lem self w live = ground arith

  -- If pn_message leaves libmq's blocks alone, create on a live connection of the Proton engine,
  -- whatever the library and the allocator answer, ends with 0 and a message, one block more being
  -- in use, or with another number, no message and the count of blocks as it was.
  create-Accounted :
      (quiet : LeavesBlocks) (self : Ptr) (w : ProtonWorld State) {q : ProtonMq}
      → w.heap.conns self ≡ some q
      → Accounted w (Making.create lib self w)
  unfolding Making.create
  create-Accounted quiet self w {q} live =
      let f = update reset_error (record { libc = w.libc; pn = w.heap.pn; mq = q }) in
      let w₁ = write_mq self f w in
      let a =
        make-Accounted (begin lib) (begin-blocks quiet) self w₁ {q = f.mq}
          (get_put self (some f.mq) w.heap.conns) in
      moved w (>>=-some (on_mq self (λ f. (tt, update reset_error f))) _ (reset_lem self w live))
        (record {
          result = a.result;
          msg = a.msg;
          after = a.after;
          run = a.run;
          blocks = a.blocks;
          success = a.success;
        })

  await-libc : (f : Frame State) → (Making.await lib f).1.libc ≡ f.libc
  unfolding Making.await
  await-libc f = ground arith

  pub on_mq_lem :
      {A : Type 0} (self : Ptr) (w : ProtonWorld State) {q : ProtonMq}
      (method : Frame State → A × Frame State)
      → w.heap.conns self ≡ some q
      → on_mq self method w ≡ (
          let (a, f) = method (record { libc = w.libc; pn = w.heap.pn; mq = q }) in
          some (a, write_mq self f w))
  unfolding on_mq
  on_mq_lem self w method live = ground arith

  -- If pn_message leaves libmq's blocks alone, next on a live connection of the Proton engine,
  -- whatever the library and the allocator answer, ends with 0 and a message, one block more being
  -- in use, or with another number, no message and the count of blocks as it was.
  next-Accounted :
      (quiet : LeavesBlocks) (self : Ptr) (w : ProtonWorld State) {q : ProtonMq}
      → w.heap.conns self ≡ some q
      → Accounted w (Making.next lib self w)
  unfolding Making.next
  next-Accounted quiet self w {q} live =
      let g = Making.await lib (record { libc = w.libc; pn = w.heap.pn; mq = q }) in
      let w₁ = write_mq self g.1 w in
      let same = await-libc (record { libc = w.libc; pn = w.heap.pn; mq = q }) in
      let e =
        >>=-some (on_mq self (Making.await lib))
          (λ ready. if ready then make lib (receive lib) self else pure (minus_one, none))
          (on_mq_lem self w (Making.await lib) live) in
      elim (Bool-cases g.0) [
        | inl ready ↦
            let a =
              make-Accounted (receive lib) (receive-blocks quiet) self w₁ {q = g.1.mq}
                (get_put self (some g.1.mq) w.heap.conns) in
            record {
              result = a.result;
              msg = a.msg;
              after = a.after;
              run = e ∙ rw ready a.run;
              blocks = ground (arith, a.blocks, ap (λ (c : Libc). c.blocks) same);
              success = a.success;
            }
        | inr nothing ↦ record {
          result = minus_one;
          msg = none;
          after = w₁;
          run = e ∙ rw nothing;
          blocks = ground (arith, ap (λ (c : Libc). c.blocks) same);
          success = refl;
        }
      ]

  -- If pn_message leaves libmq's blocks alone, then next and create on a live connection of the
  -- Proton engine, whatever the library and the allocator answer, end with 0 and a message, one
  -- block more being in use, or with another number, no message and the count of blocks as it was.
  pub makes-Accounted :
      (quiet : LeavesBlocks) (self : Ptr) (w : ProtonWorld State) {q : ProtonMq}
      → w.heap.conns self ≡ some q
      → Accounted w (Making.next lib self w) × Accounted w (Making.create lib self w)
  makes-Accounted quiet self w live =
      (next-Accounted quiet self w live, create-Accounted quiet self w live)
