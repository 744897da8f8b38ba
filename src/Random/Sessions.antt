-- ===== src/Random/Sessions.antt =====
-- Whole uses of the engine through the public functions of connection.c and message.c.
use libmq.Base.{
  ℕ, ◌-◌, ◌<◌, ◌≡◌, refl, ◌∙◌, false, Option, none, some, ℤ, pos, minus_one, if◌then◌else◌, arith,
  length,
}
use libmq.Base.CString.{CString}
use libmq.Base.Decimal.{value}
use libmq.Libc.{Libc, exhausted, after_alloc, after_free}
use libmq.Cmd.{Cmd, pure, ◌>>=◌, ◌>>◌, >>=-some}
use libmq.Engine.{Ptr, Mq, Message}
use libmq.Engine.Errors.{reset_error}
use libmq.Connection
use libmq.Message
use libmq.Random.{RandomMq, RandomMessage, RandomWorld, Frame, update, write_mq, on_mq, on_message}
use libmq.Base.Cells.{put, put_twice, get_put}
use libmq.Random.Messages
use libmq.Random.Messages.{is_incoming}
use libmq.Random.Impl.{message_impl, connection_impl}
use libmq.Random.Receiving.{after_next, arrived, next-arrived, upcoming, value-draw, length-draw}

-- A handle on a message of the engine.
abbrev pub handle : Ptr → Message RandomWorld
handle p = record { impl = message_impl; self = p }

module _ (w : RandomWorld) (p : Ptr) {m : RandomMessage} {q : RandomMq}
    (live : w.heap.msgs p ≡ some m) (owner : w.heap.conns m.connection ≡ some q) where
  pub on_message_lem :
      {A : Type 0} (method : RandomMessage → Frame → A × Frame)
      → on_message p method w ≡ (
          let (a, f) = method m (record { libc = w.libc; mq = q }) in
          some (a, write_mq m.connection f w))
  unfolding on_message on_mq
  on_message_lem method = ground arith

-- The state behind a function that works on the message at `p` and then frees it.
abbrev pub freed : Ptr → RandomMessage → Frame → RandomWorld → RandomWorld
freed p m f w = record w {
  libc = after_free f.libc;
  heap = record (w.heap) {
    conns = put m.connection (some f.mq) w.heap.conns;
    msgs = put p none w.heap.msgs;
  };
}

abbrev pub frame : RandomWorld → RandomMq → Frame
frame w q = record { libc = w.libc; mq = q }

pub release_lem :
    (w : RandomWorld) (p : Ptr) {m : RandomMessage} {q : RandomMq}
    → w.heap.msgs p ≡ some m
    → w.heap.conns m.connection ≡ some q
    → Messages.release p w ≡ some (0, freed p m (update reset_error (frame w q)) w)
unfolding Messages.release
release_lem w p live owner = >>=-some (on_message p _) _ (on_message_lem w p live owner _)

module _ (w : RandomWorld) (p : Ptr) {m : RandomMessage} {q : RandomMq}
    (live : w.heap.msgs p ≡ some m) (owner : w.heap.conns m.connection ≡ some q) where
  -- `r = message->impl->...(message); message->impl->release(message); return r;`
  abbrev pub settled : (RandomMessage → Frame → ℤ × Frame) → Option (ℤ × RandomWorld)
  settled method = let (r, f) = method m (frame w q) in some (r, freed p m (update reset_error f) w)

  settle :
      (method : RandomMessage → Frame → ℤ × Frame)
      → (do r ← on_message p method; Messages.release p; pure r) w ≡ settled method
  settle method =
      let f = (method m (frame w q)).1 in
      let w₁ = write_mq m.connection f w in
      >>=-some (on_message p method) _ (on_message_lem w p live owner method)
      ∙ >>=-some (Messages.release p) _
          (release_lem w₁ p {m = m} {q = f.mq} live (get_put m.connection (some f.mq) w.heap.conns))
      ∙ rw (put_twice m.connection (some f.mq) (some (update reset_error f).mq) w.heap.conns)

  pub accept-settled : Message.accept (handle p) w ≡ settled Messages.accept
  unfolding Message.accept
  accept-settled = settle Messages.accept

-- The three ways to be done with a message.
pub data Verdict : Type 0 where
  accepted rejected passed : Verdict

unfoldable pub settle_by : Verdict → Message RandomWorld → Cmd RandomWorld ℤ
settle_by accepted message = Message.accept message
settle_by rejected message = Message.reject message
settle_by passed message = Message.pass message

-- What is left of a message and its connection once the message is done with.
pub record Settled (w : RandomWorld) (p : Ptr) (m : RandomMessage) (w' : RandomWorld) : Type 0 where
  pub gone : w'.heap.msgs p ≡ none
  pub blocks : w'.libc.blocks ≡ w.libc.blocks - 1
  pub mq : RandomMq
  pub owner : w'.heap.conns m.connection ≡ some mq
  pub syserr : mq.syserr ≡ 0
  pub errcode : mq.errcode ≡ pos 0

module _ (w : RandomWorld) (p : Ptr) {m : RandomMessage} {q : RandomMq}
    (live : w.heap.msgs p ≡ some m) (owner : w.heap.conns m.connection ≡ some q) where
  abbrev verdict : ℤ
  verdict = if is_incoming m.kind then pos 0 else minus_one

  outcome :
      (method : RandomMessage → Frame → ℤ × Frame)
      → (method m (frame w q)).0 ≡ verdict
      → (method m (frame w q)).1.libc.blocks ≡ w.libc.blocks
      → (w' : RandomWorld) × ((do r ← on_message p method; Messages.release p; pure r) w
          ≡ some (verdict, w'))
        × Settled w p m w'
  unfolding after_free
  outcome method result same =
      let f = (method m (frame w q)).1 in
      (
        freed p m (update reset_error f) w,
        settle w p live owner method ∙ rw result,
        record {
          gone = get_put p none w.heap.msgs;
          blocks = omega arith;
          mq = (update reset_error f).mq;
          owner = get_put m.connection (some (update reset_error f).mq) w.heap.conns;
          syserr = refl;
          errcode = refl;
        },
      )

  -- On a live message of the random engine whose connection is live, mq_message_accept,
  -- mq_message_reject and mq_message_pass return 0 if the message is incoming and -1 if not; either
  -- way the message is freed, one block with it, and the error of the connection is clear.
  pub settle_by-Settled :
      (v : Verdict)
      → (w' : RandomWorld) × (settle_by v (handle p) w ≡ some (verdict, w')) × Settled w p m w'
  unfolding settle_by Message.accept Message.reject Message.pass Messages.accept Messages.reject
      Messages.pass
  settle_by-Settled accepted = outcome Messages.accept (ground arith) (ground arith)
  settle_by-Settled rejected = outcome Messages.reject (ground arith) (ground arith)
  settle_by-Settled passed = outcome Messages.pass (ground arith) (ground arith)

-- What can be read from the message that `mq_next` returns.
pub record Readable (w w' : RandomWorld) (message : Message RandomWorld) : Type 0 where
  pub text : CString
  pub after_body : RandomWorld
  pub body : Message.body message w' ≡ some (some text, after_body)
  pub after_len : RandomWorld
  pub len : Message.len message w' ≡ some (length text, after_len)
  pub value : value text ≡ upcoming w.libc
  pub fits : length text < 32

body_lem :
    (w : RandomWorld) (p : Ptr) {m : RandomMessage} {q : RandomMq}
    → w.heap.msgs p ≡ some m
    → w.heap.conns m.connection ≡ some q
    → Message.body (handle p) w
      ≡ some (some m.buf, write_mq m.connection (update reset_error (frame w q)) w)
unfolding Message.body Messages.body
body_lem w p live owner = on_message_lem w p live owner Messages.body

len_lem :
    (w : RandomWorld) (p : Ptr) {m : RandomMessage} {q : RandomMq}
    → w.heap.msgs p ≡ some m
    → w.heap.conns m.connection ≡ some q
    → Message.len (handle p) w
      ≡ some (length m.buf, write_mq m.connection (update reset_error (frame w q)) w)
unfolding Message.len Messages.len
len_lem w p live owner = on_message_lem w p live owner Messages.len

pub upcoming-after_alloc : (c : Libc) → upcoming (after_alloc c) ≡ upcoming c
unfolding after_alloc
upcoming-after_alloc c = ground arith

-- A handle on a connection of the engine.
abbrev pub connection : (Option ℕ → Option CString) → Ptr → Mq RandomWorld
connection cluster_partition self = record { impl = connection_impl cluster_partition; self = self }

module _ (cluster_partition : Option ℕ → Option CString) (self : Ptr) (w : RandomWorld) where
  abbrev mq : Mq RandomWorld
  mq = connection cluster_partition self

  pub next_lem :
      {p : Ptr} {w' : RandomWorld}
      → Messages.next self w ≡ some ((pos 0, some p), w')
      → Connection.next mq w ≡ some (some (handle p), w')
  unfolding Connection.next
  next_lem e = >>=-some (mq.impl.next self) _ (>>=-some (Messages.next self) _ e)

  -- On a connection of the random engine, if the allocator grants the message, mq_next returns a
  -- message from which mq_message_body reads a text of fewer than 32 bytes and mq_message_len the
  -- length of that text, and the text read as a decimal is the number that random() was about to
  -- return.
  pub next-Readable :
      {q : RandomMq}
      → w.heap.conns self ≡ some q
      → exhausted w.libc ≡ false
      → (message : Message RandomWorld) × (w' : RandomWorld) × (Connection.next mq w
          ≡ some (some message, w'))
        × Readable w w' message
  next-Readable {q} live room =
      let w' = after_next self w in
      let p = w.heap.fresh in
      let m = arrived self (after_alloc w.libc) in
      let here : w'.heap.msgs p ≡ some m = get_put p (some m) w.heap.msgs in
      (
        handle p,
        w',
        next_lem (next-arrived self w room),
        record {
          text = m.buf;
          after_body = write_mq self (update reset_error (frame w' q)) w';
          body = body_lem w' p {m = m} here live;
          after_len = write_mq self (update reset_error (frame w' q)) w';
          len = len_lem w' p {m = m} here live;
          value = value-draw (after_alloc w.libc) ∙ upcoming-after_alloc w.libc;
          fits = length-draw (after_alloc w.libc);
        },
      )
