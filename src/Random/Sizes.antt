-- ===== src/Random/Sizes.antt =====
-- The contract of libmq-engine.h for the engine of queues/random.c: the length of a message and its
-- body.
use libmq.Base.{ℕ, ◌≡◌, ◌∙◌, ap, inr, Option, some, arith, length}
use libmq.Cmd.Ends.{Ends-weaken}
use libmq.Engine.{Ptr, Message}
use libmq.Engine.Contract.{ServesAnd, Covers}
use libmq.Random.{RandomMessage, RandomWorld}
use libmq.Random.Messages
use libmq.Random.Sessions.{handle}
use libmq.Random.Contract.{Held, Live, on_message-Exact}

module _ (self : Ptr) where
  -- The length of the text of a message.
  pub record Sized (m : Message RandomWorld) (n : ℕ) (w : RandomWorld) : Type 0 where
    pub x : RandomMessage
    pub live : w.heap.msgs m.self ≡ some x
    pub size : n ≡ length x.buf

  kept :
      (m : Message RandomWorld) (n : ℕ) (w w' : RandomWorld)
      → w'.heap.msgs ≡ w.heap.msgs
      → Sized m n w
      → Sized m n w'
  kept m n w w' same s = record {
    x = s.x;
    live = ap (λ (f : Ptr → Option RandomMessage). f m.self) same ∙ s.live;
    size = s.size;
  }

  pub len-Sized :
      ServesAnd (Held self) (Live self) (λ m. m.impl.len m.self) (λ m n _ w'. Sized m n w')
  unfolding Messages.len
  len-Sized m w held h = rw h.same (
      Ends-weaken
        (λ a w' (steady, same, f, e).
          (steady, kept (handle h.p) a w w' same (record { x = h.x; live = h.live; size = e })))
        (on_message-Exact self Messages.len h.p h.x w held h.live h.its))

  pub content_type-Sized :
      ServesAnd
        (Held self)
        (Live self)
        (λ m. m.impl.content_type m.self)
        (λ m _ w w'. (n : ℕ) → Sized m n w → Sized m n w')
  content_type-Sized m w held h = rw h.same (
      Ends-weaken (λ a w' (steady, same, f, e). (steady, λ n s. kept (handle h.p) n w w' same s))
        (on_message-Exact self Messages.content_type h.p h.x w held h.live h.its))

  covered :
      (p : Ptr) (x : RandomMessage) (n : ℕ) (w : RandomWorld)
      → w.heap.msgs p ≡ some x
      → Sized (handle p) n w
      → Covers n (some x.buf)
  unfolding Covers
  covered p x n w live s =
      let same : s.x ≡ x = cc (s.live, live) in
      inr (omega (arith, s.size, ap (λ (x : RandomMessage). length x.buf) same))

  pub body-Covers :
      ServesAnd
        (Held self)
        (Live self)
        (λ m. m.impl.body m.self)
        (λ m start w _. (n : ℕ) → Sized m n w → Covers n start)
  unfolding Messages.body
  body-Covers m w held h = rw h.same (
      Ends-weaken
        (λ a w' (steady, same, f, e). (steady, λ n s. rw e (covered h.p h.x n w h.live s)))
        (on_message-Exact self Messages.body h.p h.x w held h.live h.its))
