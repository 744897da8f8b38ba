-- ===== src/Proton/Holding.antt =====
-- A process that holds one connection and one message of queues/qpid-proton.c, and what a call
-- makes of it.
use libmq.Base.{ℕ, Bool, suc, ◌≡◌, refl, ◌∙◌, ap, false, Option, none, some, ℤ, pos, arith}
use libmq.Base.Cells.{put, get_put}
use libmq.Libc.{Libc, exhausted, after_alloc, after_free, after_free?}
use libmq.Cmd.{Cmd, ◌>>=◌, >>=-some}
use libmq.World.Locks.{idle}
use libmq.Engine.{Ptr}
use libmq.Engine.Errors.{ErrorBuffer}
use libmq.Proton.{
  ProtonMq, ProtonMessage, ProtonWorld, Frame, MessageFrame, on_mq, on_message, write_mq,
  write_message,
}
use libmq.Proton.Library.{Proton}
use libmq.Proton.Connections
use libmq.Proton.Connections.{new_mq}
use libmq.Proton.Messages
use libmq.Proton.Messages.{let_go, free_message}
use libmq.Proton.Making
use libmq.Proton.Making.{blank, make}
use libmq.Proton.Leaks.{on_mq_lem, made, construct-made}
use libmq.Proton.Settling.{on_message_lem}
use libmq.Proton.Granting.{on_connection, on_both}

-- The C library refuses no request.
abbrev pub Roomy : Libc → Type 0
Roomy c = (k : ℕ) → c.refuses k ≡ false

pub after_alloc_lem :
    (c : Libc)
    → exhausted c ≡ false
    → let c' = after_alloc c in (c'.refuses ≡ c.refuses) × (c'.blocks ≡ suc c.blocks)
unfolding after_alloc
after_alloc_lem c room = ground arith

-- The blocks in use with those of the buffer for the text of an error, if there is one.
abbrev pub with_text : {A : Type 0} → Option A → ℕ → ℕ
with_text none n = n
with_text (some _) n = suc n

freed-blocks :
    {A : Type 0} (n : ℕ) (c : Libc) (text : Option A)
    → c.blocks ≡ with_text text (suc (suc n))
    → (after_free (after_free (after_free? text c))).blocks ≡ n
unfolding after_free after_free?
freed-blocks n c none h = omega (arith, h)
freed-blocks n c (some s) h = omega (arith, h)

freed-refuses :
    {A : Type 0} (c : Libc) (text : Option A) (k : ℕ)
    → (after_free (after_free (after_free? text c))).refuses k ≡ c.refuses k
unfolding after_free after_free?
freed-refuses c none k = refl
freed-refuses c (some s) k = refl

pub Roomy-after_alloc : (c : Libc) → Roomy c → Roomy (after_alloc c)
Roomy-after_alloc c room k =
    ap (λ (r : ℕ → Bool). r k) (after_alloc_lem c (room c.requests)).0 ∙ room k

module _ (lib : Proton) (self : Ptr) where
  open lib use {State}

  -- What the process holds: the connection, the message at an address, the state of the library
  -- and the blocks in use. The allocator refuses nothing, and the lock is free.
  pub record Holds (q : Option ProtonMq) (ptr : Ptr) (m : Option ProtonMessage) (p : State) (n : ℕ)
      (w : ProtonWorld State) : Type 0 where
    pub conn : w.heap.conns self ≡ q
    pub message : w.heap.msgs ptr ≡ m
    pub pn : w.heap.pn ≡ p
    pub blocks : w.libc.blocks ≡ n
    pub room : (k : ℕ) → w.libc.refuses k ≡ false
    pub unlocked : w.enginelock ≡ idle

  -- A command that returns a result in such a process.
  abbrev pub Yields :
      {A : Type 0}
      → Option (A × ProtonWorld State)
      → A
      → (q : Option ProtonMq) (ptr : Ptr) (m : Option ProtonMessage) (p : State) (n : ℕ) → Type 0
  Yields x a q ptr m p n = (w' : ProtonWorld State) × (x ≡ some (a, w')) × Holds q ptr m p n w'

  pub bind-Yields :
      {A B : Type 0} (command : Cmd (ProtonWorld State) A) (rest : A → Cmd (ProtonWorld State) B)
      {a : A} {b : B} (w : ProtonWorld State) {q q' : Option ProtonMq} {ptr ptr' : Ptr}
      {m m' : Option ProtonMessage} {p p' : State} {n n' : ℕ}
      → Yields (command w) a q ptr m p n
      → ((w₁ : ProtonWorld State) → Holds q ptr m p n w₁ → Yields (rest a w₁) b q' ptr' m' p' n')
      → Yields ((command >>= rest) w) b q' ptr' m' p' n'
  bind-Yields command rest w (w₁, e₁, h₁) k =
      let (w₂, e₂, h₂) = k w₁ h₁ in (w₂, >>=-some command rest e₁ ∙ e₂, h₂)

  module _ {A : Type 0} {a : A} {q q' : ProtonMq} {ptr : Ptr} {p p' : State} {n : ℕ}
      (w : ProtonWorld State) where
    pub on_mq-Yields :
        (method : Frame State → A × Frame State) {m : Option ProtonMessage}
        → method (on_connection lib w.libc p q) ≡ (a, on_connection lib w.libc p' q')
        → Holds (some q) ptr m p n w
        → Yields (on_mq self method w) a (some q') ptr m p' n
    on_mq-Yields method does h = (
      write_mq self (on_connection lib w.libc p' q') w,
      on_mq_lem lib self w method h.conn
          ∙ ap (λ (x : A × Frame State). some (x.0, write_mq self x.1 w))
              (ap (λ (p : State). method (on_connection lib w.libc p q)) h.pn ∙ does),
      record {
        conn = get_put self (some q') w.heap.conns;
        message = h.message;
        pn = refl;
        blocks = h.blocks;
        room = h.room;
        unlocked = h.unlocked;
      },
    )

    pub on_message-Yields :
        (method : MessageFrame State → A × MessageFrame State) {m m' : ProtonMessage}
        → m.connection ≡ self
        → method (on_both lib w.libc p q m) ≡ (a, on_both lib w.libc p' q' m')
        → Holds (some q) ptr (some m) p n w
        → Yields (on_message ptr method w) a (some q') ptr (some m') p' n
    on_message-Yields method {m} {m'} its does h = (
      write_message ptr m.connection (on_both lib w.libc p' q' m') w,
      on_message_lem lib w ptr method h.message (ap w.heap.conns its ∙ h.conn)
          ∙ ap (λ (x : A × MessageFrame State). some (x.0, write_message ptr m.connection x.1 w))
              (ap (λ (p : State). method (on_both lib w.libc p q m)) h.pn ∙ does),
      record {
        conn =
            ap (λ (s : Ptr). put s (some q') w.heap.conns self) its
            ∙ get_put self (some q') w.heap.conns;
        message = get_put ptr (some m') w.heap.msgs;
        pn = refl;
        blocks = h.blocks;
        room = h.room;
        unlocked = h.unlocked;
      },
    )

  -- A connection whose error is clear.
  abbrev Clear : ProtonMq → Type 0
  Clear q = q.syserr ≡ 0 × q.errcode ≡ pos 0

  module _ {q : ProtonMq} {ptr : Ptr} {m : Option ProtonMessage} {p : State} {n : ℕ}
      (w : ProtonWorld State) where
    made-Holds :
        Holds (some q) ptr m p n w
        → Holds (some q) w.heap.fresh (some (blank lib self)) p (suc n) (made lib self w)
    made-Holds h =
        let (refuses, blocks) = after_alloc_lem w.libc (h.room w.libc.requests) in
        record {
          conn = h.conn;
          message = get_put w.heap.fresh (some (blank lib self)) w.heap.msgs;
          pn = h.pn;
          blocks = blocks ∙ ap suc h.blocks;
          room = λ k. rw refuses (h.room k);
          unlocked = h.unlocked;
        }

    -- A new message, whose address is not known beforehand.
    pub make-Yields :
        (method : MessageFrame State → ℤ × MessageFrame State) {m' : ProtonMessage} {p' : State}
        → (let c = after_alloc w.libc in
            method (on_both lib c p q (blank lib self)) ≡ (pos 0, on_both lib c p' q m'))
        → Holds (some q) ptr m p n w
        → (new : Ptr) × Yields
            (make lib method self w)
            (pos 0, some new)
            (some q)
            new
            (some m')
            p'
            (suc n)
    make-Yields method does h =
        let new = w.heap.fresh in
        let w₁ = made lib self w in
        let (w₂, e, h₂) = on_message-Yields w₁ method refl does (made-Holds h) in
        (
          new,
          (
            w₂,
            >>=-some (Making.construct lib self) _
                  (construct-made lib self w (h.room w.libc.requests))
                ∙ >>=-some (on_message new method) _ e,
            h₂,
          ),
        )

  -- The process behind the release of the connection.
  abbrev released : ProtonWorld State → Option ErrorBuffer → ℕ → ProtonWorld State
  released w text messenger = record w {
    libc = after_free (after_free (after_free? text w.libc));
    heap = record (w.heap) {
      conns = put self none w.heap.conns;
      pn = lib.free (some messenger) (lib.stop (some messenger) w.heap.pn);
    };
  }

  release_lem :
      (w : ProtonWorld State) {q : ProtonMq} {messenger : ℕ}
      → w.heap.conns self ≡ some q
      → q.messenger ≡ some messenger
      → Connections.release lib self w ≡ some (0, released w q.errmsg messenger)
  unfolding Connections.release Connections.disconnect_internal
  release_lem w live connected = ground arith

  module _ {q : ProtonMq} {ptr : Ptr} {p : State} {n : ℕ} (w : ProtonWorld State) where
    pub release_message-Yields :
        {m : ProtonMessage} {p' : State}
        → m.connection ≡ self
        → let_go lib (on_both lib w.libc p q m) ≡ (0, on_both lib w.libc p' q m)
        → Holds (some q) ptr (some m) p (suc n) w
        → Yields (Messages.release lib ptr w) 0 (some q) ptr none p' n
    unfolding Messages.release after_free
    release_message-Yields its does h =
        let (w₁, e, h₁) = on_message-Yields w (let_go lib) its does h in
        (
          free_message lib ptr w₁,
          >>=-some (on_message ptr (let_go lib)) _ e,
          record {
            conn = h₁.conn;
            message = get_put ptr none w₁.heap.msgs;
            pn = h₁.pn;
            blocks = omega (arith, h₁.blocks);
            room = h₁.room;
            unlocked = h₁.unlocked;
          },
        )

    pub release-Yields :
        {m : Option ProtonMessage} {messenger : ℕ}
        → q.messenger ≡ some messenger
        → Holds (some q) ptr m p (with_text q.errmsg (suc (suc n))) w
        → Yields
            (Connections.release lib self w)
            0
            none
            ptr
            m
            (lib.free (some messenger) (lib.stop (some messenger) p))
            n
    release-Yields {m} {messenger} connected h = (
      released w q.errmsg messenger,
      release_lem w h.conn connected,
      record {
        conn = get_put self none w.heap.conns;
        message = h.message;
        pn = ap (λ (p : State). lib.free (some messenger) (lib.stop (some messenger) p)) h.pn;
        blocks = freed-blocks n w.libc q.errmsg h.blocks;
        room = λ k. freed-refuses w.libc q.errmsg k ∙ h.room k;
        unlocked = h.unlocked;
      },
    )
