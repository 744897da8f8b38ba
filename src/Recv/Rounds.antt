-- ===== src/Recv/Rounds.antt =====
-- The rounds of mq-recv.c on a connection of the random engine.
use libmq.Base.{
  ℕ, suc, ◌+◌, ◌≡◌, refl, sym, ◌∙◌, ap, Bool, true, false, ◌&&◌, not, List, ◌∷◌, Option, none, some,
  ◌==◌, pos, arith, length, if◌then◌else◌,
}
use libmq.Base.CString.{CString}
use libmq.Base.Cells.{get_put}
use libmq.Base.Decimal.{decimal, length-decimal, decimal-pos}
use libmq.Libc.{Libc, exhausted, after_alloc, after_free, random}
use libmq.Cmd.{Cmd, pure, ◌>>=◌, >>=-some}
use libmq.Engine.{Ptr}
use libmq.Engine.Errors.{ErrorBuffer, reset_error}
use libmq.Registry.Slots.{size_max}
use libmq.Connection
use libmq.Message
use libmq.Random.{RandomMq, RandomMessage, RandomWorld, Frame, update, write_mq, on_message}
use libmq.Random.Messages
use libmq.Random.Messages.{draw}
use libmq.Random.Receiving.{upcoming, draw-decimal, after_next, arrived, next-arrived}
use libmq.Random.Partitions.{owned}
use libmq.Random.Sessions.{
  handle, connection, frame, on_message_lem, accept-settled, freed, next_lem, upcoming-after_alloc,
}
use libmq.Recv.{Report, write, receive}
use libmq.Recv.Writing.{write_all}

-- What is printed for a random number.
abbrev pub shown : ℕ → Report
shown n = record { type = none; len = length (decimal n); body = some (decimal n) }

-- The C library behind a round: a block came and went, and a number was drawn.
abbrev pub after_round : Libc → Libc
after_round c = after_free (draw (after_alloc c)).1

-- The message at an address while it is read.
record Holds (p : Ptr) (m : RandomMessage) (c : Libc) (errmsg : Option ErrorBuffer)
    (w : RandomWorld) : Type 0 where
  live : w.heap.msgs p ≡ some m
  libc : w.libc ≡ c
  mq : RandomMq
  owner : w.heap.conns m.connection ≡ some mq
  kept : mq.errmsg ≡ errmsg

-- A function that only reads the message.
read_keeps :
    {A : Type 0} (p : Ptr) {m : RandomMessage} {c : Libc} {errmsg : Option ErrorBuffer}
    (method : RandomMessage → Frame → A × Frame) (r : A)
    → ((f : Frame) → method m f ≡ (r, update reset_error f))
    → (w : RandomWorld) → Holds p m c errmsg w
    → (w' : RandomWorld) × (on_message p method w ≡ some (r, w')) × Holds p m c errmsg w'
read_keeps {A} p {m} method r reads w h =
    let f = update reset_error (frame w h.mq) in
    (
      write_mq m.connection f w,
      on_message_lem w p h.live h.owner method
          ∙ ap (λ (x : A × Frame). some (x.0, write_mq m.connection x.1 w)) (reads (frame w h.mq)),
      record {
        live = h.live;
        libc = h.libc;
        mq = f.mq;
        owner = get_put m.connection (some f.mq) w.heap.conns;
        kept = h.kept;
      },
    )

-- The calls of `main` on the message that holds the text of a number.
module _ (p self : Ptr) (c₀ : Libc) (c : Libc) (errmsg : Option ErrorBuffer) (w : RandomWorld)
    (h : Holds p (arrived self c₀) c errmsg w) where
  len_keeps :
      (w' : RandomWorld) × (Message.len (handle p) w ≡ some (length (draw c₀).0, w'))
      × Holds p (arrived self c₀) c errmsg w'
  unfolding Message.len Messages.len
  len_keeps = read_keeps p Messages.len (length (draw c₀).0) (λ f. refl) w h

  content_type_keeps :
      (w' : RandomWorld) × (Message.content_type (handle p) w ≡ some (none, w'))
      × Holds p (arrived self c₀) c errmsg w'
  unfolding Message.content_type Messages.content_type
  content_type_keeps = read_keeps p Messages.content_type none (λ f. refl) w h

  body_keeps :
      (w' : RandomWorld) × (Message.body (handle p) w ≡ some (some (draw c₀).0, w'))
      × Holds p (arrived self c₀) c errmsg w'
  unfolding Message.body Messages.body
  body_keeps = read_keeps p Messages.body (some (draw c₀).0) (λ f. refl) w h

  accept_keeps :
      (w' : RandomWorld) × (Message.accept (handle p) w ≡ some (pos 0, w'))
      × (w'.libc ≡ after_free c)
      × (q : RandomMq) × (w'.heap.conns self ≡ some q)
      × (q.errmsg ≡ errmsg)
  unfolding Messages.accept
  accept_keeps =
      let m = arrived self c₀ in
      let f = update reset_error (frame w h.mq) in
      (
        freed p m f w,
        accept-settled w p {m = m} {q = h.mq} h.live h.owner,
        ap after_free h.libc,
        f.mq,
        get_put self (some f.mq) w.heap.conns,
        h.kept,
      )

drawn : (c : Libc) → (draw (after_alloc c)).0 ≡ decimal (upcoming c)
drawn c = draw-decimal (after_alloc c) ∙ ap decimal (upcoming-after_alloc c)

-- The length of a numeral is neither 0 nor `(size_t) -1`.
printable :
    (c : Libc)
    → let n = length (draw (after_alloc c)).0 in (not (n == 0) && not (n == size_max)) ≡ true
unfolding size_max
printable c = rw (drawn c) (ground (arith, decimal-pos (upcoming c), length-decimal (upcoming c)))

after_round-blocks : (c : Libc) → exhausted c ≡ false → (after_round c).blocks ≡ c.blocks
unfolding draw random after_alloc after_free
after_round-blocks c room = ground arith

-- A round uses up one request and one random number.
pub after_round_lem :
    (c : Libc)
    → exhausted c ≡ false
    → let c' = after_round c in
      (c'.refuses ≡ c.refuses)
      × (c'.requests ≡ suc c.requests)
      × (c'.sequence ≡ c.sequence)
      × (c'.seed ≡ c.seed)
      × (c'.drawn ≡ suc c.drawn)
unfolding draw random after_alloc after_free
after_round_lem c room = ground arith

-- A connection in use, whose blocks are its error buffer and `base` others.
pub record Listening (base : ℕ) (self : Ptr) (w : RandomWorld) : Type 0 where
  pub mq : RandomMq
  pub live : w.heap.conns self ≡ some mq
  pub blocks : w.libc.blocks ≡ base + owned mq.errmsg

-- What a round makes of the outcome of the rounds behind it.
abbrev pub continued : {W : Type 0} → Report → Bool × List Report → Cmd W (Bool × List Report)
continued report (ended, reports) = pure (ended, report ∷ reports)

module _ (cluster_partition : Option ℕ → Option CString) (self : Ptr) where
  -- One round prints the next random number, and leaves the connection as it was.
  pub round :
      (n base : ℕ) (w : RandomWorld)
      → Listening base self w
      → exhausted w.libc ≡ false
      → (w' : RandomWorld) × (receive (suc n) (connection cluster_partition self) w
          ≡ (receive n (connection cluster_partition self) >>= continued (shown (upcoming w.libc)))
              w')
        × (w'.libc ≡ after_round w.libc)
        × Listening base self w'
  unfolding receive
  round n base w listening room =
      let mq = connection cluster_partition self in
      let c₀ = after_alloc w.libc in
      let p = w.heap.fresh in
      let t = (draw c₀).0 in
      let q = listening.mq in
      let w₁ = after_next self w in
      let (w₂, e₂, h₂) = len_keeps p self c₀ (draw c₀).1 q.errmsg w₁ (record {
        live = get_put p (some (arrived self c₀)) w.heap.msgs;
        libc = refl;
        mq = q;
        owner = listening.live;
        kept = refl;
      }) in
      let (w₃, e₃, h₃) = content_type_keeps p self c₀ (draw c₀).1 q.errmsg w₂ h₂ in
      let (w₄, e₄, h₄) = body_keeps p self c₀ (draw c₀).1 q.errmsg w₃ h₃ in
      let (w₅, e₅, libc, q', live, kept) = accept_keeps p self c₀ (draw c₀).1 q.errmsg w₄ h₄ in
      let shows : (if not (length t == 0) && not (length t == size_max)
              then (do start ← Message.body (handle p); write (length t) start)
              else pure none)
            w₃
          ≡ some (some t, w₄) =
        rw (printable w.libc)
          (>>=-some (Message.body (handle p)) (write (length t)) e₄ ∙ write_all t w₄) in
      (
        w₅,
        >>=-some (Connection.next mq) _
              (next_lem cluster_partition self w (next-arrived self w room))
            ∙ >>=-some (Message.len (handle p)) _ e₂
            ∙ >>=-some (Message.content_type (handle p)) _ e₃
            ∙ >>=-some
                (if not (length t == 0) && not (length t == size_max)
                  then (do start ← Message.body (handle p); write (length t) start)
                  else pure none)
                _ shows
            ∙ >>=-some (Message.accept (handle p)) _ e₅
            ∙ ap
                (λ (s : CString).
                  (receive n mq
                      >>= continued (record { type = none; len = length s; body = some s }))
                    w₅)
                (drawn w.libc),
        libc,
        record {
          mq = q';
          live = live;
          blocks =
              ap (λ (c : Libc). c.blocks) libc
              ∙ after_round-blocks w.libc room
              ∙ listening.blocks
              ∙ ap (λ (e : Option ErrorBuffer). base + owned e) (sym kept);
        },
      )
