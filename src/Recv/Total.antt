-- ===== src/Recv/Total.antt =====
-- mq-recv.c with any engine that keeps the contract of libmq-engine.h.
use libmq.Base.{
  ℕ, zero, suc, ◌≡◌, refl, ◌⊎◌, inl, inr, Bool, true, false, ◌&&◌, not, List, [], ◌∷◌, Option, none,
  some, ◌==◌, nonzero, if◌then◌else◌, pos,
}
use libmq.Base.CString.{CString}
use libmq.Cmd.{Cmd, pure, ◌>>=◌, ◌>>◌}
use libmq.Cmd.Ends.{Ends, Ends-pure, Ends-if, Ends-bind, Ends-eq, Ends-weaken}
use libmq.World.{World}
use libmq.World.Locks.{idle}
use libmq.Engine.{Mq, Message}
use libmq.Engine.Contract.{Contract}
use libmq.Registry.{Build}
use libmq.Registry.Slots.{size_max}
use libmq.Registry.Dispatch.{AllColonless}
use libmq.Connection
use libmq.Message
use libmq.Client.Safety.{LiveAt, next-Obtains}
use libmq.Client.Session.{Sound, Ends-made, connect_recv-Made}
use libmq.Recv.{Report, Status, running, exited, write, receive, listen, main}
use libmq.Recv.Rounds.{continued}
use libmq.Recv.Writing.{write-Ends}

-- A program that still runs, or has ended with the status 0 or 1.
abbrev pub IsProper : Status → Type 0
IsProper running = Unit {0}
IsProper (exited r) = (r ≡ pos 0) ⊎ (r ≡ pos 1)

module _ {W : Type 0} (connection : Mq W) where
  -- What a round does with the message that it has, if there is one, and what is left of it once
  -- the message is printed.
  abbrev behind : (n : ℕ) → Report → Cmd W (Bool × List Report)
  behind n report = receive n connection >>= continued report

  abbrev printing : (n : ℕ) → Message W → Cmd W (Bool × List Report)
  printing n msg = do
    len ← Message.len msg
    type ← Message.content_type msg
    body ←
        (if not (len == 0) && not (len == size_max)
          then (do start ← Message.body msg; write len start)
          else pure none)
    Message.accept msg
    behind n (record { type = type; len = len; body = body })

  abbrev round : (n : ℕ) → Option (Message W) → Cmd W (Bool × List Report)
  round n next = elim next [
    | none ↦ do Connection.errmsg connection; pure (true, [])
    | some msg ↦ printing n msg
  ]

  receive_lem :
      (n : ℕ) (w : W) → receive (suc n) connection w ≡ (Connection.next connection >>= round n) w
  unfolding receive
  receive_lem n w = refl

module _ {W : Type 0} (mq : Mq W) (c : Contract mq) where
  open c use {Held, Live, Sized}

  -- The loop does not lose the connection.
  abbrev Goes : Cmd W (Bool × List Report) → Type 0
  Goes k = (w : W) → Held w → Ends (k w) (λ _ w'. Held w')

  behind-Goes :
      (rounds : ℕ) (report : Report) → Goes (receive rounds mq) → Goes (behind mq rounds report)
  behind-Goes rounds report goes w held =
      Ends-bind (receive rounds mq) (continued report) (goes w held)
        λ r w₁ held₁. Ends-pure (r.0, report ∷ r.1) w₁ held₁

  -- The body has as many bytes as the length has said.
  written-Live :
      (len : ℕ) (m : Message W) (w : W)
      → (not (len == 0) && not (len == size_max)) ≡ true
      → Held w
      → Live m w
      → Sized m len w
      → Ends ((do start ← Message.body m; write len start) w) (λ _ w'. Held w' × Live m w')
  unfolding Message.body
  written-Live len m w asked held live sized =
      Ends-bind (Message.body m) (write len) (c.body m w held live)
        λ start w₁ ((held₁, still₁), covers).
          Ends-weaken (λ _ w' same. rw same (held₁, still₁ m live))
            (write-Ends len start w₁ (covers len sized) asked)

  -- A message that is there is printed and accepted.
  printing-Goes :
      (rounds : ℕ) (m : Message W) (w : W)
      → Goes (receive rounds mq)
      → Held w
      → Live m w
      → Ends (printing mq rounds m w) (λ _ w'. Held w')
  unfolding Message.len Message.content_type Message.body Message.accept
  printing-Goes rounds m w goes held live =
      Ends-bind (Message.len m) _ (c.len m w held live) λ len w₁ ((held₁, still₁), sized₁).
        Ends-bind (Message.content_type m) _ (c.content_type m w₁ held₁ (still₁ m live))
          λ type w₂ ((held₂, still₂), keeps).
            let live₂ = still₂ m (still₁ m live) in
            Ends-bind
              (if not (len == 0) && not (len == size_max)
                then (do start ← Message.body m; write len start)
                else pure none)
              _
              (Ends-if (not (len == 0) && not (len == size_max))
                (do start ← Message.body m; write len start) (pure none) w₂
                (λ asked. written-Live len m w₂ asked held₂ live₂ (keeps len sized₁))
                (λ _. Ends-pure none w₂ {Q = λ _ w'. Held w' × Live m w'} (held₂, live₂)))
              λ body w₃ (held₃, live₃).
                Ends-bind (Message.accept m) _
                  (Ends-bind (m.impl.accept m.self) (λ r. m.impl.release m.self >>= λ _. pure r)
                    (c.accept m w₃ held₃ live₃)
                    λ r w₄ (held₄, still₄).
                      Ends-bind (m.impl.release m.self) (λ _. pure r)
                        (c.message_release m w₄ held₄ (still₄ m live₃))
                        λ n w₅ (held₅, others). Ends-pure r w₅ {Q = λ _ w'. Held w'} held₅)
                  λ r w₅ held₅.
                    behind-Goes rounds (record { type = type; len = len; body = body }) goes w₅
                      held₅

  round-Goes :
      (rounds : ℕ) (next : Option (Message W)) (w : W)
      → Goes (receive rounds mq)
      → Held w
      → LiveAt mq c next w
      → Ends (round mq rounds next w) (λ _ w'. Held w')
  unfolding LiveAt Connection.errmsg
  round-Goes rounds none w goes held live =
      Ends-bind (Connection.errmsg mq) (λ _. pure (true, [])) (c.errmsg w held)
        λ text w₁ (held₁, still). Ends-pure (true, []) w₁ held₁
  round-Goes rounds (some m) w goes held live = printing-Goes rounds m w goes held live

  receive-Goes : (rounds : ℕ) → Goes (receive rounds mq)
  unfolding receive
  receive-Goes zero w held = Ends-pure (false, []) w held
  receive-Goes (suc rounds) w held = Ends-eq (receive_lem mq rounds w) (
      Ends-bind (Connection.next mq) (round mq rounds) (next-Obtains mq c w held)
        λ next w₁ ((held₁, still), live).
          round-Goes rounds next w₁ (receive-Goes rounds) held₁ live)

  -- The end of the connection, with a status.
  left :
      {A : Type 0} (a : A) (w : W) {Q : A → Type 0}
      → Held w
      → Q a
      → Ends ((do Connection.disconnect mq; pure a) w) (λ a w'. Q a)
  unfolding Connection.disconnect
  left a w {Q} held h =
      Ends-bind (do mq.impl.release mq.self; pure (pos 0)) (λ _. pure a) {w = w}
        {P = λ _ _. Unit {0}}
        (Ends-bind (mq.impl.release mq.self) (λ _. pure (pos 0)) (c.release w held)
          λ n w₁ u. Ends-pure (pos 0) w₁ u)
        λ r w₂ u. Ends-pure a w₂ h

  listen-Proper : (rounds : ℕ) (w : W) → Held w → Ends (listen rounds mq w) (λ r _. IsProper r.0)
  unfolding listen
  listen-Proper rounds w held =
      Ends-bind (receive rounds mq) _ (receive-Goes rounds w held) λ (ended, reports) w₁ held₁.
        Ends-if ended (do Connection.disconnect mq; pure (exited (pos 0), reports))
          (pure (running, reports)) w₁
          (λ _. left (exited (pos 0), reports) w₁ {Q = λ r. IsProper r.0} held₁ (inl refl))
          (λ _. Ends-pure (running, reports) w₁ tt)

module _ {E : Type 0} (b : Build E (Mq (World E))) (uri : CString) (sound : Sound b uri)
    (w : World E) (ready : w.initialised ≡ true) (free : w.enginelock ≡ idle)
    (plain : AllColonless w.engines) where
  -- With constructors that make, if anything, connections of engines that keep the contract of
  -- `Engine.Contract`, by which the body of a message has at least the bytes that mq_message_len
  -- says unless that is 0 or (size_t) -1, in an initialised process with a free lock and schemes
  -- without a colon, mq-recv with one URI has a result for each number of rounds: it is still
  -- running after them, or it has ended with the status 0 or 1. So it reads no freed object, and no
  -- byte outside of a body.
  pub main-Proper : (rounds : ℕ) → Ends (main b rounds (uri ∷ []) w) (λ r _. IsProper r.0)
  unfolding main Connection.error Connection.errmsg
  main-Proper rounds =
      Ends-bind (Connection.connect_recv b uri none none) _
        (connect_recv-Made b uri sound w ready free plain)
        λ connected w₁ h.
          Ends-made connected _ _ w₁ h (Ends-pure (exited (pos 1), []) w₁ (inr refl))
            λ mq c by_heap held.
              Ends-bind (Connection.error mq) _ (c.error w₁ held) λ failed w₂ (held₂, still₂).
                Ends-if (nonzero failed)
                  (do Connection.errmsg mq; Connection.disconnect mq; pure (exited (pos 1), []))
                  (listen rounds mq) w₂
                  (λ _.
                    Ends-bind (Connection.errmsg mq) _ (c.errmsg w₂ held₂)
                      λ text w₃ (held₃, still₃).
                        left mq c (exited (pos 1), []) w₃ {Q = λ r. IsProper r.0} held₃ (inr refl))
                  (λ _. listen-Proper mq c rounds w₂ held₂)
