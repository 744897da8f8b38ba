-- ===== src/Send/Outcome.antt =====
-- mq-send.c on a connection of any engine that keeps the contract of libmq-engine.h.
use libmq.Base.{
  ◌≡◌, refl, ◌∙◌, ◌⊎◌, inl, inr, false, List, [], Option, none, some, nonzero, if◌then◌else◌, ℤ,
  pos, arith, Bool-cases,
}
use libmq.Base.CString.{CString}
use libmq.Libc.{after_free}
use libmq.Cmd.{Cmd, pure, ◌>>=◌, ◌>>◌, >>=-some}
use libmq.Cmd.Ends.{Ends, Ends-pure, Ends-if, Ends-bind, Ends-eq}
use libmq.World.{World}
use libmq.Engine.{Mq, Message}
use libmq.Engine.Contract.{Contract, Steady, Keeps}
use libmq.Connection
use libmq.Message
use libmq.Client.Safety.{LiveAt, message_create-Obtains}
use libmq.Client.Session.{ByHeap}
use libmq.Send.{optionally, read_input, finish, send_message}
use libmq.Send.Input.{AllShort, read_input-Reads}
use libmq.Send.Memory.{read_input-Kept}

abbrev pub IsStatus : ℤ → Type 0
IsStatus r = (r ≡ pos 0) ⊎ (r ≡ pos 1)

module _ {E : Type 0} where
  -- On a connection without an error and with the input read, mq_message_create returned NULL.
  pub record NoMessage (mq : Mq (World E)) (chunks : List CString) (w : World E) : Type 0 where
    pub status : ℤ
    pub asked : World E
    pub error_free : Connection.error mq w ≡ some (status, asked)
    pub zero_status : nonzero status ≡ false
    pub buffer : CString
    pub before : World E
    pub input : read_input chunks 0 [] asked ≡ some (some buffer, before)
    pub after : World E
    pub missing : Connection.message_create mq before ≡ some (none, after)

  -- A status of 0 or 1; or else no result, for the reason that is named.
  abbrev pub Outcome : Type 0 → Option (ℤ × World E) → Type 0
  Outcome S x = Ends x (λ r _. IsStatus r) ⊎ (x ≡ none) × S

  pub Outcome-eq : {S : Type 0} {x y : Option (ℤ × World E)} → x ≡ y → Outcome S y → Outcome S x
  Outcome-eq same (inl e) = inl (Ends-eq same e)
  Outcome-eq same (inr (stuck, n)) = inr (same ∙ stuck, n)

  pub Outcome-weaken :
      {S S' : Type 0} {x : Option (ℤ × World E)} → (S → S') → Outcome S x → Outcome S' x
  Outcome-weaken f (inl e) = inl e
  Outcome-weaken f (inr (stuck, s)) = inr (stuck, f s)

  Outcome-bind :
      {A S : Type 0} (m : Cmd (World E) A) (k : A → Cmd (World E) ℤ) {w : World E}
      {P : A → World E → Type 0}
      → Ends (m w) P
      → ((a : A) (w₁ : World E) → m w ≡ some (a, w₁) → P a w₁ → Outcome S (k a w₁))
      → Outcome S ((m >>= k) w)
  Outcome-bind m k e rest = Outcome-eq (>>=-some m k e.run) (rest e.result e.after e.run e.holds)

  -- The session on a connection.
  abbrev pub rest :
      Mq (World E) → (type subj : Option CString) (chunks : List CString) → Cmd (World E) ℤ
  rest mq type subj chunks = do
    failed ← Connection.error mq
    if nonzero failed then (do Connection.errmsg mq; Connection.disconnect mq; pure (pos 1)) else do
      input ← read_input chunks 0 []
      elim input [ none ↦ pure (pos 1) | some buffer ↦ send_message mq type subj buffer ]

  module _ (mq : Mq (World E)) (c : Contract mq) (by_heap : ByHeap c) where
    open c use {Held, Live}

    -- `mq_errmsg`, and the status 1.
    failed :
        (w : World E)
        → Held w
        → Ends ((do Connection.errmsg mq; pure (pos 1)) w) (λ r _. IsStatus r)
    unfolding Connection.errmsg
    failed w held =
        Ends-bind (Connection.errmsg mq) (λ _. pure (pos 1)) (c.errmsg w held)
          λ text w₁ (held₁, still). Ends-pure (pos 1) w₁ (inr refl)

    error-Keeps : Keeps Held Live (Connection.error mq)
    unfolding Connection.error
    error-Keeps w held = c.error w held

    -- The end of the connection, with a status.
    left :
        (r : ℤ) (w : World E)
        → Held w
        → IsStatus r
        → Ends ((do Connection.disconnect mq; pure r) w) (λ r _. IsStatus r)
    unfolding Connection.disconnect
    left r w held h =
        Ends-bind (do mq.impl.release mq.self; pure (pos 0)) (λ _. pure r) {w = w}
          {P = λ _ _. Unit {0}}
          (Ends-bind (mq.impl.release mq.self) (λ _. pure (pos 0)) (c.release w held)
            λ n w₁ u. Ends-pure (pos 0) w₁ u)
          λ n w₂ u. Ends-pure r w₂ h

    -- A text is set, or there is none.
    set :
        (method : Message (World E) → Option CString → Cmd (World E) ℤ) (m : Message (World E))
        (s : Option CString) (w : World E)
        → ((s : Option CString) → Ends (method m s w) (λ _ w'. Steady Held Live w w'))
        → Held w
        → Ends (optionally method m s w) (λ _ w'. Steady Held Live w w')
    set method m none w does held = Ends-pure (pos 0) w (held, λ o h. h)
    set method m (some s) w does held = does (some s)

    -- The message is freed, then the buffer, then the connection.
    closed :
        (m : Message (World E)) (w : World E)
        → Held w
        → Live m w
        → Ends
            ((do
              Message.free m
              λ w. some (tt {0}, record w { libc = after_free w.libc })
              Connection.disconnect mq
              pure (pos 0))
              w)
            (λ r _. IsStatus r)
    unfolding Message.free
    closed m w held live =
        Ends-bind (do m.impl.release m.self; pure (pos 0)) _
          (Ends-bind (m.impl.release m.self) (λ _. pure (pos 0)) (c.message_release m w held live)
            λ n w₁ (held₁, others). Ends-pure (pos 0) w₁ {Q = λ _ w'. Held w'} held₁)
          λ r w₁ held₁.
            left (pos 0) (record w₁ { libc = after_free w₁.libc })
              (by_heap w₁ (record w₁ { libc = after_free w₁.libc }) refl held₁) (inl refl)

    finish-Ends :
        (m : Message (World E)) (type subj : Option CString) (buffer : CString) (w : World E)
        → Held w
        → Live m w
        → Ends (finish mq m type subj buffer w) (λ r _. IsStatus r)
    unfolding finish Message.set_subject Message.set_type Message.add_bytes Message.send
        Connection.deliver
    finish-Ends m type subj buffer w held live =
        Ends-bind (optionally Message.set_subject m subj) _
          (set Message.set_subject m subj w (λ s. c.set_subject s m w held live) held)
          λ r₁ w₁ (held₁, still₁).
            let live₁ = still₁ m live in
            Ends-bind (optionally Message.set_type m type) _
              (set Message.set_type m type w₁ (λ s. c.set_type s m w₁ held₁ live₁) held₁)
              λ r₂ w₂ (held₂, still₂).
                let live₂ = still₂ m live₁ in
                Ends-bind (Message.add_bytes m buffer) _ (c.add_bytes buffer m w₂ held₂ live₂)
                  λ added w₃ (held₃, still₃).
                    Ends-if (nonzero added) _ _ w₃ (λ _. failed w₃ held₃)
                      λ _.
                        Ends-bind (Message.send m) _ (c.send m w₃ held₃ (still₃ m live₂))
                          λ sent w₄ (held₄, still₄).
                            Ends-if (nonzero sent) _ _ w₄ (λ _. failed w₄ held₄)
                              λ _.
                                Ends-bind (Connection.deliver mq) _ (c.deliver w₄ held₄)
                                  λ delivered w₅ (held₅, still₅).
                                    Ends-if (nonzero delivered) _ _ w₅ (λ _. failed w₅ held₅)
                                      λ _. closed m w₅ held₅ (still₅ m (still₄ m (still₃ m live₂)))

    -- From the message on: there is one, or the engine has made none.
    message_lem :
        (made : Option (Message (World E))) (type subj : Option CString) (buffer : CString)
        (w w₁ : World E)
        → Connection.message_create mq w ≡ some (made, w₁)
        → Held w₁
        → LiveAt mq c made w₁
        → Outcome
            ((after : World E) × (Connection.message_create mq w ≡ some (none, after)))
            (send_message mq type subj buffer w)
    unfolding send_message LiveAt
    message_lem none type subj buffer w w₁ e held₁ live =
        inr (>>=-some (Connection.message_create mq) _ e, (w₁, e))
    message_lem (some m) type subj buffer w w₁ e held₁ live = inl (
        Ends-eq (>>=-some (Connection.message_create mq) _ e)
          (finish-Ends m type subj buffer w₁ held₁ live))

    send_message-Outcome :
        (type subj : Option CString) (buffer : CString) (w : World E)
        → Held w
        → Outcome
            ((after : World E) × (Connection.message_create mq w ≡ some (none, after)))
            (send_message mq type subj buffer w)
    send_message-Outcome type subj buffer w held =
        let e = message_create-Obtains mq c w held in
        message_lem e.result type subj buffer w e.after e.run e.holds.0.0 e.holds.1

    -- The input is read, and the connection is still live.
    read-Ends :
        (chunks : List CString) (w : World E)
        → AllShort chunks
        → Held w
        → Ends (read_input chunks 0 [] w) (λ _ w'. Held w')
    read-Ends chunks w short held =
        let r = read_input-Reads chunks 0 [] w short (omega arith) in
        let k = read_input-Kept chunks 0 [] w {input = r.input} r.run in
        record {
          result = r.input;
          after = r.after;
          run = r.run;
          holds = by_heap w r.after k.heap held;
        }

    sent :
        (input : Option CString) (type subj : Option CString) (chunks : List CString)
        (w w₁ w₂ : World E) (status : ℤ)
        → Connection.error mq w ≡ some (status, w₁)
        → nonzero status ≡ false
        → read_input chunks 0 [] w₁ ≡ some (input, w₂)
        → Held w₂
        → Outcome (NoMessage mq chunks w) (
            (elim input as (λ (input : Option CString). Cmd (World E) ℤ) [
              | none ↦ pure (pos 1)
              | some buffer ↦ send_message mq type subj buffer
            ])
              w₂)
    sent none type subj chunks w w₁ w₂ status asked good read held =
        inl (Ends-pure (pos 1) w₂ (inr refl))
    sent (some buffer) type subj chunks w w₁ w₂ status asked good read held =
        Outcome-weaken
          (λ (after, missing). record {
            status = status;
            asked = w₁;
            error_free = asked;
            zero_status = good;
            buffer = buffer;
            before = w₂;
            input = read;
            after = after;
            missing = missing;
          })
          (send_message-Outcome type subj buffer w₂ held)

    pub rest-Outcome :
        (type subj : Option CString) (chunks : List CString) (w : World E)
        → AllShort chunks
        → Held w
        → Outcome (NoMessage mq chunks w) (rest mq type subj chunks w)
    unfolding Connection.errmsg
    rest-Outcome type subj chunks w short held =
        Outcome-bind (Connection.error mq) _ (error-Keeps w held) λ r w₁ asked (held₁, still₁).
          elim (Bool-cases (nonzero r)) [
            | inl bad ↦ rw bad (
                inl (
                  Ends-bind (Connection.errmsg mq) _ (c.errmsg w₁ held₁)
                    λ text w₂ (held₂, still₂). left (pos 1) w₂ held₂ (inr refl)))
            | inr good ↦
                let read = read-Ends chunks w₁ short held₁ in
                rw good (
                  Outcome-eq (>>=-some (read_input chunks 0 []) _ read.run) (
                    sent read.result type subj chunks w w₁ read.after r asked good read.run
                      read.holds))
          ]
