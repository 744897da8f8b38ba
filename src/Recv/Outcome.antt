-- ===== src/Recv/Outcome.antt =====
-- The loop of mq-recv.c on a connection of the Proton engine, from its rounds to its end.
use libmq.Base.{
  ℕ, suc, ◌≡◌, refl, ◌∙◌, ap, sym, true, ◌&&◌, not, List, [], ◌∷◌, Option, none, some, ◌==◌,
  nonzero, if◌then◌else◌, ℤ, pos, minus_one, length,
}
use libmq.Base.CString.{CString, codes}
use libmq.Base.Cells.{get_put}
use libmq.Libc.{after_alloc}
use libmq.Cmd.{pure, ◌>>=◌, >>=-some}
use libmq.Engine.{Ptr, Mq}
use libmq.Registry.Slots.{size_max}
use libmq.Connection
use libmq.Message
use libmq.Proton.{ProtonMessage, ProtonWorld, Frame, write_mq, on_mq}
use libmq.Proton.Library.{Proton}
use libmq.Proton.Connections
use libmq.Proton.Connections.{new_mq}
use libmq.Proton.Making
use libmq.Proton.Impl.{handle}
use libmq.Proton.Leaks.{on_mq_lem}
use libmq.Proton.Granting.{on_connection}
use libmq.Proton.Receiving
use libmq.Proton.Receiving.{Subscribes, receiver, size, Fails, failed, told}
use libmq.Proton.Holding.{
  Holds, Yields, Roomy-after_alloc, after_alloc_lem, on_mq-Yields, release-Yields,
}
use libmq.Proton.Opening.{connection}
use libmq.Recv.{Report, write, receive, exited, listen}
use libmq.Recv.Rounds.{continued}
use libmq.Recv.Exchanges
use libmq.Recv.Exchanges.{Exchange, Listening}

module _ (lib : Proton) (m : ℕ) where
  open lib use {State}

  -- The messages that the library hands over, one after the other, until it fails.
  abbrev pub Receives : List Report → (e : ℤ) → (p p' : State) → Type 0
  Receives [] e p p' = Fails lib m e p × (p' ≡ lib.recv (some m) minus_one p)
  Receives (report ∷ reports) e p p' =
      (q : State) × Exchange lib m p report q × Receives reports e q p'

module _ (lib : Proton) (self : Ptr) (uri : CString) (m s : ℕ) where
  open lib use {State}

  abbrev mq : Mq (ProtonWorld State)
  mq = connection lib self

  -- A round in which a message is there.
  round_lem :
      (rounds : ℕ) {report : Report} {ptr : Ptr} {message : Option ProtonMessage} {p q : State}
      {n : ℕ} (w : ProtonWorld State)
      → Exchange lib m p report q
      → Listening lib self uri m s ptr message p n w
      → (new : Ptr) × (w' : ProtonWorld State) × (receive (suc rounds) mq w
          ≡ (receive rounds mq >>= continued report) w')
        × Listening lib self uri m s new none q n w'
  unfolding receive
  round_lem rounds {n = n} w x h =
      let (new, (w₁, e₁, h₁)) = Exchanges.next_lem lib self uri m s w x.arrives x.handover h in
      let (w₂, e₂, h₂) = Exchanges.len_lem lib self uri m s new x.msg x.tracker x.d x.bytes w₁ h₁ in
      let (w₃, e₃, h₃) =
        Exchanges.content_type_lem lib self uri m s new x.msg x.tracker x.d x.bytes w₂ h₂ in
      let (w₄, e₄, h₄) =
        Exchanges.printed_lem lib self uri m s new x.msg x.tracker x.d x.bytes w₃ h₃ x.small in
      let (w₅, e₅, h₅) =
        Exchanges.accept_lem lib self uri m s new x.msg x.tracker x.d x.bytes w₄ h₄ in
      (
        new,
        w₅,
        >>=-some (Connection.next mq) _ e₁
            ∙ >>=-some (Message.len (handle lib new)) _ e₂
            ∙ >>=-some (Message.content_type (handle lib new)) _ e₃
            ∙ >>=-some
                (if not (size x.bytes == 0) && not (size x.bytes == size_max)
                  then (do start ← Message.body (handle lib new); write (size x.bytes) start)
                  else pure none)
                _ e₄
            ∙ >>=-some (Message.accept (handle lib new)) _ e₅
            ∙ ap (λ (r : Report). (receive rounds mq >>= continued r) w₅) (sym x.printed),
        rw x.after h₅,
      )

  next_fails :
      {ptr : Ptr} {message : Option ProtonMessage} {p : State} {n : ℕ} {e : ℤ}
      (w : ProtonWorld State)
      → Fails lib m e p
      → Listening lib self uri m s ptr message p n w
      → Yields lib self
          (Connection.next mq w)
          none
          (some (failed lib e (receiver lib uri m s)))
          ptr
          message
          (lib.recv (some m) minus_one p)
          n
  unfolding Connection.next Making.next Connections.error
  next_fails {p = p} w fails h =
      let (w₁, e₁, h₁) =
        on_mq-Yields lib self w (Making.await lib)
          (Receiving.await-Fails lib uri m s w.libc p fails) h in
      let (w₂, e₂, h₂) = on_mq-Yields lib self w₁ (Connections.error lib) refl h₁ in
      (
        w₂,
        >>=-some ((connection lib self).impl.next self) _
              (>>=-some (Making.next lib self) _ (>>=-some (on_mq self (Making.await lib)) _ e₁))
            ∙ >>=-some (on_mq self (Connections.error lib)) _ e₂,
        h₂,
      )

  errmsg_lem :
      {ptr : Ptr} {message : Option ProtonMessage} {p : State} {n : ℕ} {e : ℤ}
      (w : ProtonWorld State)
      → Holds lib self (some (failed lib e (receiver lib uri m s))) ptr message p n w
      → Yields lib self
          (Connection.errmsg mq w)
          (if nonzero e then lib.error_text (some m) p else codes "Success")
          (some (told lib (failed lib e (receiver lib uri m s))))
          ptr
          message
          p
          (suc n)
  unfolding Connection.errmsg
  errmsg_lem {p = p} {e = e} w h =
      let q = told lib (failed lib e (receiver lib uri m s)) in
      let (refuses, blocks) = after_alloc_lem w.libc (h.room w.libc.requests) in
      (
        write_mq self (on_connection lib (after_alloc w.libc) p q) w,
        on_mq_lem lib self w (Connections.errmsg lib) h.conn
            ∙ ap (λ (x : CString × Frame State). some (x.0, write_mq self x.1 w))
                (ap
                    (λ (p : State).
                      Connections.errmsg lib
                        (on_connection lib w.libc p (failed lib e (receiver lib uri m s))))
                    h.pn
                  ∙ Receiving.errmsg_lem lib uri m s w.libc p e (h.room w.libc.requests)),
        record {
          conn = get_put self (some q) w.heap.conns;
          message = h.message;
          pn = refl;
          blocks = blocks ∙ ap suc h.blocks;
          room = Roomy-after_alloc w.libc h.room;
          unlocked = h.unlocked;
        },
      )

  -- The outcome of the loop: its reports, and a connection with an error and a buffer for it.
  record Ended (rounds : ℕ) (reports : List Report) (e : ℤ) (p : State) (n : ℕ)
      (w : ProtonWorld State) : Type 0 where
    ptr : Ptr
    message : Option ProtonMessage
    run :
        Yields lib self
          (receive rounds mq w)
          (true, reports)
          (some (told lib (failed lib e (receiver lib uri m s))))
          ptr
          message
          p
          (suc n)

  receive-Ended :
      (reports : List Report) {ptr : Ptr} {message : Option ProtonMessage} {p p' : State} {n : ℕ}
      {e : ℤ} (w : ProtonWorld State)
      → Receives lib m reports e p p'
      → Listening lib self uri m s ptr message p n w
      → Ended (suc (length reports)) reports e p' n w
  unfolding receive
  receive-Ended [] {ptr} {message} {n = n} {e} w (fails, after) h =
      let (w₁, e₁, h₁) = next_fails w fails h in
      let (w₂, e₂, h₂) = errmsg_lem {e = e} w₁ h₁ in
      record {
        ptr = ptr;
        message = message;
        run = (
          w₂,
          >>=-some (Connection.next mq) _ e₁ ∙ >>=-some (Connection.errmsg mq) _ e₂,
          rw after h₂,
        );
      }
  receive-Ended (report ∷ reports) w (q, exchange, rest) h =
      let (new, w₁, e₁, h₁) = round_lem (suc (length reports)) w exchange h in
      let r = receive-Ended reports w₁ rest h₁ in
      let (w₂, e₂, h₂) = r.run in
      record {
        ptr = r.ptr;
        message = r.message;
        run = (w₂, e₁ ∙ >>=-some (receive (suc (length reports)) mq) (continued report) e₂, h₂);
      }

  -- From the connection on; all blocks of the connection and its message are given back.
  pub listen-Released :
      (reports : List Report) {ptr : Ptr} {message : Option ProtonMessage} {p p' : State} {n : ℕ}
      (e : ℤ) (w : ProtonWorld State)
      → Receives lib m reports e p p'
      → Listening lib self uri m s ptr message p (suc (suc n)) w
      → (new : Ptr) × (message' : Option ProtonMessage) × Yields lib self
          (listen (suc (length reports)) mq w)
          (exited (pos 0), reports)
          none
          new
          message'
          (lib.free (some m) (lib.stop (some m) p'))
          n
  unfolding listen Connection.disconnect
  listen-Released reports e w receives h =
      let r = receive-Ended reports w receives h in
      let (w₁, e₁, h₁) = r.run in
      let (w₂, e₂, h₂) = release-Yields lib self w₁ refl h₁ in
      (
        r.ptr,
        r.message,
        (
          w₂,
          >>=-some (receive (suc (length reports)) mq) _ e₁
              ∙ >>=-some (Connection.disconnect mq) _
                  (>>=-some (Connections.release lib self) _ e₂),
          h₂,
        ),
      )
