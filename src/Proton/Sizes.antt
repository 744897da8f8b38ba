-- ===== src/Proton/Sizes.antt =====
-- The contract of libmq-engine.h for the engine of queues/qpid-proton.c: the length of a message and
-- its body.
use libmq.Base.{ℕ, ◌≡◌, refl, ◌∙◌, sym, ap, inl, inr, none, some, arith, Option-cases}
use libmq.Cmd.Ends.{Ends-weaken}
use libmq.Engine.{Ptr, Message}
use libmq.Engine.Contract.{ServesAnd, Covers}
use libmq.Registry.Slots.{size_max}
use libmq.Proton.{ProtonMessage, ProtonWorld, MessageFrame}
use libmq.Proton.Library.{Proton}
use libmq.Proton.Messages
use libmq.Proton.Receiving.{size}
use libmq.Proton.Contract.{Held, Live, Stays, on_message-Exact}

-- The length that is reported of a message.
unfoldable pub reported : ProtonMessage → ℕ
reported x = elim x.msg [
  | none ↦ size_max
  | some _ ↦ elim x.body [ none ↦ size_max | some _ ↦ size x.bytes ]
]

module _ (lib : Proton) (self : Ptr) where
  open lib use {State}

  pub record Sized (m : Message (ProtonWorld State)) (n : ℕ) (w : ProtonWorld State) : Type 0 where
    pub x : ProtonMessage
    pub live : w.heap.msgs m.self ≡ some x
    pub size : n ≡ reported x

  len-Stays : Stays lib self (Messages.len lib)
  unfolding Messages.len
  len-Stays f = ground arith

  body-Stays : Stays lib self (Messages.body lib)
  unfolding Messages.body
  body-Stays f = ground arith

  content_type-Stays : Stays lib self (Messages.content_type lib)
  unfolding Messages.content_type
  content_type-Stays f = ground arith

  -- What the three functions return, and the message that they leave.
  len_lem :
      (f : MessageFrame State)
      → ((Messages.len lib f).0 ≡ reported f.message) × ((Messages.len lib f).1.message ≡ f.message)
  unfolding Messages.len Messages.size_max reported size_max
  len_lem f = ground arith

  content_type_lem : (f : MessageFrame State) → (Messages.content_type lib f).1.message ≡ f.message
  unfolding Messages.content_type
  content_type_lem f = ground arith

  body_lem : (f : MessageFrame State) → Covers (reported f.message) (Messages.body lib f).0
  unfolding Messages.body Covers reported
  body_lem f = elim (Option-cases f.message.msg) [
    | inl none_made ↦ rw none_made (inr refl)
    | inr (msg, made) ↦ elim (Option-cases f.message.body) [
      | inl none_there ↦ rw (made, none_there) (inr refl)
      | inr (d, there) ↦ elim (Option-cases f.message.bytes) [
        | inl empty ↦ rw (made, there, empty) (inl refl)
        | inr (s, full) ↦ rw (made, there, full) (inr (omega arith))
      ]
    ]
  ]

  pub len-Sized :
      ServesAnd (Held lib self) (Live lib self) (λ m. m.impl.len m.self) (λ m n _ w'. Sized m n w')
  len-Sized m w held h = rw h.same (
      Ends-weaken
        (λ a w' (steady, fresh, f, same, result, at). (
          steady,
          record {
            x = (Messages.len lib f).1.message;
            live = at;
            size = result ∙ (len_lem f).0 ∙ ap reported (sym (len_lem f).1);
          },
        ))
        (on_message-Exact lib self (Messages.len lib) h.p h.x w len-Stays held h.live h.its))

  pub content_type-Sized :
      ServesAnd
        (Held lib self)
        (Live lib self)
        (λ m. m.impl.content_type m.self)
        (λ m _ w w'. (n : ℕ) → Sized m n w → Sized m n w')
  content_type-Sized m w held h = rw h.same (
      Ends-weaken
        (λ a w' (steady, fresh, f, same, result, at). (
          steady,
          λ n s.
              let it : s.x ≡ h.x = cc (s.live, h.live) in
              record {
                x = (Messages.content_type lib f).1.message;
                live = at;
                size = s.size ∙ ap reported (it ∙ sym same ∙ sym (content_type_lem f));
              },
        ))
        (on_message-Exact lib self (Messages.content_type lib) h.p h.x w content_type-Stays held
          h.live h.its))

  pub body-Covers :
      ServesAnd
        (Held lib self)
        (Live lib self)
        (λ m. m.impl.body m.self)
        (λ m start w _. (n : ℕ) → Sized m n w → Covers n start)
  body-Covers m w held h = rw h.same (
      Ends-weaken
        (λ a w' (steady, fresh, f, same, result, at). (
          steady,
          λ n s.
              let it : s.x ≡ h.x = cc (s.live, h.live) in
              let length_of : n ≡ reported f.message = s.size ∙ ap reported (it ∙ sym same) in
              rw (result, length_of) (body_lem f),
        ))
        (on_message-Exact lib self (Messages.body lib) h.p h.x w body-Stays held h.live h.its))
