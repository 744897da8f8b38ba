-- ===== src/Proton/Sending.antt =====
-- Outgoing messages of queues/qpid-proton.c: their address, their subject and their delivery.
use libmq.Base.{ℕ, ◌≡◌, inl, inr, Option, some, pos, if◌then◌else◌, Bool-cases, arith}
use libmq.Base.CString.{CString}
use libmq.Proton.{MessageFrame}
use libmq.Proton.Library.{Proton}
use libmq.Proton.Messages
use libmq.Proton.Messages.{is_incoming, refuse, reset}

module _ (lib : Proton) where
  open lib use {State}

  -- `pn_message_set_address` documented: on success the address can be read back.
  abbrev pub AddressReads : Type 0
  AddressReads =
      (m : ℕ) (s : Option CString) (p : State)
      → (lib.set_address m s p).0 ≡ pos 0
      → lib.get_address m (lib.set_address m s p).1 ≡ s

  -- The message that `mq_message_send` hands over, and the state in which it does.
  pub record Handed (f : MessageFrame State) (m : ℕ) (f' : MessageFrame State) : Type 0 where
    pub before : State
    pub address :
        lib.get_address m before
        ≡ (if f.message.addressed then lib.get_address m f.frame.pn else some f.frame.mq.uri)
    pub accepted : lib.put f.frame.mq.messenger m before ≡ (pos 0, f'.frame.pn)

  -- If a successful pn_message_set_address can be read back, then a send that returns 0 has handed
  -- the message to pn_messenger_put with success, and its address then was its own if one had been
  -- set and the URI of the connection if not.
  pub send-Handed :
      (reads : AddressReads) (f : MessageFrame State) {m : ℕ}
      → f.message.msg ≡ some m
      → (Messages.send lib f).0 ≡ pos 0
      → Handed f m (Messages.send lib f).1
  unfolding Messages.send
  send-Handed reads f {m} live sent = elim (Bool-cases f.message.addressed) [
    | inl own ↦ record { before = f.frame.pn; address = rw own; accepted = ground arith }
    | inr missing ↦ record {
      before = (lib.set_address m (some f.frame.mq.uri) f.frame.pn).1;
      address = rw missing (reads m (some f.frame.mq.uri) f.frame.pn (ground arith));
      accepted = ground arith;
    }
  ]

  -- `pn_message_set_content_type` documented: on success the type can be read back.
  abbrev pub TypeReads : Type 0
  TypeReads =
      (m : ℕ) (s : Option CString) (p : State)
      → (lib.set_content_type m s p).0 ≡ pos 0
      → lib.get_content_type m (lib.set_content_type m s p).1 ≡ s

  -- If a successful pn_message_set_content_type can be read back, then a set_subject that returns 0
  -- on a message makes the subject the content type of that message.
  pub content_type-set_subject :
      (reads : TypeReads) (s : Option CString) (f : MessageFrame State) {m : ℕ}
      → f.message.msg ≡ some m
      → (Messages.set_subject lib s f).0 ≡ pos 0
      → (Messages.content_type lib (Messages.set_subject lib s f).1).0 ≡ s
  unfolding Messages.set_subject Messages.content_type
  content_type-set_subject reads s f {m} live done = ground (arith, reads m s f.frame.pn)
