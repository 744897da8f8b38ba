-- ===== src/Random/ErrorTexts.antt =====
-- `mq_errmsg` on the random engine: the text, and the buffer that holds it.
use libmq.Base.{
  ℕ, zero, suc, ◌+◌, ◌≤◌, ◌<◌, ◌≡◌, ◌⊎◌, refl, Option, none, some, List, true, false, [], ◌∷◌, ◌++◌,
  ◌==◌, nonzero, pos, arith, length, take, Bool-cases, Option-cases, inl, inr,
}
use libmq.Base.CString.{CString, codes}
use libmq.Base.Decimal.{decimal_int}
use libmq.Libc.{exhausted, after_alloc}
use libmq.Engine.Errors.{ErrorBuffer}
use libmq.Random.{Frame, update}
use libmq.Random.Connections
use libmq.Random.Messages
use libmq.Random.Errors.{Call, connects_recv, perform}
use libmq.Random.Connections.{describe, errbuf_len}
use libmq.Random.Partitions.{owned}

pub errmsg-blocks :
    (f : Frame)
    → let f' = (Connections.errmsg f).1 in
      f'.libc.blocks + owned f.mq.errmsg ≡ f.libc.blocks + owned f'.mq.errmsg
unfolding Connections.errmsg describe after_alloc
errmsg-blocks f = ground arith

length-take : (n : ℕ) (s : CString) → length (take n s) ≤ n
length-take zero s = omega arith
length-take (suc n) [] = omega arith
length-take (suc n) (c ∷ s) = omega (arith, length-take n s)

abbrev pub no_memory : CString
no_memory = codes "Memory allocation error obtaining error message"

-- The buffer that a connection has, if it has one, is as long as the size that is given with it,
-- and the text in it stands within it with its NUL.
abbrev pub Fits : Option ErrorBuffer → Type 0
Fits none = Unit {0}
Fits (some b) = (errbuf_len ≤ b.size) × (length b.text < b.size)

describe-Fits :
    (b : ErrorBuffer) (f : Frame) → errbuf_len ≤ b.size → Fits (describe b f).1.mq.errmsg
unfolding describe
describe-Fits b f long = elim (Bool-cases (f.mq.syserr == 0)) [
  | inr system ↦
      rw (system, describe)
        (long, omega (arith, long, length-take 127 (f.libc.strerror f.mq.syserr)))
  | inl other ↦ elim (Bool-cases (nonzero f.mq.errcode)) [
    | inl failed ↦
        rw (other, failed, describe)
          (
            long,
            omega (
              arith,
              long,
              length-take 127 (codes "Unknown error #" ++ decimal_int f.mq.errcode),
            ),
          )
    | inr fine ↦ rw (other, fine, describe) (long, omega (arith, long))
  ]
]

-- The three ways of `mq_random_errmsg_`.
abbrev granted : ErrorBuffer
granted = record { size = errbuf_len; text = [] }

errmsg_there :
    (f : Frame) {b : ErrorBuffer} → f.mq.errmsg ≡ some b → Connections.errmsg f ≡ describe b f
unfolding Connections.errmsg
errmsg_there f buffer = rw (buffer, Connections.errmsg) refl

errmsg_full :
    (f : Frame)
    → f.mq.errmsg ≡ none
    → exhausted f.libc ≡ true
    → Connections.errmsg f ≡ (no_memory, record f { libc = after_alloc f.libc })
unfolding Connections.errmsg
errmsg_full f none_yet full = ground (arith, none_yet, full)

errmsg_granted :
    (f : Frame)
    → f.mq.errmsg ≡ none
    → exhausted f.libc ≡ false
    → Connections.errmsg f ≡ describe granted (record f { libc = after_alloc f.libc })
unfolding Connections.errmsg
errmsg_granted f none_yet room = ground (arith, none_yet, room)

errmsg-Fits : (f : Frame) → Fits f.mq.errmsg → Fits (Connections.errmsg f).1.mq.errmsg
errmsg-Fits f h = elim (Option-cases f.mq.errmsg) [
  | inr (b, buffer) ↦
      let long : Fits (some b) = rw buffer at h in
      rw (errmsg_there f buffer) (describe-Fits b f long.0)
  | inl none_yet ↦ elim (Bool-cases (exhausted f.libc)) [
    | inl full ↦ rw (errmsg_full f none_yet full) h
    | inr room ↦
        rw (errmsg_granted f none_yet room)
          (describe-Fits granted (record f { libc = after_alloc f.libc }) (omega arith))
  ]
]

-- What a program does with a connection: calls, and requests for the text of the error.
pub data Turn : Type 0 where
  performs : Call → Turn
  asks : Turn

unfoldable pub turns : List Turn → Frame → Frame
turns [] f = f
turns (performs c ∷ ts) f = turns ts (perform c f).1
turns (asks ∷ ts) f = turns ts (Connections.errmsg f).1

perform-errmsg : (c : Call) (f : Frame) → (perform c f).1.mq.errmsg ≡ f.mq.errmsg
unfolding perform Connections.connect_recv Connections.connect_send Connections.disconnect
    Connections.deliver Connections.create Messages.accept Messages.reject Messages.pass
    Messages.send Messages.set_type Messages.set_subject Messages.set_address Messages.add_bytes
perform-errmsg connects_recv f = ground arith
perform-errmsg c f = ground arith

turns_keep : (ts : List Turn) (f : Frame) → Fits f.mq.errmsg → Fits (turns ts f).mq.errmsg
unfolding turns
turns_keep [] f h = h
turns_keep (performs c ∷ ts) f h = turns_keep ts (perform c f).1 (rw (perform-errmsg c f) h)
turns_keep (asks ∷ ts) f h = turns_keep ts (Connections.errmsg f).1 (errmsg-Fits f h)

-- On a connection of the random engine without an error buffer, after any list of calls that
-- connect, disconnect, deliver or create, or that settle, send or change a message, and of requests
-- for the text of the error, whatever the allocator answers and whatever texts the system has, the
-- connection has either no error buffer, or one that was allocated with at least the MQ_ERRBUF_LEN
-- bytes that strerror_r and snprintf are told of, and whose text ends, with its NUL, within it.
pub turns-Fits : (ts : List Turn) (f : Frame) → f.mq.errmsg ≡ none → Fits (turns ts f).mq.errmsg
turns-Fits ts f none_yet = turns_keep ts f (rw none_yet tt)

describe-success :
    (b : ErrorBuffer) (f : Frame)
    → (Connections.error f).0 ≡ pos 0
    → describe b f
      ≡ (codes "Success", update (λ c. record c { errmsg = some (record b { text = [] }) }) f)
unfolding describe Connections.error
describe-success b f fine = ground arith

-- The text without an error: with the buffer that is there, with one that the allocator has
-- granted, and without one, since the allocator has refused it.
abbrev pub Succeeds : Frame → CString × Frame → Type 0
Succeeds f (text, f') =
    ((b : ErrorBuffer) × (f.mq.errmsg ≡ some b)
      × (text ≡ codes "Success")
      × (f'.mq.errmsg ≡ some (record b { text = [] }))
      × (f'.libc ≡ f.libc))
    ⊎ ((f.mq.errmsg ≡ none)
        × (exhausted f.libc ≡ false)
        × (text ≡ codes "Success")
        × (f'.mq.errmsg ≡ some (record { size = errbuf_len; text = [] }))
        × (f'.libc ≡ after_alloc f.libc))
    ⊎ ((f.mq.errmsg ≡ none)
        × (exhausted f.libc ≡ true)
        × (text ≡ no_memory)
        × (f'.mq.errmsg ≡ none)
        × (f'.libc ≡ after_alloc f.libc))

-- When mq_error is 0 on a connection of the random engine, mq_errmsg either returns Success with
-- the buffer of the connection emptied and asks the allocator for nothing; or, without a buffer and
-- with a request that is granted, returns Success with a new empty buffer of MQ_ERRBUF_LEN bytes;
-- or, without a buffer and with a request that is refused, returns the text about memory with no
-- buffer still.
pub errmsg-Succeeds :
    (f : Frame) → (Connections.error f).0 ≡ pos 0 → Succeeds f (Connections.errmsg f)
unfolding Connections.error
errmsg-Succeeds f fine = elim (Option-cases f.mq.errmsg) [
  | inr (b, buffer) ↦
      rw (errmsg_there f buffer, describe-success b f fine) (inl (b, buffer, refl, refl, refl))
  | inl none_yet ↦ elim (Bool-cases (exhausted f.libc)) [
    | inl full ↦ rw (errmsg_full f none_yet full) (inr (inr (none_yet, full, refl, none_yet, refl)))
    | inr room ↦
        let f₁ : Frame = record f { libc = after_alloc f.libc } in
        rw (errmsg_granted f none_yet room, describe-success granted f₁ fine)
          (inr (inl (none_yet, room, refl, refl, refl)))
  ]
]
