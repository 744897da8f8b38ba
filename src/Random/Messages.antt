-- ===== src/Random/Messages.antt =====
-- The functions of `mq_random_message_impl_`, and the functions of the connection that make or
-- need a message.
use libmq.Base.{
  ℕ, suc, Bool, true, false, [], ◌∷◌, Option, none, some, not, if◌then◌else◌, ℤ, pos, minus_one,
  take, length,
}
use libmq.Base.Cells.{put}
use libmq.Base.CString.{CString, codes}
use libmq.Base.Decimal.{decimal}
use libmq.Libc.{Libc, exhausted, after_alloc, after_free, after_free?, random, eperm, einval}
use libmq.Cmd.{Cmd, pure, ◌>>=◌}
use libmq.Engine.{Ptr, MqMsgKind, outgoing, incoming}
use libmq.Engine.Errors.{reset_error, set_from_errno}
use libmq.Random.{RandomMessage, RandomWorld, Frame, update, fail, on_mq, on_message}

abbrev pub is_incoming : MqMsgKind → Bool
is_incoming incoming = true
is_incoming outgoing = false

-- `mq_random_message_kind_`
unfoldable pub kind : RandomMessage → Frame → MqMsgKind × Frame
kind m f = (m.kind, update reset_error f)

-- `mq_random_message_accept_`, `mq_random_message_reject_` and `mq_random_message_pass_`
unfoldable pub accept : RandomMessage → Frame → ℤ × Frame
accept m f =
    let f₁ = update reset_error f in
    if not (is_incoming m.kind) then fail einval f₁ else (pos 0, f₁)

unfoldable pub reject : RandomMessage → Frame → ℤ × Frame
reject m f =
    let f₁ = update reset_error f in
    if not (is_incoming m.kind) then fail einval f₁ else (pos 0, f₁)

unfoldable pub pass : RandomMessage → Frame → ℤ × Frame
pass m f =
    let f₁ = update reset_error f in
    if not (is_incoming m.kind) then fail einval f₁ else (pos 0, f₁)

-- `mq_random_message_set_type_`
unfoldable pub set_type : Option CString → RandomMessage → Frame → ℤ × Frame
set_type type m f = fail eperm f

-- `mq_random_message_type_`
unfoldable pub content_type : RandomMessage → Frame → Option CString × Frame
content_type m f = (none, update reset_error f)

-- `mq_random_message_set_subject_`
unfoldable pub set_subject : Option CString → RandomMessage → Frame → ℤ × Frame
set_subject subject m f = fail eperm f

-- `mq_random_message_subject_`
unfoldable pub subject : RandomMessage → Frame → Option CString × Frame
subject m f = (none, update reset_error f)

-- `mq_random_message_set_address_`
unfoldable pub set_address : Option CString → RandomMessage → Frame → ℤ × Frame
set_address address m f = fail eperm f

-- `mq_random_message_address_`
unfoldable pub address : RandomMessage → Frame → Option CString × Frame
address m f = (some (codes "random:"), update reset_error f)

-- `mq_random_message_body_`
unfoldable pub body : RandomMessage → Frame → Option CString × Frame
body m f = (some m.buf, update reset_error f)

-- `mq_random_message_len_`
unfoldable pub len : RandomMessage → Frame → ℕ × Frame
len m f = (length m.buf, update reset_error f)

-- `mq_random_message_add_bytes_`
unfoldable pub add_bytes : CString → RandomMessage → Frame → ℤ × Frame
add_bytes bytes m f = fail eperm f

-- `mq_random_message_send_`
unfoldable pub send : RandomMessage → Frame → ℤ × Frame
send m f = fail eperm f

abbrev pub put_message : Ptr → Option RandomMessage → RandomWorld → RandomWorld
put_message self m w = record w { heap = record (w.heap) { msgs = put self m w.heap.msgs } }

-- `mq_random_message_set_partition_`
unfoldable pub set_partition : Ptr → Option CString → Cmd RandomWorld ℤ
set_partition self partition w = elim (w.heap.msgs self) [
  | none ↦ none
  | some m ↦ elim partition [
    | none ↦ some (
      pos 0,
      put_message self (some (record m { partition = none }))
          (record w { libc = after_free? m.partition w.libc }),
    )
    | some s ↦
        if exhausted w.libc
        then some (minus_one, record w { libc = after_alloc w.libc })
        else some (
          pos 0,
          put_message self (some (record m { partition = some s }))
              (record w { libc = after_free? m.partition (after_alloc w.libc) }),
        )
  ]
]

-- The choice of `mq_random_message_partition_`, given the connection's partition.
abbrev pub effective : Option CString → Option CString → Option CString
effective none whole = whole
effective (some []) whole = none
effective (some (c ∷ s)) whole = some (c ∷ s)

-- `mq_random_message_partition_`. The connection is read only if the message has no partition.
unfoldable pub partition : Ptr → Cmd RandomWorld (Option CString)
partition self w = elim (w.heap.msgs self) [
  | none ↦ none
  | some m ↦ elim m.partition [
    | none ↦ on_mq m.connection (λ f. (f.mq.partition, f)) w
    | some [] ↦ some (none, w)
    | some (c ∷ s) ↦ some (some (c ∷ s), w)
  ]
]

-- `mq_random_message_release_`
unfoldable pub release : Ptr → Cmd RandomWorld ℕ
release self = do
  r ← on_message {A = ℕ} self (λ m f. (0, update reset_error f))
  λ w. some (r, put_message self none (record w { libc = after_free w.libc }))

-- What `calloc` leaves of a message, with the connection filled in.
abbrev pub blank : Ptr → RandomMessage
blank connection = record { connection = connection; kind = outgoing; buf = []; partition = none }

-- `mq_random_message_construct_`
unfoldable pub construct : Ptr → Cmd RandomWorld (Option Ptr)
construct connection w =
    if exhausted w.libc
    then on_mq connection (λ f. (none, update (set_from_errno f.libc) f))
        (record w { libc = after_alloc w.libc })
    else some (
      some w.heap.fresh,
      record w {
        libc = after_alloc w.libc;
        heap = record (w.heap) {
          msgs = put w.heap.fresh (some (blank connection)) w.heap.msgs;
          fresh = suc w.heap.fresh;
        };
      },
    )

-- `snprintf((char *) p->buf, sizeof(p->buf), "%ld", random())`, for a buffer of 32 bytes
unfoldable pub draw : Libc → CString × Libc
draw c = let (n, c') = random c in (take 31 (decimal n), c')

-- `p->kind = MQK_INCOMING`, and the text into `p->buf`
unfoldable pub fill : Ptr → Cmd RandomWorld (ℤ × Option Ptr)
fill p w = elim (w.heap.msgs p) [
  | none ↦ none
  | some m ↦
      let (text, libc) = draw w.libc in
      some (
        (pos 0, some p),
        put_message p (some (record m { kind = incoming; buf = text })) (record w { libc = libc }),
      )
]

-- `mq_random_next_`; the second result is what is written to `*msg`.
unfoldable pub next : Ptr → Cmd RandomWorld (ℤ × Option Ptr)
next self = do made ← construct self; elim made [ none ↦ pure (minus_one, none) | some p ↦ fill p ]
