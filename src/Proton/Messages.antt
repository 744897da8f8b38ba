-- ===== src/Proton/Messages.antt =====
-- The functions of `mq_proton_message_impl_`.
use libmq.Base.{
  ℕ, ◌-◌, ◌^◌, Bool, true, false, Option, none, some, nonzero, if◌then◌else◌, ℤ, pos, minus_one,
  length,
}
use libmq.Base.Cells.{put}
use libmq.Base.CString.{CString}
use libmq.Libc.{after_free, set_errno, eperm, einval}
use libmq.Cmd.{Cmd, ◌>>=◌}
use libmq.Engine.{Ptr, MqMsgKind, outgoing, incoming}
use libmq.Engine.Errors.{reset_error, set_error}
use libmq.Proton.{ProtonMessage, ProtonWorld, MessageFrame, update, fail, on_message}
use libmq.Proton.Library.{Proton}

abbrev pub is_incoming : MqMsgKind → Bool
is_incoming incoming = true
is_incoming outgoing = false

module _ {P : Type 0} where
  -- `RESET_ERROR(self->connection)`
  abbrev pub reset : MessageFrame P → MessageFrame P
  reset f = record f { frame = update reset_error f.frame }

  -- `SET_SYSERR(self->connection, EINVAL); return -1;`
  abbrev pub refuse : MessageFrame P → ℤ × MessageFrame P
  refuse f = let (r, g) = fail einval f.frame in (r, record f { frame = g })

  abbrev pub with_pn : P → MessageFrame P → MessageFrame P
  with_pn pn f = record f { frame = record (f.frame) { pn = pn } }

  -- `if(self->kind != ... || !self->msg) { SET_SYSERR(...); return -1; }`, for the two kinds
  abbrev if_incoming :
      (ℕ → MessageFrame P → ℤ × MessageFrame P) → MessageFrame P → ℤ × MessageFrame P
  if_incoming rest f = elim f.message.msg [
    | none ↦ refuse f
    | some m ↦ if is_incoming f.message.kind then rest m f else refuse f
  ]

  abbrev if_outgoing :
      (ℕ → MessageFrame P → ℤ × MessageFrame P) → MessageFrame P → ℤ × MessageFrame P
  if_outgoing rest f = elim f.message.msg [
    | none ↦ refuse f
    | some m ↦ if is_incoming f.message.kind then refuse f else rest m f
  ]

module _ (lib : Proton) where
  open lib use {State}

  -- `SET_ERROR(self->connection, pn_messenger_errno(self->connection->messenger)); return -1;`
  abbrev pub messenger_error : MessageFrame State → ℤ × MessageFrame State
  messenger_error f = (
    minus_one,
    record f { frame = update (set_error (lib.errno f.frame.mq.messenger f.frame.pn)) f.frame },
  )

  -- `if(self->tracker) pn_messenger_settle(...)`
  abbrev pub settle : MessageFrame State → MessageFrame State
  settle f =
      if nonzero f.message.tracker
      then with_pn (lib.settle f.frame.mq.messenger f.message.tracker f.frame.pn) f
      else f

  -- `mq_proton_message_kind_`
  unfoldable pub kind : MessageFrame State → MqMsgKind × MessageFrame State
  kind f = let f₁ = reset f in (f₁.message.kind, f₁)

  -- `mq_proton_message_accept_`
  unfoldable pub accept : MessageFrame State → ℤ × MessageFrame State
  accept f =
      if_incoming
        (λ m f₁. (
          pos 0,
          settle (with_pn (lib.accept f₁.frame.mq.messenger f₁.message.tracker f₁.frame.pn) f₁),
        ))
        (reset f)

  -- `mq_proton_message_reject_`
  unfoldable pub reject : MessageFrame State → ℤ × MessageFrame State
  reject f =
      if_incoming
        (λ m f₁. (
          pos 0,
          settle (with_pn (lib.reject f₁.frame.mq.messenger f₁.message.tracker f₁.frame.pn) f₁),
        ))
        (reset f)

  -- `mq_proton_message_pass_`
  unfoldable pub pass : MessageFrame State → ℤ × MessageFrame State
  pass f = if_incoming (λ m f₁. (pos 0, settle f₁)) (reset f)

  -- `mq_proton_message_set_type_`
  unfoldable pub set_type : Option CString → MessageFrame State → ℤ × MessageFrame State
  set_type type f =
      if_outgoing
        (λ m f₁. let (r, pn) = lib.set_content_type m type f₁.frame.pn in (r, with_pn pn f₁))
        (reset f)

  -- `mq_proton_message_set_subject_`, which calls `pn_message_set_content_type`
  unfoldable pub set_subject : Option CString → MessageFrame State → ℤ × MessageFrame State
  set_subject subject f =
      if_outgoing
        (λ m f₁. let (r, pn) = lib.set_content_type m subject f₁.frame.pn in (r, with_pn pn f₁))
        (reset f)

  -- The three functions that read a text from the message.
  abbrev read :
      (ℕ → State → Option CString) → MessageFrame State → Option CString × MessageFrame State
  read get f =
      let f₁ = reset f in
      elim f₁.message.msg [ none ↦ (none, (refuse f₁).1) | some m ↦ (get m f₁.frame.pn, f₁) ]

  -- `mq_proton_message_type_`, `mq_proton_message_subject_` and `mq_proton_message_address_`
  unfoldable pub content_type : MessageFrame State → Option CString × MessageFrame State
  content_type f = read lib.get_content_type f

  unfoldable pub subject : MessageFrame State → Option CString × MessageFrame State
  subject f = read lib.get_subject f

  unfoldable pub address : MessageFrame State → Option CString × MessageFrame State
  address f = read lib.get_address f

  -- `mq_proton_message_set_address_`
  unfoldable pub set_address : Option CString → MessageFrame State → ℤ × MessageFrame State
  set_address address f =
      if_outgoing
        (λ m f₁.
          let (r, pn) = lib.set_address m address f₁.frame.pn in
          let f₂ = with_pn pn f₁ in
          (
            r,
            (if nonzero r
                then f₂
                else record f₂ { message = record (f₂.message) { addressed = true } }),
          ))
        (reset f)

  -- `(size_t) -1`
  unfoldable pub size_max : ℕ
  size_max = 2 ^ 64 - 1

  -- `mq_proton_message_body_`; the bytes at `bytes.start`
  unfoldable pub body : MessageFrame State → Option CString × MessageFrame State
  body f =
      let f₁ = reset f in
      elim f₁.message.msg [
        | none ↦ (none, (refuse f₁).1)
        | some _ ↦ elim f₁.message.body [
          | none ↦ (none, (refuse f₁).1)
          | some _ ↦ (f₁.message.bytes, f₁)
        ]
      ]

  abbrev size : Option CString → ℕ
  size none = 0
  size (some s) = length s

  -- `mq_proton_message_len_`
  unfoldable pub len : MessageFrame State → ℕ × MessageFrame State
  len f =
      let f₁ = reset f in
      elim f₁.message.msg [
        | none ↦ (size_max, (refuse f₁).1)
        | some _ ↦ elim f₁.message.body [
          | none ↦ (size_max, (refuse f₁).1)
          | some _ ↦ (size f₁.message.bytes, f₁)
        ]
      ]

  -- The call of `pn_data_put_binary` in `mq_proton_message_add_bytes_`.
  abbrev append : CString → ℕ → MessageFrame State → ℤ × MessageFrame State
  append bytes d f =
      let (r, pn) = lib.put_binary d bytes f.frame.pn in
      let f₁ = with_pn pn f in if nonzero r then messenger_error f₁ else (pos 0, f₁)

  -- `mq_proton_message_add_bytes_`
  unfoldable pub add_bytes : CString → MessageFrame State → ℤ × MessageFrame State
  add_bytes bytes f =
      if_outgoing
        (λ m f₁. elim f₁.message.body [
          | some d ↦ append bytes d f₁
          | none ↦
              let b = lib.body m f₁.frame.pn in
              let f₂ = record f₁ { message = record (f₁.message) { body = b } } in
              elim b [ none ↦ messenger_error f₂ | some d ↦ append bytes d f₂ ]
        ])
        (reset f)

  -- `mq_proton_message_set_partition_` and `mq_proton_message_partition_`
  unfoldable pub set_partition : Option CString → MessageFrame State → ℤ × MessageFrame State
  set_partition partition f =
      (minus_one, record f { frame = record (f.frame) { libc = set_errno eperm f.frame.libc } })

  unfoldable pub partition : MessageFrame State → Option CString × MessageFrame State
  partition f = (none, f)

  -- The call of `pn_messenger_put` in `mq_proton_message_send_`.
  abbrev enqueue : ℕ → MessageFrame State → ℤ × MessageFrame State
  enqueue m f =
      let (r, pn) = lib.put f.frame.mq.messenger m f.frame.pn in
      let f₁ = with_pn pn f in if nonzero r then messenger_error f₁ else (pos 0, f₁)

  -- `mq_proton_message_send_`
  unfoldable pub send : MessageFrame State → ℤ × MessageFrame State
  send f =
      if_outgoing
        (λ m f₁.
          let (r, pn) = lib.set_address m (some f₁.frame.mq.uri) f₁.frame.pn in
          let f₂ = with_pn pn f₁ in
          if f₁.message.addressed
          then enqueue m f₁
          else if nonzero r
          then messenger_error f₂
          else enqueue m f₂)
        (reset f)

  abbrev pub put_message : Ptr → Option ProtonMessage → ProtonWorld State → ProtonWorld State
  put_message self m w = record w { heap = record (w.heap) { msgs = put self m w.heap.msgs } }

  -- `free(self)`
  abbrev pub free_message : Ptr → ProtonWorld State → ProtonWorld State
  free_message self w = put_message self none (record w { libc = after_free w.libc })

  -- What `mq_proton_message_release_` does before it frees the object.
  unfoldable pub let_go : MessageFrame State → ℕ × MessageFrame State
  let_go f =
      let f₁ = settle (reset f) in
      (0, elim f₁.message.msg [ none ↦ f₁ | some m ↦ with_pn (lib.message_free m f₁.frame.pn) f₁ ])

  -- `mq_proton_message_release_`
  unfoldable pub release : Ptr → Cmd (ProtonWorld State) ℕ
  release self = do r ← on_message self let_go; λ w. some (r, free_message self w)
