-- ===== src/Proton/Connections.antt =====
-- The functions of `mq_proton_connection_impl_` that work on a connection alone, and the
-- constructor.
use libmq.Base.{
  ℕ, suc, Bool, true, false, ◌||◌, [], ◌++◌, Option, none, some, ◌==◌, not, nonzero, if◌then◌else◌,
  ℤ, pos, minus_one, take, ◌-◌,
}
use libmq.Base.Cells.{put}
use libmq.Base.CString.{CString, codes}
use libmq.Base.Decimal.{decimal_int}
use libmq.Libc.{exhausted, after_alloc, after_free, after_free?, set_errno, eperm, einval}
use libmq.Cmd.{Cmd}
use libmq.Engine.{Ptr, MqState, disconnected, send, recv}
use libmq.Engine.Errors.{ErrorBuffer, reset_error, set_error, set_from_errno}
use libmq.Proton.{ProtonMq, ProtonWorld, Frame, update, fail}
use libmq.Proton.Library.{Proton}

abbrev pub is_disconnected : MqState → Bool
is_disconnected disconnected = true
is_disconnected _ = false

abbrev pub is_sending : MqState → Bool
is_sending send = true
is_sending _ = false

-- `MQ_ERRBUF_LEN`
abbrev pub errbuf_len : ℕ
errbuf_len = 128

module _ (lib : Proton) where
  open lib use {State}

  -- `mq_proton_error_`
  unfoldable pub error : Frame State → ℤ × Frame State
  error f = (if nonzero f.mq.errcode || not (f.mq.syserr == 0) then pos 1 else pos 0, f)

  -- A text that `strerror_r` or `snprintf` writes, and cuts to the size it is given, with its NUL.
  abbrev in_buffer : ErrorBuffer → CString → Frame State → CString × Frame State
  in_buffer b text f =
      let text' = take (errbuf_len - 1) text in
      (text', update (λ c. record c { errmsg = some (record b { text = text' }) }) f)

  abbrev clear_buffer : ErrorBuffer → Frame State → Frame State
  clear_buffer b f = update (λ c. record c { errmsg = some (record b { text = [] }) }) f

  -- The part of `mq_proton_errmsg_` behind the allocation of the buffer.
  unfoldable pub describe : ErrorBuffer → Frame State → CString × Frame State
  unfolding decimal_int
  describe b f =
      if not (f.mq.syserr == 0)
      then in_buffer b (f.libc.strerror f.mq.syserr) f
      else if nonzero f.mq.errcode
      then elim f.mq.messenger [
        | some m ↦ (lib.error_text (some m) f.pn, clear_buffer b f)
        | none ↦ in_buffer b (codes "Unknown error #" ++ decimal_int f.mq.errcode) f
      ]
      else (codes "Success", clear_buffer b f)

  -- `mq_proton_errmsg_`
  unfoldable pub errmsg : Frame State → CString × Frame State
  unfolding describe
  errmsg f = elim f.mq.errmsg [
    | some b ↦ describe b f
    | none ↦
        let f₁ = record f { libc = after_alloc f.libc } in
        if exhausted f.libc
        then (codes "Memory allocation error obtaining error message", f₁)
        else describe (record { size = errbuf_len; text = [] }) f₁
  ]

  -- `mq_proton_state_`
  unfoldable pub state : Frame State → MqState × Frame State
  state f = let f₁ = update reset_error f in (f₁.mq.state, f₁)

  -- `mq_proton_disconnect_internal_`
  unfoldable pub disconnect_internal : Frame State → Frame State
  disconnect_internal f =
      update (λ c. record c { state = disconnected })
        (elim f.mq.messenger [
          | none ↦ f
          | some m ↦ record f {
            pn = lib.free (some m) (lib.stop (some m) f.pn);
            mq = record (f.mq) { messenger = none; sub = none };
          }
        ])

  -- `SET_ERROR(self, e)` behind a disconnection, and the result 1.
  abbrev give_up : (e : ℤ) → Frame State → ℤ × Frame State
  give_up e f = (pos 1, update (set_error e) (disconnect_internal f))

  -- `self->messenger = pn_messenger(NULL)`
  abbrev pub open_messenger : Frame State → Frame State
  open_messenger f =
      let (m, libc, pn) = lib.messenger f.libc f.pn in
      record f { libc = libc; pn = pn; mq = record (f.mq) { messenger = m } }

  -- `pn_messenger_start(self->messenger)`
  abbrev pub start_messenger : Frame State → Frame State
  start_messenger f = record f { pn = lib.start f.mq.messenger f.pn }

  -- The rest of `mq_proton_connect_recv_`, from the subscription on. `e` is 0 here: it is what
  -- is left of the test before.
  unfoldable pub subscribe : (e : ℤ) → Frame State → ℤ × Frame State
  subscribe e f =
      let (s, pn) = lib.subscribe f.mq.messenger f.mq.uri f.pn in
      let f₁ = record f { pn = pn; mq = record (f.mq) { sub = s } } in
      elim s [
        | none ↦ give_up e f₁
        | some _ ↦
            if nonzero (lib.errno f₁.mq.messenger f₁.pn)
            then give_up (lib.errno f₁.mq.messenger f₁.pn) f₁
            else (
              pos 0,
              update (λ c. record c { state = recv })
                  (record f₁ {
                    pn = lib.set_incoming_window f₁.mq.messenger f₁.mq.window_size f₁.pn;
                  }),
            )
      ]

  -- `mq_proton_connect_recv_` and `mq_proton_connect_send_` begin alike.
  abbrev begin : (ℤ → Frame State → ℤ × Frame State) → Frame State → ℤ × Frame State
  begin rest f =
      let f₁ = update reset_error f in
      let f₂ = open_messenger f₁ in
      let f₃ = start_messenger f₂ in
      if not (is_disconnected f₁.mq.state) then fail einval f₁ else elim f₂.mq.messenger [
        | none ↦ (minus_one, update (set_from_errno f₂.libc) f₂)
        | some _ ↦
            if nonzero (lib.errno f₃.mq.messenger f₃.pn)
            then give_up (lib.errno f₃.mq.messenger f₃.pn) f₃
            else rest (lib.errno f₃.mq.messenger f₃.pn) f₃
      ]

  -- `mq_proton_connect_recv_`
  unfoldable pub connect_recv : Frame State → ℤ × Frame State
  connect_recv f = begin subscribe f

  -- `mq_proton_connect_send_`
  unfoldable pub connect_send : Frame State → ℤ × Frame State
  connect_send f =
      begin
        (λ _ f₃. (
          pos 0,
          update (λ c. record c { state = send })
              (record f₃ { pn = lib.set_outgoing_window f₃.mq.messenger (pos 1) f₃.pn }),
        ))
        f

  -- `mq_proton_disconnect_`
  unfoldable pub disconnect : Frame State → ℤ × Frame State
  disconnect f =
      let f₁ = update reset_error f in
      if is_disconnected f₁.mq.state
      then (pos 0, f₁)
      else (pos 0, update reset_error (disconnect_internal f₁))

  -- `mq_proton_deliver_`
  unfoldable pub deliver : Frame State → ℤ × Frame State
  deliver f =
      let f₁ = update reset_error f in
      let (r, pn) = lib.send f₁.mq.messenger minus_one f₁.pn in
      let f₂ = record f₁ { pn = pn } in
      if not (is_sending f₁.mq.state)
      then fail einval f₁
      else if nonzero r
      then (minus_one, update (set_error (lib.errno f₂.mq.messenger f₂.pn)) f₂)
      else (pos 0, f₂)

  -- `mq_proton_set_cluster_` and `mq_proton_cluster_`
  unfoldable pub set_cluster : Option ℕ → Frame State → ℤ × Frame State
  set_cluster cluster f = (pos 0, update (λ c. record c { cluster = cluster }) f)

  unfoldable pub cluster : Frame State → Option ℕ × Frame State
  cluster f = (f.mq.cluster, f)

  -- `mq_proton_set_partition_` and `mq_proton_partition_`
  unfoldable pub set_partition : Option CString → Frame State → ℤ × Frame State
  set_partition partition f = (minus_one, record f { libc = set_errno eperm f.libc })

  unfoldable pub partition : Frame State → Option CString × Frame State
  partition f = (none, f)

  -- `mq_proton_release_`
  unfoldable pub release : Ptr → Cmd (ProtonWorld State) ℕ
  release self w = elim (w.heap.conns self) [
    | none ↦ none
    | some mq ↦
        let f = disconnect_internal (record { libc = w.libc; pn = w.heap.pn; mq = mq }) in
        some (
          0,
          record w {
            libc = after_free (after_free (after_free? f.mq.errmsg f.libc));
            heap = record (w.heap) { conns = put self none w.heap.conns; pn = f.pn };
          },
        )
  ]

  -- What `calloc` leaves of a connection, with the URI and the window filled in.
  abbrev pub new_mq : CString → ProtonMq
  new_mq uri = record {
    members = record {
      state = disconnected;
      syserr = 0;
      errcode = pos 0;
      errmsg = none;
      uri = uri;
      cluster = none;
      backoff = record { tv_sec = 0; tv_usec = 0 };
    };
    messenger = none;
    sub = none;
    window_size = pos 1;
  }

  -- `mq_proton_construct_`; the result is the address of the connection.
  unfoldable pub construct :
      CString → (reserved1 reserved2 : Option CString) → Cmd (ProtonWorld State) (Option Ptr)
  construct uri reserved1 reserved2 w =
      let c₁ = after_alloc w.libc in
      let c₂ = after_alloc c₁ in
      let self = w.heap.fresh in
      if exhausted w.libc
      then some (none, record w { libc = c₁ })
      else if exhausted c₁
      then some (none, record w { libc = after_free c₂ })
      else some (
        some self,
        record w {
          libc = c₂;
          heap = record (w.heap) {
            conns = put self (some (new_mq uri)) w.heap.conns;
            fresh = suc self;
          };
        },
      )
