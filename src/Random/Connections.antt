-- ===== src/Random/Connections.antt =====
-- The functions of `mq_random_connection_impl_`, and the constructor.
use libmq.Base.{
  ℕ, suc, ◌%◌, ◌^◌, Bool, true, false, ◌||◌, [], ◌∷◌, ◌++◌, Option, none, some, ◌==◌, not, nonzero,
  if◌then◌else◌, ℤ, pos, minus_one, take, ◌-◌,
}
use libmq.Base.Cells.{put}
use libmq.Base.CString.{CString, codes}
use libmq.Base.Decimal.{decimal_int}
use libmq.Libc.{exhausted, after_alloc, after_free, after_free?, srandom, eperm, einval}
use libmq.Cmd.{Cmd}
use libmq.Engine.{Ptr, MqState, disconnected, send, recv}
use libmq.Engine.Errors.{ErrorBuffer, reset_error}
use libmq.Random.{RandomMq, RandomWorld, Frame, update, fail}

abbrev pub is_disconnected : MqState → Bool
is_disconnected disconnected = true
is_disconnected _ = false

abbrev pub is_sending : MqState → Bool
is_sending send = true
is_sending _ = false

-- `mq_random_error_`
unfoldable pub error : Frame → ℤ × Frame
error f = (if nonzero f.mq.errcode || not (f.mq.syserr == 0) then pos 1 else pos 0, f)

-- `MQ_ERRBUF_LEN`
abbrev pub errbuf_len : ℕ
errbuf_len = 128

-- A text that `strerror_r` or `snprintf` writes, and cuts to the size it is given, with its NUL.
abbrev in_buffer : ErrorBuffer → CString → Frame → CString × Frame
in_buffer b text f =
    let text' = take (errbuf_len - 1) text in
    (text', update (λ c. record c { errmsg = some (record b { text = text' }) }) f)

-- The part of `mq_random_errmsg_` behind the allocation of the buffer.
unfoldable pub describe : ErrorBuffer → Frame → CString × Frame
unfolding decimal_int
describe b f =
    if not (f.mq.syserr == 0)
    then in_buffer b (f.libc.strerror f.mq.syserr) f
    else if nonzero f.mq.errcode
    then in_buffer b (codes "Unknown error #" ++ decimal_int f.mq.errcode) f
    else (codes "Success", update (λ c. record c { errmsg = some (record b { text = [] }) }) f)

-- `mq_random_errmsg_`
unfoldable pub errmsg : Frame → CString × Frame
unfolding describe
errmsg f = elim f.mq.errmsg [
  | some b ↦ describe b f
  | none ↦
      let f₁ = record f { libc = after_alloc f.libc } in
      if exhausted f.libc
      then (codes "Memory allocation error obtaining error message", f₁)
      else describe (record { size = errbuf_len; text = [] }) f₁
]

-- `mq_random_state_`
unfoldable pub state : Frame → MqState × Frame
state f = let f₁ = update reset_error f in (f₁.mq.state, f₁)

-- `mq_random_connect_recv_`
unfoldable pub connect_recv : Frame → ℤ × Frame
connect_recv f =
    let f₁ = update reset_error f in
    if not (is_disconnected f₁.mq.state) then fail einval f₁ else (
      pos 0,
      update (λ c. record c { state = recv })
          (record f₁ { libc = srandom (f₁.libc.time % 2 ^ 32) f₁.libc }),
    )

-- `mq_random_connect_send_`
unfoldable pub connect_send : Frame → ℤ × Frame
connect_send f = fail eperm f

-- `mq_random_disconnect_`
unfoldable pub disconnect : Frame → ℤ × Frame
disconnect f = (pos 0, update (λ c. record c { state = disconnected }) (update reset_error f))

-- `mq_random_deliver_`
unfoldable pub deliver : Frame → ℤ × Frame
deliver f =
    let f₁ = update reset_error f in
    if not (is_sending f₁.mq.state) then fail einval f₁ else (pos 0, f₁)

-- `mq_random_create_`; `*msg` is not written.
unfoldable pub create : Frame → ℤ × Frame
create f = fail einval f

-- `mq_random_set_partition_`
unfoldable pub set_partition : Option CString → Frame → ℤ × Frame
set_partition none f = (
  pos 0,
  record f { libc = after_free? f.mq.partition f.libc; mq = record (f.mq) { partition = none } },
)
set_partition (some []) f = (
  pos 0,
  record f { libc = after_free? f.mq.partition f.libc; mq = record (f.mq) { partition = none } },
)
set_partition (some (c ∷ s)) f =
    let f₁ = record f { libc = after_alloc f.libc } in
    if exhausted f.libc then (minus_one, f₁) else (
      pos 0,
      record f₁ {
        libc = after_free? f₁.mq.partition f₁.libc;
        mq = record (f₁.mq) { partition = some (c ∷ s) };
      },
    )

-- `mq_random_set_cluster_`; `cluster_partition` is libcluster's.
unfoldable pub set_cluster :
    (cluster_partition : Option ℕ → Option CString) → Option ℕ → Frame → ℤ × Frame
set_cluster cluster_partition cluster f =
    let f₁ = update (λ c. record c { cluster = cluster }) f in
    let (_, f₂) = set_partition (cluster_partition cluster) f₁ in (pos 0, f₂)

-- `mq_random_cluster_`
unfoldable pub cluster : Frame → Option ℕ × Frame
cluster f = (f.mq.cluster, f)

-- `mq_random_partition_`
unfoldable pub partition : Frame → Option CString × Frame
partition f = (f.mq.partition, f)

-- `mq_random_release_`
unfoldable pub release : Ptr → Cmd RandomWorld ℕ
release self w = elim (w.heap.conns self) [
  | none ↦ none
  | some mq ↦ some (
    0,
    record w {
      libc = after_free (after_free (after_free? mq.errmsg w.libc));
      heap = record (w.heap) { conns = put self none w.heap.conns };
    },
  )
]

-- What `calloc` leaves of a connection, with the URI filled in.
abbrev pub new_mq : CString → RandomMq
new_mq uri = record {
  members = record {
    state = disconnected;
    syserr = 0;
    errcode = pos 0;
    errmsg = none;
    uri = uri;
    cluster = none;
    backoff = record { tv_sec = 0; tv_usec = 0 };
  };
  partition = none;
}

-- `mq_random_construct_`; the result is the address of the connection.
unfoldable pub construct :
    CString → (reserved1 reserved2 : Option CString) → Cmd RandomWorld (Option Ptr)
construct uri reserved1 reserved2 w =
    let w₁ = record w { libc = after_alloc w.libc } in
    let w₂ = record w { libc = after_alloc w₁.libc } in
    let self = w.heap.fresh in
    if exhausted w.libc
    then some (none, w₁)
    else if exhausted w₁.libc
    then some (none, record w { libc = after_free w₂.libc })
    else some (
      some self,
      record w₂ {
        heap = record (w.heap) {
          conns = put self (some (new_mq uri)) w.heap.conns;
          fresh = suc self;
        };
      },
    )
