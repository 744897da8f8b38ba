-- ===== src/Proton/Tables.antt =====
-- The contract of libmq-engine.h for the engine of queues/qpid-proton.c: its two tables of functions.
use libmq.Base.{◌≡◌, refl, ap, ◌∙◌, Option, none, some, arith}
use libmq.Base.Cells.{put}
use libmq.Base.CString.{CString}
use libmq.Libc.{after_free, after_free?}
use libmq.Engine.{Ptr}
use libmq.Engine.Contract.{Contract}
use libmq.Client.Session.{Made}
use libmq.Proton.{ProtonMq, ProtonWorld, Heap}
use libmq.Proton.Library.{Proton}
use libmq.Proton.Connections
use libmq.Proton.Connections.{new_mq}
use libmq.Proton.Messages
use libmq.Proton.Opening.{connection}
use libmq.Proton.Contract.{Held, Live, Stays, on_mq-Keeps, serves, release-Frees}
use libmq.Proton.Sizes.{Sized, len-Sized, content_type-Sized, body-Covers}
use libmq.Proton.Makes.{next-Makes, create-Makes}

module _ (lib : Proton) (self : Ptr) where
  open lib use {State}

  kind-Stays : Stays lib self (Messages.kind lib)
  unfolding Messages.kind
  kind-Stays f = ground arith

  accept-Stays : Stays lib self (Messages.accept lib)
  unfolding Messages.accept
  accept-Stays f = ground arith

  reject-Stays : Stays lib self (Messages.reject lib)
  unfolding Messages.reject
  reject-Stays f = ground arith

  pass-Stays : Stays lib self (Messages.pass lib)
  unfolding Messages.pass
  pass-Stays f = ground arith

  send-Stays : Stays lib self (Messages.send lib)
  unfolding Messages.send
  send-Stays f = ground arith

  set_type-Stays : (s : Option CString) → Stays lib self (Messages.set_type lib s)
  unfolding Messages.set_type
  set_type-Stays s f = ground arith

  set_subject-Stays : (s : Option CString) → Stays lib self (Messages.set_subject lib s)
  unfolding Messages.set_subject
  set_subject-Stays s f = ground arith

  subject-Stays : Stays lib self (Messages.subject lib)
  unfolding Messages.subject
  subject-Stays f = ground arith

  set_address-Stays : (s : Option CString) → Stays lib self (Messages.set_address lib s)
  unfolding Messages.set_address
  set_address-Stays s f = ground arith

  address-Stays : Stays lib self (Messages.address lib)
  unfolding Messages.address
  address-Stays f = ground arith

  add_bytes-Stays : (s : CString) → Stays lib self (Messages.add_bytes lib s)
  unfolding Messages.add_bytes
  add_bytes-Stays s f = ground arith

  set_partition-Stays : (s : Option CString) → Stays lib self (Messages.set_partition lib s)
  unfolding Messages.set_partition
  set_partition-Stays s f = ground arith

  partition-Stays : Stays lib self (Messages.partition lib)
  unfolding Messages.partition
  partition-Stays f = ground arith

  -- The process behind the release of the connection.
  abbrev released : ProtonMq → ProtonWorld State → ProtonWorld State
  released q w =
      let f =
        Connections.disconnect_internal lib (record { libc = w.libc; pn = w.heap.pn; mq = q }) in
      record w {
        libc = after_free (after_free (after_free? f.mq.errmsg f.libc));
        heap = record (w.heap) { conns = put self none w.heap.conns; pn = f.pn };
      }

  release_lem :
      (w : ProtonWorld State) {q : ProtonMq}
      → w.heap.conns self ≡ some q
      → Connections.release lib self w ≡ some (0, released q w)
  unfolding Connections.release
  release_lem w held = rw (held, Connections.release)

  connection_contract : Contract (connection lib self)
  connection_contract = record {
    Held = Held lib self;
    Live = Live lib self;
    Sized = Sized lib self;
    release = λ w (q, held). record {
      result = 0;
      after = released q w;
      run = release_lem w held;
      holds = tt;
    };
    error = on_mq-Keeps lib self (Connections.error lib);
    errmsg = on_mq-Keeps lib self (Connections.errmsg lib);
    connect_recv = on_mq-Keeps lib self (Connections.connect_recv lib);
    connect_send = on_mq-Keeps lib self (Connections.connect_send lib);
    next = next-Makes lib self;
    deliver = on_mq-Keeps lib self (Connections.deliver lib);
    create = create-Makes lib self;
    set_cluster = λ cluster. on_mq-Keeps lib self (Connections.set_cluster lib cluster);
    set_partition = λ partition. on_mq-Keeps lib self (Connections.set_partition lib partition);
    partition = on_mq-Keeps lib self (Connections.partition lib);
    message_release = release-Frees lib self;
    kind = serves lib self (λ m. m.impl.kind m.self) (Messages.kind lib) kind-Stays (λ p. refl);
    accept =
        serves lib self (λ m. m.impl.accept m.self) (Messages.accept lib) accept-Stays (λ p. refl);
    reject =
        serves lib self (λ m. m.impl.reject m.self) (Messages.reject lib) reject-Stays (λ p. refl);
    pass = serves lib self (λ m. m.impl.pass m.self) (Messages.pass lib) pass-Stays (λ p. refl);
    send = serves lib self (λ m. m.impl.send m.self) (Messages.send lib) send-Stays (λ p. refl);
    set_type = λ s.
        serves lib self (λ m. m.impl.set_type m.self s) (Messages.set_type lib s) (set_type-Stays s)
          (λ p. refl);
    content_type = content_type-Sized lib self;
    set_subject = λ s.
        serves lib self (λ m. m.impl.set_subject m.self s) (Messages.set_subject lib s)
          (set_subject-Stays s) (λ p. refl);
    subject =
        serves lib self (λ m. m.impl.subject m.self) (Messages.subject lib) subject-Stays
          (λ p. refl);
    set_address = λ s.
        serves lib self (λ m. m.impl.set_address m.self s) (Messages.set_address lib s)
          (set_address-Stays s) (λ p. refl);
    address =
        serves lib self (λ m. m.impl.address m.self) (Messages.address lib) address-Stays
          (λ p. refl);
    body = body-Covers lib self;
    len = len-Sized lib self;
    add_bytes = λ s.
        serves lib self (λ m. m.impl.add_bytes m.self s) (Messages.add_bytes lib s)
          (add_bytes-Stays s) (λ p. refl);
    message_set_partition = λ s.
        serves lib self (λ m. m.impl.set_partition m.self s) (Messages.set_partition lib s)
          (set_partition-Stays s) (λ p. refl);
    message_partition =
        serves lib self (λ m. m.impl.partition m.self) (Messages.partition lib) partition-Stays
          (λ p. refl);
  }

  -- A live connection, with the contract and what it hangs on.
  pub Made-connection :
      (w : ProtonWorld State) {q : ProtonMq}
      → w.heap.conns self ≡ some q
      → Made (some (connection lib self)) w
  unfolding connection_contract
  Made-connection w {q} held = (
    connection_contract,
    (λ v v' same (q, held). (q, ap (λ (h : Heap State). h.conns self) same ∙ held)),
    (q, held),
  )
