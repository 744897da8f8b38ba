-- ===== src/Random/Clients.antt =====
-- Programs that use the engine of queues/random.c through the public functions.
use libmq.Base.{
  ℕ, ◌≡◌, refl, ◌∙◌, ap, sym, inl, inr, Bool, true, false, List, Option, none, some, nonzero, arith,
  Bool-cases,
}
use libmq.Base.Cells.{get_put}
use libmq.Base.CString.{CString}
use libmq.Libc.{exhausted, after_alloc, after_free}
use libmq.Cmd.{pure, >>=-some}
use libmq.Cmd.Ends.{Ends, Ends-pure, Ends-bind, Ends-eq, Ends-weaken, Ends-at}
use libmq.World.Locks.{idle}
use libmq.Engine.{Ptr, Mq}
use libmq.Engine.Contract.{Contract, Makes}
use libmq.Registry.{Build, release_lock}
use libmq.Registry.Dispatch.{AllColonless}
use libmq.Registry.Threads.{Apart}
use libmq.Client.{Call, session}
use libmq.Client.Session.{Made, session-Ends}
use libmq.Random.{RandomWorld, Heap, on_mq}
use libmq.Random.Connections
use libmq.Random.Connections.{new_mq}
use libmq.Random.Messages
use libmq.Random.Impl.{construct}
use libmq.Random.Sessions.{connection}
use libmq.Random.Connecting.{built, construct-built, release_lem, dropped}
use libmq.Random.Contract.{Held, Live, on_mq-Ends, on_mq-Keeps, served, on_message-Steady}
use libmq.Random.Sizes.{Sized, len-Sized, content_type-Sized, body-Covers}
use libmq.Random.Lives.{set_partition-Steady, partition-Steady, release-Frees, next-Makes}

module _ (cluster_partition : Option ℕ → Option CString) (self : Ptr) where
  -- `mq_random_create_` always fails.
  create-Makes :
      Makes (Held self) (Live self) ((connection cluster_partition self).impl.create self)
  unfolding Connections.create
  create-Makes w (q, held) =
      Ends-bind (on_mq self Connections.create) (λ r. pure (r, none))
        (on_mq-Ends self Connections.create w held)
        λ r w₁ (steady, e). Ends-pure (r, none) w₁ (steady, λ good. cc (sym (ap nonzero e) ∙ good))

  connection_contract : Contract (connection cluster_partition self)
  connection_contract = record {
    Held = Held self;
    Live = Live self;
    Sized = Sized self;
    release = λ w (q, held). record {
      result = 0;
      after = dropped self q w;
      run = release_lem w self held;
      holds = tt;
    };
    error = on_mq-Keeps self Connections.error;
    errmsg = on_mq-Keeps self Connections.errmsg;
    connect_recv = on_mq-Keeps self Connections.connect_recv;
    connect_send = on_mq-Keeps self Connections.connect_send;
    next = next-Makes self cluster_partition;
    deliver = on_mq-Keeps self Connections.deliver;
    create = create-Makes;
    set_cluster = λ cluster. on_mq-Keeps self (Connections.set_cluster cluster_partition cluster);
    set_partition = λ partition. on_mq-Keeps self (Connections.set_partition partition);
    partition = on_mq-Keeps self Connections.partition;
    message_release = release-Frees self;
    kind = served self (λ m. m.impl.kind m.self) (on_message-Steady self Messages.kind);
    accept = served self (λ m. m.impl.accept m.self) (on_message-Steady self Messages.accept);
    reject = served self (λ m. m.impl.reject m.self) (on_message-Steady self Messages.reject);
    pass = served self (λ m. m.impl.pass m.self) (on_message-Steady self Messages.pass);
    send = served self (λ m. m.impl.send m.self) (on_message-Steady self Messages.send);
    set_type = λ s.
        served self (λ m. m.impl.set_type m.self s) (on_message-Steady self (Messages.set_type s));
    content_type = content_type-Sized self;
    set_subject = λ s.
        served self (λ m. m.impl.set_subject m.self s)
          (on_message-Steady self (Messages.set_subject s));
    subject = served self (λ m. m.impl.subject m.self) (on_message-Steady self Messages.subject);
    set_address = λ s.
        served self (λ m. m.impl.set_address m.self s)
          (on_message-Steady self (Messages.set_address s));
    address = served self (λ m. m.impl.address m.self) (on_message-Steady self Messages.address);
    body = body-Covers self;
    len = len-Sized self;
    add_bytes = λ s.
        served self (λ m. m.impl.add_bytes m.self s)
          (on_message-Steady self (Messages.add_bytes s));
    message_set_partition =
        λ s. served self (λ m. m.impl.set_partition m.self s) (set_partition-Steady self s);
    message_partition = served self (λ m. m.impl.partition m.self) (partition-Steady self);
  }

module _ (cluster_partition : Option ℕ → Option CString) (uri : CString) where
  no_object :
      (w : RandomWorld)
      → exhausted w.libc ≡ true
      → Connections.construct uri none none w ≡ some (none, record w { libc = after_alloc w.libc })
  unfolding Connections.construct
  no_object w full = ground arith

  no_uri :
      (w : RandomWorld)
      → exhausted w.libc ≡ false
      → exhausted (after_alloc w.libc) ≡ true
      → Connections.construct uri none none w
        ≡ some (none, record w { libc = after_free (after_alloc (after_alloc w.libc)) })
  unfolding Connections.construct
  no_uri w room full = ground arith

  -- A connection that is made is live, under the lock and behind it; the table is left alone.
  construct-Makes :
      (w : RandomWorld)
      → Ends
          (construct cluster_partition uri none none w)
          (λ made w'. Made made (release_lock w') × Apart w w')
  unfolding construct connection_contract after_alloc after_free
  construct-Makes w = elim (Bool-cases (exhausted w.libc)) [
    | inl full ↦ record {
      result = none;
      after = record w { libc = after_alloc w.libc };
      run = >>=-some (Connections.construct uri none none) _ (no_object w full);
      holds = (tt, record { engines = refl; lock = refl; refuses = ground arith });
    }
    | inr room ↦ elim (Bool-cases (exhausted (after_alloc w.libc))) [
      | inl full ↦ record {
        result = none;
        after = record w { libc = after_free (after_alloc (after_alloc w.libc)) };
        run = >>=-some (Connections.construct uri none none) _ (no_uri w room full);
        holds = (tt, record { engines = refl; lock = refl; refuses = ground arith });
      }
      | inr more ↦ record {
        result = some (connection cluster_partition w.heap.fresh);
        after = built uri w;
        run =
            construct-built cluster_partition uri none none w
              (record { object = room; uri = more });
        holds = (
          (
            connection_contract cluster_partition w.heap.fresh,
            (λ v v' same (q, held). (q, ap (λ (h : Heap). h.conns w.heap.fresh) same ∙ held)),
            (new_mq uri, get_put w.heap.fresh (some (new_mq uri)) w.heap.conns),
          ),
          record { engines = refl; lock = refl; refuses = ground arith },
        );
      }
    ]
  ]

  pub construct-Made :
      (w : RandomWorld)
      → Ends (construct cluster_partition uri none none w) (λ made w'. Made made (release_lock w'))
  construct-Made w = Ends-weaken (λ made w' h. h.0) (construct-Makes w)

  -- The constructor of the engine leaves the table alone, as `Registry.Threads` asks.
  pub construct-Apart :
      (w : RandomWorld) {mq : Option (Mq (RandomWorld))} {w' : RandomWorld}
      → construct cluster_partition uri none none w ≡ some (mq, w')
      → Apart w w'
  construct-Apart w made = (Ends-at (construct-Makes w) made).1

  -- In a build whose constructors are all the random engine's, in an initialised process with a
  -- free lock and schemes without a colon, a program always has a result, whatever the allocator,
  -- libcluster and the URI are, if it opens one connection for receiving or for sending, makes any
  -- list of calls of the public functions on it and on the messages that it holds, where a message
  -- is no longer held once it is accepted, rejected, passed or freed, and closes the connection:
  -- none of the calls reads a connection or a message that has been freed.
  pub session-Ends_random :
      (b : Build Heap (Mq RandomWorld)) (w : RandomWorld)
      → ((k : ℕ) (w : RandomWorld)
          → b.call k uri none none w ≡ construct cluster_partition uri none none w)
      → w.initialised ≡ true
      → w.enginelock ≡ idle
      → AllColonless w.engines
      → (receiving : Bool) (calls : List Call)
      → Ends (session b receiving uri calls w) (λ _ _. Unit {0})
  session-Ends_random b w linked ready free plain =
      session-Ends b uri (λ k w. Ends-eq (linked k w) (construct-Made w)) w ready free plain
