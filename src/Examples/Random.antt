-- ===== src/Examples/Random.antt =====
-- Examples for the engine of queues/random.c.
use libmq.Base.{ℕ, ◌+◌, ◌≡◌, refl, List, [], ◌∷◌, Option, none, some, pos, minus_one, arith}
use libmq.Base.CString.{CString, codes, same}
use libmq.Base.Cells.{put}
use libmq.Libc.{after_alloc, after_free?, einval}
use libmq.Engine.{Mq, Message, incoming}
use libmq.Registry.{Build}
use libmq.Registry.Table.{lookup}
use libmq.Registry.Dispatch.{scheme_of}
use libmq.Connection
use libmq.Random.{RandomMessage, RandomWorld, Heap, Frame}
use libmq.Random.Connections
use libmq.Random.Connections.{new_mq}
use libmq.Random.Messages
use libmq.Random.Messages.{effective}
use libmq.Random.Impl.{construct}
use libmq.Random.Errors.{Call, performs, deliver-performs}
use libmq.Random.Partitions.{
  owned, set_partition-blocks, set_cluster-named, partition-set_partition,
}
use libmq.Random.Sessions.{
  handle, connection, frame, Verdict, settle_by, Settled, settle_by-Settled, Readable,
  next-Readable,
}
use libmq.Random.Connecting.{HasRoom, Opened, connect_recv-Opened, Refused, connect_send-Refused}
use libmq.Examples.Data.{roomy, random_uri, slots, process, slots-AllColonless}

-- What libcluster answers: the partition "p" in cluster 1.
abbrev libcluster : Option ℕ → Option CString
libcluster none = none
libcluster (some _) = some (codes "p")

abbrev sequel : RandomMessage
sequel = record { connection = 1; kind = incoming; buf = codes "42"; partition = none }

-- A connection at address 1 with a message at address 2.
abbrev heap : Heap
heap = record {
  conns = put 1 (some (new_mq random_uri)) (λ _. none);
  msgs = put 2 (some sequel) (λ _. none);
  fresh = 3;
}

abbrev started : RandomWorld
started = process roomy slots heap

-- The engine is linked in at address 7.
abbrev linked : Build Heap (Mq RandomWorld)
linked = record {
  proton = none;
  plugin_init = λ w. some (pos 0, w);
  call = λ k uri reserved1 reserved2 w. construct libcluster uri reserved1 reserved2 w;
}

started-HasRoom : HasRoom roomy
unfolding after_alloc
started-HasRoom = record { object = refl; uri = refl }

connect_recv-Opened_example :
    (w' : RandomWorld) × (Connection.connect_recv linked random_uri none none started
      ≡ some (some (connection libcluster 3), w'))
    × Opened random_uri started w'
unfolding scheme_of lookup same
connect_recv-Opened_example =
    connect_recv-Opened libcluster random_uri none none linked started {k = 7} (λ w. refl) refl refl
      slots-AllColonless refl started-HasRoom

connect_send-Refused_example :
    (w' : RandomWorld) × (Connection.connect_send linked random_uri none none started
      ≡ some (none, w'))
    × Refused started w'
unfolding scheme_of lookup same
connect_send-Refused_example =
    connect_send-Refused libcluster random_uri none none linked started {k = 7} (λ w. refl) refl
      refl slots-AllColonless refl started-HasRoom refl

next-Readable_example :
    (message : Message RandomWorld) × (w' : RandomWorld) × (Connection.next
        (connection libcluster 1)
        started
      ≡ some (some message, w'))
    × Readable started w' message
next-Readable_example = next-Readable libcluster 1 started {q = new_mq random_uri} refl refl

settle_by-Settled_example :
    (w' : RandomWorld) × (settle_by Verdict.rejected (handle 2) started ≡ some (pos 0, w'))
    × Settled started 2 sequel w'
settle_by-Settled_example =
    settle_by-Settled started 2 {m = sequel} {q = new_mq random_uri} refl refl Verdict.rejected

abbrev idle_frame : Frame
idle_frame = frame started (new_mq random_uri)

-- Connected and disconnected again.
abbrev calls : List Call
calls = Call.connects_recv ∷ Call.disconnects ∷ []

deliver-performs_example :
    let g = Connections.deliver (performs calls idle_frame) in
    (g.0 ≡ minus_one) × (g.1.mq.syserr ≡ einval) × (g.1.libc.errno ≡ einval)
deliver-performs_example = deliver-performs calls idle_frame refl

set_partition-blocks_example :
    let (r, f') = Connections.set_partition (some (codes "p")) idle_frame in
    f'.libc.blocks + 0 ≡ 5 + owned f'.mq.partition
set_partition-blocks_example = set_partition-blocks (some (codes "p")) idle_frame (omega arith)

set_cluster-named_example :
    let (r, f') = Connections.set_cluster libcluster (some 1) idle_frame in
    (r ≡ pos 0) × (f'.mq.cluster ≡ some 1) × (f'.mq.partition ≡ some (codes "p"))
set_cluster-named_example = set_cluster-named libcluster (some 1) idle_frame

abbrev marked : Heap
marked = record heap {
  msgs = put 2 (some (record sequel { partition = some (codes "p") })) heap.msgs;
}

partition-set_partition_example :
    Messages.partition 2 (record started { libc = after_alloc roomy; heap = marked })
    ≡ some (some (codes "p"), record started { libc = after_alloc roomy; heap = marked })
unfolding Messages.set_partition after_alloc after_free?
partition-set_partition_example =
    partition-set_partition started 2 {m = sequel} {q = new_mq random_uri} refl refl
      (some (codes "p")) refl
