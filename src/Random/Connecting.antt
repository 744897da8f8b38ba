-- ===== src/Random/Connecting.antt =====
-- `mq_connect_recv` and `mq_connect_send` with a URI of the random engine.
use libmq.Base.{ℕ, suc, ◌%◌, ◌^◌, pos, ◌≡◌, refl, ◌∙◌, Option, none, some, true, false, arith}
use libmq.Base.CString.{CString}
use libmq.Libc.{Libc, exhausted, after_alloc, after_free, after_free?, set_errno, srandom, eperm}
use libmq.Cmd.{>>=-some}
use libmq.World.Locks.{idle, rdlock, unlock}
use libmq.Engine.{Ptr, Mq, recv}
use libmq.Registry.{Build, create, lock_read}
use libmq.Registry.Table.{table}
use libmq.Registry.Dispatch.{AllColonless, via, scheme_of, create-found}
use libmq.Connection
use libmq.Random.{RandomMq, RandomWorld, Heap, Frame, write_mq, on_mq}
use libmq.Base.Cells.{put, put_twice, put_none, get_put}
use libmq.Random.Connections
use libmq.Random.Connections.{new_mq}
use libmq.Random.Impl.{construct}
use libmq.Random.Sessions.{connection, frame}

pub on_mq_lem :
    {A : Type 0} (w : RandomWorld) (p : Ptr) {q : RandomMq} (method : Frame → A × Frame)
    → w.heap.conns p ≡ some q
    → on_mq p method w ≡ (let (a, f) = method (frame w q) in some (a, write_mq p f w))
unfolding on_mq
on_mq_lem w p method live = rw (live, on_mq)

-- A new connection on the heap.
abbrev pub built : CString → RandomWorld → RandomWorld
built uri w = record w {
  libc = after_alloc (after_alloc w.libc);
  heap = record (w.heap) {
    conns = put w.heap.fresh (some (new_mq uri)) w.heap.conns;
    fresh = suc w.heap.fresh;
  };
}

-- Neither of the two allocations that a constructor makes is refused.
pub record HasRoom (c : Libc) : Type 0 where
  pub object : exhausted c ≡ false
  pub uri : exhausted (after_alloc c) ≡ false

Connections-construct :
    (uri : CString) (reserved1 reserved2 : Option CString) (w : RandomWorld)
    → HasRoom w.libc
    → Connections.construct uri reserved1 reserved2 w ≡ some (some w.heap.fresh, built uri w)
unfolding Connections.construct
Connections-construct uri reserved1 reserved2 w room = rw (room.object) (rw (room.uri))

-- The C library once the two blocks of the connection are made, and `srandom` is called.
abbrev pub seeded : Libc → Libc
seeded c = let c' = after_alloc (after_alloc c) in srandom (c'.time % 2 ^ 32) c'

-- What `mq_connect_recv` leaves: a new connection that is receiving, and a library unlocked.
pub record Opened (uri : CString) (w w' : RandomWorld) : Type 0 where
  pub mq : RandomMq
  pub live : w'.heap.conns w.heap.fresh ≡ some mq
  pub state : mq.state ≡ recv
  pub kept : mq.uri ≡ uri
  pub unlocked : w'.enginelock ≡ idle
  pub engines : w'.engines ≡ w.engines
  pub errcode : mq.errcode ≡ pos 0
  pub syserr : mq.syserr ≡ 0
  pub errmsg : mq.errmsg ≡ none
  pub libc : w'.libc ≡ seeded w.libc

-- What `mq_connect_send` leaves: the heap and the count of blocks as they were, and `EPERM`.
pub record Refused (w w' : RandomWorld) : Type 0 where
  pub conns : w'.heap.conns ≡ w.heap.conns
  pub msgs : w'.heap.msgs ≡ w.heap.msgs
  pub blocks : w'.libc.blocks ≡ w.libc.blocks
  pub errno : w'.libc.errno ≡ eperm
  pub unlocked : w'.enginelock ≡ idle

-- A connection whose owner has released it.
abbrev pub dropped : Ptr → RandomMq → RandomWorld → RandomWorld
dropped p q w = record w {
  libc = after_free (after_free (after_free? q.errmsg w.libc));
  heap = record (w.heap) { conns = put p none w.heap.conns };
}

pub release_lem :
    (w : RandomWorld) (p : Ptr) {q : RandomMq}
    → w.heap.conns p ≡ some q
    → Connections.release p w ≡ some (0, dropped p q w)
unfolding Connections.release
release_lem w p live = rw (live, Connections.release)

built-blocks :
    (c : Libc)
    → HasRoom c
    → (after_free (after_free (set_errno eperm (after_alloc (after_alloc c))))).blocks ≡ c.blocks
unfolding after_alloc after_free
built-blocks c room = ground (arith, room.object, room.uri)

module _ (cluster_partition : Option ℕ → Option CString) (uri : CString)
    (reserved1 reserved2 : Option CString) where
  pub construct-built :
      (w : RandomWorld)
      → HasRoom w.libc
      → construct cluster_partition uri reserved1 reserved2 w
        ≡ some (some (connection cluster_partition w.heap.fresh), built uri w)
  unfolding construct
  construct-built w room =
      >>=-some (Connections.construct uri reserved1 reserved2) _
        (Connections-construct uri reserved1 reserved2 w room)

  module _ (b : Build Heap (Mq RandomWorld)) (w : RandomWorld) {k : ℕ}
      (linked : (w : RandomWorld)
        → b.call k uri reserved1 reserved2 w
          ≡ construct cluster_partition uri reserved1 reserved2 w)
      (ready : w.initialised ≡ true) (unlocked : w.enginelock ≡ idle)
      (plain : AllColonless w.engines) (found : via (table w) (scheme_of uri) ≡ some k)
      (room : HasRoom w.libc) where
    create-built :
        create b uri reserved1 reserved2 w
        ≡ some (some (connection cluster_partition w.heap.fresh), built uri w)
    unfolding rdlock unlock
    create-built =
        create-found b uri reserved1 reserved2 w ready unlocked plain found
          (linked (lock_read w) ∙ construct-built (lock_read w) room)
        ∙ rw unlocked

    -- In a build whose constructor at address k is the random engine's, mq_connect_recv on a URI
    -- whose scheme is bound to k, in an initialised process with a free lock, schemes without a
    -- colon and room for two blocks, returns a new connection that holds the URI, is in the state
    -- MQS_RECV, and leaves the lock free and the table of engines as it was.
    pub connect_recv-Opened :
        (w' : RandomWorld) × (Connection.connect_recv b uri reserved1 reserved2 w
          ≡ some (some (connection cluster_partition w.heap.fresh), w'))
        × Opened uri w w'
    unfolding Connection.connect_recv Connections.connect_recv srandom
    connect_recv-Opened =
        let w₁ = built uri w in
        let p = w.heap.fresh in
        let live₁ : w₁.heap.conns p ≡ some (new_mq uri) =
          get_put p (some (new_mq uri)) w.heap.conns in
        let step = Connections.connect_recv (frame w₁ (new_mq uri)) in
        (
          write_mq p step.1 w₁,
          >>=-some (create b uri reserved1 reserved2) _ create-built
              ∙ >>=-some (on_mq p Connections.connect_recv) _
                  (on_mq_lem w₁ p Connections.connect_recv live₁),
          record {
            mq = step.1.mq;
            live = get_put p (some step.1.mq) w₁.heap.conns;
            state = refl;
            kept = refl;
            unlocked = unlocked;
            engines = refl;
            errcode = refl;
            syserr = refl;
            errmsg = refl;
            libc = refl;
          },
        )

    -- In a build whose constructor at address k is the random engine's, with a URI whose scheme is
    -- bound to k, in an initialised process with a free lock, schemes without a colon, room for two
    -- blocks and an unused address for the new connection, mq_connect_send returns NULL with errno
    -- EPERM; the connection that was made is gone, and the engine's heap, the count of blocks and
    -- the lock are as before.
    pub connect_send-Refused :
        w.heap.conns w.heap.fresh ≡ none
        → (w' : RandomWorld) × (Connection.connect_send b uri reserved1 reserved2 w
            ≡ some (none, w'))
          × Refused w w'
    unfolding Connection.connect_send Connections.connect_send after_free after_free?
    connect_send-Refused vacant =
        let w₁ = built uri w in
        let p = w.heap.fresh in
        let live₁ : w₁.heap.conns p ≡ some (new_mq uri) =
          get_put p (some (new_mq uri)) w.heap.conns in
        let f = (Connections.connect_send (frame w₁ (new_mq uri))).1 in
        let w₂ = write_mq p f w₁ in
        (
          dropped p f.mq w₂,
          >>=-some (create b uri reserved1 reserved2) _ create-built
              ∙ >>=-some (on_mq p Connections.connect_send) _
                  (on_mq_lem w₁ p Connections.connect_send live₁)
              ∙ >>=-some (Connections.release p) _
                  (release_lem w₂ p {q = f.mq} (get_put p (some f.mq) w₁.heap.conns)),
          record {
            conns =
                put_twice p (some f.mq) none w₁.heap.conns
                ∙ put_none p (some (new_mq uri)) w.heap.conns vacant;
            msgs = refl;
            blocks = built-blocks w.libc room;
            errno = refl;
            unlocked = unlocked;
          },
        )
