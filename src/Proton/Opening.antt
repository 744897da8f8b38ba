-- ===== src/Proton/Opening.antt =====
-- A new connection of queues/qpid-proton.c, as mq_create_ makes it.
use libmq.Base.{ℕ, suc, ◌≡◌, refl, ◌∙◌, ap, true, none, some, arith}
use libmq.Base.Cells.{put, get_put}
use libmq.Base.CString.{CString}
use libmq.Libc.{after_alloc}
use libmq.Cmd.{>>=-some}
use libmq.World.Locks.{idle, rdlock, unlock}
use libmq.Engine.{Ptr, Mq}
use libmq.Registry.{Build, create, lock_read}
use libmq.Registry.Table.{table}
use libmq.Registry.Dispatch.{AllColonless, via, scheme_of, create-found}
use libmq.Proton.{ProtonWorld, Heap}
use libmq.Proton.Library.{Proton}
use libmq.Proton.Connections
use libmq.Proton.Connections.{new_mq}
use libmq.Proton.Impl.{connection_impl, construct}
use libmq.Proton.Holding.{Holds, Yields, Roomy, Roomy-after_alloc, after_alloc_lem}

module _ (lib : Proton) where
  -- A handle on a connection of the engine.
  abbrev pub connection : Ptr → Mq (ProtonWorld lib.State)
  connection self = record { impl = connection_impl lib; self = self }

module _ (lib : Proton) (uri : CString) (w : ProtonWorld lib.State) where
  -- A new connection on the heap.
  abbrev pub built : ProtonWorld lib.State
  built = record w {
    libc = after_alloc (after_alloc w.libc);
    heap = record (w.heap) {
      conns = put w.heap.fresh (some (new_mq lib uri)) w.heap.conns;
      fresh = suc w.heap.fresh;
    };
  }

  Connections-construct :
      Roomy w.libc → Connections.construct lib uri none none w ≡ some (some w.heap.fresh, built)
  unfolding Connections.construct
  Connections-construct room =
      ground
        (arith, room w.libc.requests, Roomy-after_alloc w.libc room (after_alloc w.libc).requests)

  construct-built :
      Roomy w.libc
      → construct lib uri none none w ≡ some (some (connection lib w.heap.fresh), built)
  unfolding construct
  construct-built room =
      >>=-some (Connections.construct lib uri none none) _ (Connections-construct room)

  built-Holds :
      Roomy w.libc
      → w.enginelock ≡ idle
      → Holds lib w.heap.fresh
          (some (new_mq lib uri))
          0
          (w.heap.msgs 0)
          w.heap.pn
          (suc (suc w.libc.blocks))
          built
  built-Holds room free =
      let c = after_alloc w.libc in
      let room₁ = Roomy-after_alloc w.libc room in
      let blocks₁ = (after_alloc_lem w.libc (room w.libc.requests)).1 in
      let blocks₂ = (after_alloc_lem c (room₁ c.requests)).1 in
      record {
        conn = get_put w.heap.fresh (some (new_mq lib uri)) w.heap.conns;
        message = refl;
        pn = refl;
        blocks = blocks₂ ∙ ap suc blocks₁;
        room = Roomy-after_alloc c room₁;
        unlocked = free;
      }

module _ (lib : Proton) (uri : CString) (w : ProtonWorld lib.State) where
  module _ (b : Build (Heap lib.State) (Mq (ProtonWorld lib.State))) {k : ℕ}
      (linked : (w : ProtonWorld lib.State)
        → b.call k uri none none w ≡ construct lib uri none none w)
      (ready : w.initialised ≡ true) (unlocked : w.enginelock ≡ idle)
      (plain : AllColonless w.engines) (found : via (table w) (scheme_of uri) ≡ some k)
      (room : Roomy w.libc) where
    pub create-Yields :
        Yields lib w.heap.fresh
          (create b uri none none w)
          (some (connection lib w.heap.fresh))
          (some (new_mq lib uri))
          0
          (w.heap.msgs 0)
          w.heap.pn
          (suc (suc w.libc.blocks))
    unfolding rdlock unlock
    create-Yields = (
      built lib uri w,
      create-found b uri none none w ready unlocked plain found
            (linked (lock_read w) ∙ construct-built lib uri (lock_read w) room)
          ∙ rw unlocked,
      built-Holds lib uri w room unlocked,
    )
