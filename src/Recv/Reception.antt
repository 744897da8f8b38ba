-- ===== src/Recv/Reception.antt =====
-- mq-recv.c with a URI of the Proton engine.
use libmq.Base.{ℕ, suc, ◌≡◌, ◌∙◌, true, List, [], ◌∷◌, none, some, ℤ, pos, length}
use libmq.Base.CString.{CString}
use libmq.Cmd.{>>=-some}
use libmq.World.Locks.{idle}
use libmq.Engine.{Mq}
use libmq.Registry.{Build, create}
use libmq.Registry.Table.{table}
use libmq.Registry.Dispatch.{AllColonless, via, scheme_of}
use libmq.Connection
use libmq.Proton.{ProtonWorld, Heap}
use libmq.Proton.Library.{Proton}
use libmq.Proton.Connections
use libmq.Proton.Connections.{new_mq}
use libmq.Proton.Impl.{construct}
use libmq.Proton.Receiving
use libmq.Proton.Receiving.{Subscribes, receiver, size, Fails, failed, told}
use libmq.Proton.Holding.{Roomy, on_mq-Yields}
use libmq.Proton.Opening.{connection, create-Yields}
use libmq.Recv.{Report, exited, main}
use libmq.Recv.Outcome.{Receives, listen-Released}

module _ (lib : Proton) (b : Build (Heap lib.State) (Mq (ProtonWorld lib.State))) (uri : CString)
    (w : ProtonWorld lib.State) {k : ℕ}
    (linked : (w : ProtonWorld lib.State)
      → b.call k uri none none w ≡ construct lib uri none none w)
    (ready : w.initialised ≡ true) (unlocked : w.enginelock ≡ idle) (plain : AllColonless w.engines)
    (found : via (table w) (scheme_of uri) ≡ some k) (room : Roomy w.libc) where
  open lib use {State}

  -- In a build whose constructor at address k is the Proton engine's, with a URI whose scheme is
  -- bound to k, in an initialised process with a free lock and schemes without a colon, if the
  -- allocator refuses nothing, the library subscribes to the URI, and then hands over a list of
  -- messages with bodies shorter than (size_t) -1 before it fails to bring another one, then
  -- mq-recv ends, in one round more than there are messages, with the status 0. It has printed the
  -- content type, the length and the body of each message, the body left out if it is empty, and
  -- the library has been told, message by message, to accept it, to settle it twice if its tracker
  -- is not 0, and to free it, and at last to stop and free the messenger; the connection is gone
  -- and the count of blocks is as before.
  pub main-Received :
      (m s : ℕ) (reports : List Report) (e : ℤ) (opened p : State)
      → Subscribes lib uri m s w.heap.pn opened
      → Receives lib m reports e opened p
      → (w' : ProtonWorld State) × (main b (suc (length reports)) (uri ∷ []) w
          ≡ some ((exited (pos 0), reports), w'))
        × (w'.heap.pn ≡ lib.free (some m) (lib.stop (some m) p))
        × (w'.libc.blocks ≡ w.libc.blocks)
        × (w'.heap.conns w.heap.fresh ≡ none)
  unfolding main Connection.connect_recv Connection.error
  main-Received m s reports e opened p subscribes receives =
      let self = w.heap.fresh in
      let conn = connection lib self in
      let (w₁, e₁, h₁) = create-Yields lib uri w b {k = k} linked ready unlocked plain found room in
      let (w₂, e₂, h₂) =
        on_mq-Yields lib self w₁ (Connections.connect_recv lib)
          (Receiving.connect_recv_lem lib uri m s w₁.libc w.heap.pn subscribes) h₁ in
      let (w₃, e₃, h₃) =
        on_mq-Yields lib self w₂ (Connections.error lib)
          (Receiving.error_lem lib uri m s w₂.libc opened) h₂ in
      let (new, message, (w₄, e₄, h₄)) =
        listen-Released lib self uri m s reports e w₃ receives h₃ in
      (
        w₄,
        >>=-some (Connection.connect_recv b uri none none) _
              (>>=-some (create b uri none none) _ e₁ ∙ >>=-some (conn.impl.connect_recv self) _ e₂)
            ∙ >>=-some (Connection.error conn) _ e₃
            ∙ e₄,
        h₄.pn,
        h₄.blocks,
        h₄.conn,
      )
