-- ===== src/Send/Refusal.antt =====
-- mq-send.c with a URI of the random engine, which sends nothing.
use libmq.Base.{ℕ, ◌≡◌, ◌∙◌, List, ◌∷◌, Option, none, some, true, pos}
use libmq.Base.CString.{CString}
use libmq.Cmd.{>>=-some}
use libmq.World.Locks.{idle}
use libmq.Engine.{Mq}
use libmq.Registry.{Build}
use libmq.Registry.Table.{table}
use libmq.Registry.Dispatch.{AllColonless, via, scheme_of}
use libmq.Connection
use libmq.Random.{RandomWorld, Heap}
use libmq.Random.Impl.{construct}
use libmq.Random.Connecting.{HasRoom, Refused, connect_send-Refused}
use libmq.Send.{Opt, session, main, parse, options}
use libmq.Send.Options.{main-session}

session-Refused :
    (cluster_partition : Option ℕ → Option CString) (b : Build Heap (Mq RandomWorld))
    (uri : CString) (type subj : Option CString) (chunks : List CString) (w : RandomWorld) {k : ℕ}
    → ((w : RandomWorld) → b.call k uri none none w ≡ construct cluster_partition uri none none w)
    → w.initialised ≡ true
    → w.enginelock ≡ idle
    → AllColonless w.engines
    → via (table w) (scheme_of uri) ≡ some k
    → HasRoom w.libc
    → w.heap.conns w.heap.fresh ≡ none
    → (w' : RandomWorld) × (session b uri type subj chunks w ≡ some (pos 1, w')) × Refused w w'
unfolding session
session-Refused cluster_partition b uri type subj chunks w {k} linked ready unlocked plain found
      room vacant =
    let (w', e, r) =
      connect_send-Refused cluster_partition uri none none b w {k = k} linked ready unlocked plain
        found room vacant in
    (w', >>=-some (Connection.connect_send b uri none none) _ e, r)

-- In a build whose constructor at address k is the random engine's, with a URI whose scheme is
-- bound to k, in an initialised process with a free lock, schemes without a colon, room for two
-- blocks and an unused address for a new connection, mq-send with that URI and options that do not
-- ask for the usage ends with the status 1, whatever its input, and leaves the heap, the count of
-- blocks and the lock as they were, and errno EPERM.
pub main-Refused :
    (cluster_partition : Option ℕ → Option CString) (b : Build Heap (Mq RandomWorld))
    (opts : List Opt) (uri : CString) (args chunks : List CString) (w : RandomWorld)
    {type subj : Option CString} {k : ℕ}
    → parse opts none none ≡ options type subj
    → ((w : RandomWorld) → b.call k uri none none w ≡ construct cluster_partition uri none none w)
    → w.initialised ≡ true
    → w.enginelock ≡ idle
    → AllColonless w.engines
    → via (table w) (scheme_of uri) ≡ some k
    → HasRoom w.libc
    → w.heap.conns w.heap.fresh ≡ none
    → (w' : RandomWorld) × (main b opts (uri ∷ args) chunks w ≡ some (pos 1, w')) × Refused w w'
main-Refused cluster_partition b opts uri args chunks w {type} {subj} {k} parsed linked ready
      unlocked plain found room vacant =
    let (w', e, r) =
      session-Refused cluster_partition b uri type subj chunks w {k = k} linked ready unlocked plain
        found room vacant in
    (w', main-session b opts uri args chunks w parsed ∙ e, r)
