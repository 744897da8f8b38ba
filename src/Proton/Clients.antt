-- ===== src/Proton/Clients.antt =====
-- Programs that use the engine of queues/qpid-proton.c through the public functions.
use libmq.Base.{
  ℕ, ◌≡◌, refl, inl, inr, Bool, true, false, List, Option, none, some, arith, Bool-cases,
}
use libmq.Base.Cells.{get_put}
use libmq.Base.CString.{CString}
use libmq.Libc.{exhausted, after_alloc, after_free}
use libmq.Cmd.{>>=-some}
use libmq.Cmd.Ends.{Ends, Ends-eq, Ends-weaken, Ends-at}
use libmq.World.Locks.{idle}
use libmq.Engine.{Mq}
use libmq.Registry.{Build, release_lock}
use libmq.Registry.Dispatch.{AllColonless}
use libmq.Registry.Threads.{Apart}
use libmq.Client.{Call, session}
use libmq.Client.Session.{Made, session-Ends}
use libmq.Proton.{ProtonWorld, Heap}
use libmq.Proton.Library.{Proton}
use libmq.Proton.Connections
use libmq.Proton.Connections.{new_mq}
use libmq.Proton.Impl.{construct}
use libmq.Proton.Opening.{connection, built}
use libmq.Proton.Tables.{Made-connection}

module _ (lib : Proton) (uri : CString) where
  open lib use {State}

  no_object :
      (w : ProtonWorld State)
      → exhausted w.libc ≡ true
      → Connections.construct lib uri none none w
        ≡ some (none, record w { libc = after_alloc w.libc })
  unfolding Connections.construct
  no_object w full = ground arith

  no_uri :
      (w : ProtonWorld State)
      → exhausted w.libc ≡ false
      → exhausted (after_alloc w.libc) ≡ true
      → Connections.construct lib uri none none w
        ≡ some (none, record w { libc = after_free (after_alloc (after_alloc w.libc)) })
  unfolding Connections.construct
  no_uri w room full = ground arith

  both :
      (w : ProtonWorld State)
      → exhausted w.libc ≡ false
      → exhausted (after_alloc w.libc) ≡ false
      → Connections.construct lib uri none none w ≡ some (some w.heap.fresh, built lib uri w)
  unfolding Connections.construct
  both w room more = ground arith

  -- A connection that is made is live, under the lock and behind it; the table is left alone.
  construct-Makes :
      (w : ProtonWorld State)
      → Ends (construct lib uri none none w) (λ made w'. Made made (release_lock w') × Apart w w')
  unfolding construct after_alloc after_free
  construct-Makes w = elim (Bool-cases (exhausted w.libc)) [
    | inl full ↦ record {
      result = none;
      after = record w { libc = after_alloc w.libc };
      run = >>=-some (Connections.construct lib uri none none) _ (no_object w full);
      holds = (tt, record { engines = refl; lock = refl; refuses = ground arith });
    }
    | inr room ↦ elim (Bool-cases (exhausted (after_alloc w.libc))) [
      | inl full ↦ record {
        result = none;
        after = record w { libc = after_free (after_alloc (after_alloc w.libc)) };
        run = >>=-some (Connections.construct lib uri none none) _ (no_uri w room full);
        holds = (tt, record { engines = refl; lock = refl; refuses = ground arith });
      }
      | inr more ↦ record {
        result = some (connection lib w.heap.fresh);
        after = built lib uri w;
        run = >>=-some (Connections.construct lib uri none none) _ (both w room more);
        holds = (
          Made-connection lib w.heap.fresh (release_lock (built lib uri w)) {q = new_mq lib uri}
              (get_put w.heap.fresh (some (new_mq lib uri)) w.heap.conns),
          record { engines = refl; lock = refl; refuses = ground arith },
        );
      }
    ]
  ]

  pub construct-Made :
      (w : ProtonWorld State)
      → Ends (construct lib uri none none w) (λ made w'. Made made (release_lock w'))
  construct-Made w = Ends-weaken (λ made w' h. h.0) (construct-Makes w)

  -- The constructor of the engine leaves the table alone, as `Registry.Threads` asks.
  construct-Apart :
      (w : ProtonWorld State) {mq : Option (Mq (ProtonWorld State))} {w' : ProtonWorld State}
      → construct lib uri none none w ≡ some (mq, w')
      → Apart w w'
  construct-Apart w made = (Ends-at (construct-Makes w) made).1

  -- In a build whose constructors are all the Proton engine's, in an initialised process with a
  -- free lock and schemes without a colon, a program always has a result, whatever the Proton
  -- library, the allocator and the URI are, if it opens one connection for receiving or for
  -- sending, makes any list of calls of the public functions on it and on the messages that it
  -- holds, where a message is no longer held once it is accepted, rejected, passed or freed, and
  -- closes the connection: none of the calls reads a connection or a message that has been freed.
  pub session-Ends_proton :
      (b : Build (Heap State) (Mq (ProtonWorld State))) (w : ProtonWorld State)
      → ((k : ℕ) (w : ProtonWorld State) → b.call k uri none none w ≡ construct lib uri none none w)
      → w.initialised ≡ true
      → w.enginelock ≡ idle
      → AllColonless w.engines
      → (receiving : Bool) (calls : List Call)
      → Ends (session b receiving uri calls w) (λ _ _. Unit {0})
  session-Ends_proton b w linked ready free plain =
      session-Ends b uri (λ k w. Ends-eq (linked k w) (construct-Made w)) w ready free plain
