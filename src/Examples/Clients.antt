-- ===== src/Examples/Clients.antt =====
-- Programs that use the public functions on a connection, with either engine.
use libmq.Base.{refl, true, List, [], ◌∷◌, none, some, pos, leb, arith}
use libmq.Base.CString.{CString, codes}
use libmq.Libc.{Libc}
use libmq.Cmd.Ends.{Ends}
use libmq.Engine.{Mq}
use libmq.Registry.{Build}
use libmq.Random
use libmq.Random.Clients.{session-Ends_random}
use libmq.Proton
use libmq.Proton.Clients.{session-Ends_proton}
use libmq.Client.{Call, Use, Settling, session}
use libmq.Recv
use libmq.Recv.Total.{IsProper, main-Proper}
use libmq.Send
use libmq.Send.{Opt}
use libmq.Send.Outcome.{Outcome}
use libmq.Send.Total.{Unmade, main-Outcome}
use libmq.Examples.Library.{Pn, empty, supplying}
use libmq.Examples.Data.{libc_with, roomy, random_uri, slots, process, slots-AllColonless}

-- Five requests are granted: two for the connection, and three messages.
abbrev limited : Libc
limited = libc_with (λ n. leb 5 n)

abbrev random_process : Random.RandomWorld
random_process = process limited slots (record { conns = λ _. none; msgs = λ _. none; fresh = 1 })

abbrev random_build : Build Random.Heap (Mq Random.RandomWorld)
random_build = record {
  proton = none;
  plugin_init = λ w. some (pos 0, w);
  call = λ k uri reserved1 reserved2 w. Random.Impl.construct (λ _. none) uri reserved1 reserved2 w;
}

abbrev proton_process : Proton.ProtonWorld Pn
proton_process = process roomy slots (record {
  conns = λ _. none;
  msgs = λ _. none;
  fresh = 1;
  pn = record empty { queue = 3 ∷ 4 ∷ [] };
})

abbrev proton_build : Build (Proton.Heap Pn) (Mq (Proton.ProtonWorld Pn))
proton_build = record {
  proton = some 7;
  plugin_init = λ w. some (pos 0, w);
  call = λ k uri reserved1 reserved2 w. Proton.Impl.construct supplying uri reserved1 reserved2 w;
}

-- Two messages are read, the first is settled twice by its position, and a new one is sent.
abbrev calls : List Call
calls =
    Call.next
    ∷ Call.next
    ∷ Call.uses 1 Use.body
    ∷ Call.settles 1 Settling.accept
    ∷ Call.settles 1 Settling.accept
    ∷ Call.message_create
    ∷ Call.uses 0 (Use.add_bytes (codes "news"))
    ∷ Call.uses 0 Use.send
    ∷ Call.deliver
    ∷ Call.settles 0 Settling.free
    ∷ Call.error
    ∷ []

session-Ends_random_example :
    Ends (session random_build true random_uri calls random_process) (λ _ _. Unit {0})
session-Ends_random_example =
    session-Ends_random (λ _. none) random_uri random_build random_process (λ k w. refl) refl refl
      slots-AllColonless true calls

session-Ends_proton_example :
    Ends (session proton_build true random_uri calls proton_process) (λ _ _. Unit {0})
session-Ends_proton_example =
    session-Ends_proton supplying random_uri proton_build proton_process (λ k w. refl) refl refl
      slots-AllColonless true calls

main-Proper_example :
    Ends (Recv.main random_build 4 (random_uri ∷ []) random_process) (λ r _. IsProper r.0)
main-Proper_example =
    main-Proper random_build random_uri
      (λ k w. Random.Clients.construct-Made (λ _. none) random_uri w) random_process refl refl
      slots-AllColonless 4

abbrev opts : List Opt
opts = record { c = b't'; optarg = some (codes "text/plain") } ∷ []

abbrev chunks : List CString
chunks = codes "hello " ∷ codes "world" ∷ [] ∷ []

main-Outcome_example :
    Outcome
      (Unmade proton_build random_uri chunks proton_process)
      (Send.main proton_build opts (random_uri ∷ []) chunks proton_process)
main-Outcome_example =
    main-Outcome proton_build random_uri
      (λ k w. Proton.Clients.construct-Made supplying random_uri w) proton_process refl refl
      slots-AllColonless opts [] chunks (omega arith, (omega arith, (omega arith, tt)))
