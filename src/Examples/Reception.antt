-- ===== src/Examples/Reception.antt =====
-- An example for mq-recv.c with the Proton engine.
use libmq.Base.{◌≡◌, refl, inl, inr, List, [], ◌∷◌, none, some, pos}
use libmq.Base.CString.{codes, same}
use libmq.Engine.{Mq}
use libmq.Registry.{Build}
use libmq.Registry.Slots.{size_max}
use libmq.Registry.Table.{lookup}
use libmq.Registry.Dispatch.{scheme_of}
use libmq.Proton.{ProtonWorld, Heap}
use libmq.Proton.Impl.{construct}
use libmq.Proton.Receiving.{Subscribes}
use libmq.Recv.{Report, exited, main}
use libmq.Recv.Outcome.{Receives}
use libmq.Recv.Reception.{main-Received}
use libmq.Examples.Library.{Pn, empty, supplying}
use libmq.Examples.Data.{roomy, random_uri, slots, process, slots-AllColonless}

abbrev linked : Build (Heap Pn) (Mq (ProtonWorld Pn))
linked = record {
  proton = some 7;
  plugin_init = λ w. some (pos 0, w);
  call = λ k uri reserved1 reserved2 w. construct supplying uri reserved1 reserved2 w;
}

-- One message waits.
abbrev waiting : Pn
waiting = record empty { queue = 9 ∷ [] }

-- It was settled twice.
abbrev handed : Pn
handed = record empty { settled = pos 5 ∷ pos 5 ∷ [] }

abbrev started : ProtonWorld Pn
started =
    process roomy slots (record { conns = λ _. none; msgs = λ _. none; fresh = 1; pn = waiting })

abbrev reports : List Report
reports = record { type = none; len = 2; body = some (codes "42") } ∷ []

waiting-Subscribes : Subscribes supplying random_uri 1 1 waiting waiting
waiting-Subscribes = record {
  started = waiting;
  subscribed = waiting;
  messenger = λ c. refl;
  start = refl;
  subscribe = refl;
  sound = refl;
  window = refl;
}

waiting-Receives : Receives supplying 1 reports (pos 0) waiting handed
unfolding size_max
waiting-Receives = (
  handed,
  record {
    arrived = waiting;
    msg = 1;
    tracker = pos 5;
    d = 1;
    bytes = some (codes "42");
    read = empty;
    arrives = inl (refl, refl);
    handover = record {
      made = waiting;
      message = λ c. refl;
      sound = refl;
      tracked = refl;
      body = refl;
      binary = refl;
      read = refl;
    };
    small = refl;
    printed = refl;
    after = refl;
  },
  ((refl, refl, inr refl), refl),
)

main-Received_example :
    (w' : ProtonWorld Pn) × (main linked 2 (random_uri ∷ []) started
      ≡ some ((exited (pos 0), reports), w'))
    × (w'.heap.pn ≡ handed)
    × (w'.libc.blocks ≡ 5)
    × (w'.heap.conns 1 ≡ none)
unfolding scheme_of lookup same
main-Received_example =
    main-Received supplying linked random_uri started {k = 7} (λ w. refl) refl refl
      slots-AllColonless refl (λ n. refl) 1 1 reports (pos 0) waiting handed waiting-Subscribes
      waiting-Receives
