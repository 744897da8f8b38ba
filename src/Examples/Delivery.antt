-- ===== src/Examples/Delivery.antt =====
-- An example for mq-send.c with the Proton engine.
use libmq.Base.{◌≡◌, refl, List, [], ◌∷◌, none, some, pos, arith}
use libmq.Base.CString.{CString, codes, same}
use libmq.Engine.{Mq}
use libmq.Registry.{Build}
use libmq.Registry.Table.{lookup}
use libmq.Registry.Dispatch.{scheme_of}
use libmq.Proton.{ProtonWorld, Heap}
use libmq.Proton.Impl.{construct}
use libmq.Proton.Granting.{Granting}
use libmq.Send.{Opt, main, parse, options}
use libmq.Send.Input.{joined}
use libmq.Send.Delivery.{Done, main-Done}
use libmq.Examples.Library.{Pn, empty, granting}
use libmq.Examples.Data.{roomy, random_uri, slots, process, slots-AllColonless}

-- The constructor at address 7, of the scheme in the table, is that of the Proton engine.
abbrev linked : Build (Heap Pn) (Mq (ProtonWorld Pn))
linked = record {
  proton = some 7;
  plugin_init = λ w. some (pos 0, w);
  call = λ k uri reserved1 reserved2 w. construct granting uri reserved1 reserved2 w;
}

abbrev started : ProtonWorld Pn
started =
    process roomy slots (record { conns = λ _. none; msgs = λ _. none; fresh = 1; pn = empty })

granting-Granting : Granting granting
granting-Granting = record {
  messenger = λ c p. (1, p, refl);
  message = λ c p. (1, p, refl);
  errno = λ m p. refl;
  body = λ msg p. (1, refl);
  put_binary = λ d s p. refl;
  set_address = λ msg s p. refl;
  put = λ m msg p. refl;
  send = λ m n p. refl;
}

abbrev opts : List Opt
opts =
    record { c = b't'; optarg = some (codes "text/plain") }
    ∷ record { c = b's'; optarg = some (codes "greeting") }
    ∷ []

opts-parse : parse opts none none ≡ options (some (codes "text/plain")) (some (codes "greeting"))
unfolding parse
opts-parse = refl

abbrev chunks : List CString
chunks = codes "world" ∷ [] ∷ []

main-Done_example :
    (w' : ProtonWorld Pn) × (main linked opts (random_uri ∷ []) (codes "hello " ∷ chunks) started
      ≡ some (pos 0, w'))
    × Done granting random_uri started
        (some (codes "text/plain"))
        (some (codes "greeting"))
        (joined (codes "hello " ∷ chunks))
        w'
unfolding scheme_of lookup same
main-Done_example =
    main-Done granting granting-Granting linked random_uri started {k = 7} (λ w. refl) refl refl
      slots-AllColonless refl (λ n. refl) opts [] (codes "hello ") chunks opts-parse
      (omega arith, (omega arith, (omega arith, tt)))
