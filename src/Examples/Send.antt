-- ===== src/Examples/Send.antt =====
-- Examples for mq-send.c.
use libmq.Base.{ℕ, ◌≡◌, refl, List, [], ◌∷◌, none, some, pos, arith}
use libmq.Base.CString.{CString, codes, same}
use libmq.Libc.{after_alloc}
use libmq.World.{World}
use libmq.Engine.{Mq}
use libmq.Registry.{Build}
use libmq.Registry.Table.{lookup}
use libmq.Registry.Dispatch.{scheme_of}
use libmq.Random.{RandomWorld, Heap}
use libmq.Random.Impl.{construct}
use libmq.Random.Connecting.{HasRoom, Refused}
use libmq.Send.{Opt, main, parse, options}
use libmq.Send.Options.{asked, parse-asked}
use libmq.Send.Input.{Reads, read_input-Reads}
use libmq.Send.Refusal.{main-Refused}
use libmq.Examples.Data.{tight, roomy, random_uri, slots, process, slots-AllColonless}

abbrev chunks : List CString
chunks = codes "hello " ∷ codes "world" ∷ [] ∷ []

abbrev reading : World ℕ
reading = process tight [] 0

read_input-Reads_example : Reads chunks 0 [] reading
read_input-Reads_example =
    read_input-Reads chunks 0 [] reading (omega arith, (omega arith, (omega arith, tt)))
      (omega arith)

abbrev started : RandomWorld
started = process roomy slots (record { conns = λ _. none; msgs = λ _. none; fresh = 1 })

abbrev linked : Build Heap (Mq RandomWorld)
linked = record {
  proton = none;
  plugin_init = λ w. some (pos 0, w);
  call = λ k uri reserved1 reserved2 w. construct (λ _. none) uri reserved1 reserved2 w;
}

started-HasRoom : HasRoom roomy
unfolding after_alloc
started-HasRoom = record { object = refl; uri = refl }

-- mq-send -t text/html -t text/plain URI
abbrev opts : List Opt
opts =
    record { c = b't'; optarg = some (codes "text/html") }
    ∷ record { c = b't'; optarg = some (codes "text/plain") }
    ∷ []

parse-asked_example : parse opts none none ≡ asked opts none none
parse-asked_example = parse-asked opts none none

opts-parse : parse opts none none ≡ options (some (codes "text/plain")) none
unfolding parse
opts-parse = refl

main-Refused_example :
    (w' : RandomWorld) × (main linked opts (random_uri ∷ []) chunks started ≡ some (pos 1, w'))
    × Refused started w'
unfolding scheme_of lookup same
main-Refused_example =
    main-Refused (λ _. none) linked opts random_uri [] chunks started
      {type = some (codes "text/plain")} {subj = none} {k = 7} opts-parse (λ w. refl) refl refl
      slots-AllColonless refl started-HasRoom refl
