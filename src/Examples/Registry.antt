-- ===== src/Examples/Registry.antt =====
-- Examples for the registry of engine.c.
use libmq.Base.{
  ℕ, ◌≤◌, ◌≡◌, refl, List, [], ◌∷◌, none, some, pos, minus_one, length, arith, if◌then◌else◌, ◌==◌,
}
use libmq.Base.CString.{same}
use libmq.Libc.{after_alloc}
use libmq.World.{World}
use libmq.Registry.{Build, register, unregister, unregister_constructor, unregister_all, create}
use libmq.Registry.Slots.{size_max, passes, has_construct, has_handle, is_registered}
use libmq.Registry.Table.{table, lookup, drop_where}
use libmq.Registry.Scanning.{entry}
use libmq.Registry.Unregister.{count}
use libmq.Registry.Refinement.{Registers, register-bind, unregisters-drop_where}
use libmq.Registry.Dispatch.{via, scheme_of, dispatched, create-dispatched}
use libmq.Registry.History.{Call, registers, unregisters, run, meanings, Inv, run-Inv, run-meanings}
use libmq.Registry.Leak.{register_leak}
use libmq.Examples.Data.{
  roomy, tight, random_scheme, amqp, random_uri, slots, process, slots-Distinct, slots-AllColonless,
}

abbrev started : World ℕ
started = process roomy slots 0

started-Inv : Inv started
started-Inv = record { unlocked = refl; distinct = slots-Distinct }

-- One engine comes and goes beside the first, and one changes its constructor.
abbrev calls : List Call
calls = registers amqp 9 4 ∷ unregisters random_scheme 3 ∷ registers amqp 11 4 ∷ []

run-meanings_example : table (run calls started) ≡ meanings calls (table started)
unfolding size_max
run-meanings_example = run-meanings calls started started-Inv (λ n. refl) (omega arith)

run-Inv_example : Inv (run calls started) × (length (run calls started).engines ≤ 5)
unfolding size_max
run-Inv_example = run-Inv calls started started-Inv (omega arith)

register-bind_example : Registers amqp 9 4 started (register amqp 9 4 started)
unfolding size_max
register-bind_example = register-bind amqp 9 4 started (omega arith)

unregisters-drop_where_example :
    (let (r, w') = unregister random_scheme 3 started in
      (table w' ≡ drop_where (is_registered random_scheme 3) (table started))
      × (r ≡ (elim (table started random_scheme) [
        | none ↦ pos 0
        | some p ↦ if p.1 == 3 then pos 1 else pos 0
      ])))
    × (let (r, w') = unregister_constructor 7 started in
        (table w' ≡ drop_where (has_construct 7) (table started))
        × (r ≡ pos (count (passes (has_construct 7)) slots)))
    × (let (r, w') = unregister_all 3 started in
        (table w' ≡ drop_where (has_handle 3) (table started))
        × (r ≡ pos (count (passes (has_handle 3)) slots)))
unregisters-drop_where_example = unregisters-drop_where started slots-Distinct random_scheme 3 7

-- A build without Proton or plug-ins, whose constructors return their own address.
abbrev echo : Build ℕ ℕ
echo = record {
  proton = none;
  plugin_init = λ w. some (pos 0, w);
  call = λ k uri reserved1 reserved2 w. some (some k, w);
}

create-dispatched_example :
    create echo random_uri none none started
    ≡ dispatched echo random_uri none none started (via (table started) (scheme_of random_uri))
create-dispatched_example =
    create-dispatched echo random_uri none none started refl refl slots-AllColonless

-- The engine that the example finds is the first.
test_scheme : via (table started) (scheme_of random_uri) ≡ some 7
unfolding scheme_of lookup same
test_scheme = refl

-- A process with one slot, in use, and one request left.
abbrev crowded : World ℕ
crowded = process tight (entry random_scheme 7 3 ∷ []) 0

register_leak_example :
    let (r, w') = register amqp 9 4 crowded in
    (r ≡ minus_one) × (w'.engines ≡ crowded.engines) × (w'.libc.blocks ≡ 6)
unfolding lookup same after_alloc
register_leak_example = register_leak amqp 9 4 crowded refl ((random_scheme, refl), tt) refl refl
