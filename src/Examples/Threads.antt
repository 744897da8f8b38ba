-- ===== src/Examples/Threads.antt =====
-- Two threads that use engine.c.
use libmq.Base.{◌≡◌, refl, List, [], ◌∷◌, none, some, pos, arith, append-nil}
use libmq.Base.CString.{CString, codes, same, same_upto}
use libmq.Libc.{after_alloc}
use libmq.Engine.{Mq}
use libmq.Random.{RandomWorld, Heap}
use libmq.Random.Impl.{construct}
use libmq.Random.Connecting.{HasRoom, built, construct-built}
use libmq.Random.Clients.{construct-Apart}
use libmq.World.Locks.{rdlock, wrlock, unlock}
use libmq.Registry.{Build, register_locked, store, lock_read, lock_write, release_lock}
use libmq.Registry.Slots.{serves, scan, size_max}
use libmq.Registry.Table.{table}
use libmq.Registry.History.{Call, registers, meanings}
use libmq.Registry.Threads.{
  Phase, outside, scanning, chosen, look, slot_at, can_read, change, Quiet, System, Move, Step, Run,
}
use libmq.Registry.Threads.Reading.{readers, Right}
use libmq.Registry.Threads.Exclusion.{Safe, writers, run-Safe}
use libmq.Registry.Threads.Order.{AllFound, run-meanings_threads}
use libmq.Examples.Data.{
  roomy, random_uri, amqp, slots, process, slots-Distinct, slots-AllColonless,
}

-- The constructor at address 7, of the scheme in the table, is that of the random engine.
abbrev linked : Build Heap (Mq RandomWorld)
linked = record {
  proton = none;
  plugin_init = λ w. some (pos 0, w);
  call = λ k uri reserved1 reserved2 w. construct (λ _. none) uri reserved1 reserved2 w;
}

linked-Quiet : Quiet linked
linked-Quiet k uri w mq w' made = construct-Apart (λ _. none) uri w made

abbrev call : Call
call = registers amqp 9 4

abbrev amqp_uri : CString
amqp_uri = codes "amqp://host/queue"

abbrev w₀ : RandomWorld
w₀ = process roomy slots (record { conns = λ _. none; msgs = λ _. none; fresh = 1 })

-- One thread is in the loop, and another enters it; when both have left, the first registers a
-- scheme, which the second then finds.
abbrev called : RandomWorld
called = built random_uri (lock_read (lock_read w₀))

abbrev called_twice : RandomWorld
called_twice = built random_uri (release_lock called)

abbrev w₁ : RandomWorld
w₁ = release_lock called_twice

called-HasRoom : HasRoom (lock_read (lock_read w₀)).libc
unfolding after_alloc
called-HasRoom = record { object = refl; uri = refl }

called_twice-HasRoom : HasRoom (release_lock called).libc
unfolding after_alloc
called_twice-HasRoom = record { object = refl; uri = refl }

abbrev w₂ : RandomWorld
w₂ = lock_read (change call (lock_write w₁))

abbrev system : RandomWorld → Phase → Phase → System Heap
system w p q = record { world = w; threads = p ∷ q ∷ [] }

first :
    {w w' : RandomWorld} {p p' : Phase} {log : List Call} (q : Phase)
    → Move linked w p log w' p'
    → Step linked (system w p q) log (system w' p' q)
first q m = Step.moves [] (q ∷ []) refl m

second :
    {w w' : RandomWorld} {p p' : Phase} {log : List Call} (q : Phase)
    → Move linked w p log w' p'
    → Step linked (system w q p) log (system w' q p')
second q m = Step.moves (q ∷ []) [] refl m

infixl 4 ◌then◌
-- One more step that changes nothing.
◌then◌ :
    {s t u : System Heap} {log : List Call}
    → Run linked s log t
    → Step linked t [] u
    → Run linked s log u
r then m = let q = Run.later r m in rw append-nil at q

reading_run : Run linked (system w₀ outside outside) [] (system w₁ outside outside)
unfolding look slot_at serves same_upto can_read rdlock unlock
reading_run =
    Run.start
    then first outside (Move.enter random_uri refl)
    then second (scanning random_uri 0) (Move.enter random_uri refl)
    then first (scanning random_uri 0) (Move.looks random_uri 0)
    then second (chosen random_uri (some 7)) (Move.looks random_uri 0)
    then first (chosen random_uri (some 7)) (
        Move.calls random_uri 7 (
          construct-built (λ _. none) random_uri none none (lock_read (lock_read w₀))
            called-HasRoom))
    then first (chosen random_uri (some 7)) Move.leave
    then second outside (
        Move.calls random_uri 7 (
          construct-built (λ _. none) random_uri none none (release_lock called)
            called_twice-HasRoom))
    then second outside Move.leave

whole_run :
    Run linked
      (system w₀ outside outside)
      (call ∷ [])
      (system w₂ outside (chosen amqp_uri (some 9)))
unfolding after_alloc look slot_at serves same_upto can_read rdlock unlock wrlock change
    register_locked store scan same size_max
whole_run =
    Run.later {log = []} {new = call ∷ []} (reading_run then first outside (Move.lock call refl))
      (first outside (Move.changes call))
    then second outside (Move.enter amqp_uri refl)
    then second outside (Move.looks amqp_uri 0)
    then second outside (Move.looks amqp_uri 1)

system-Safe : Safe (system w₀ outside outside)
unfolding readers writers Right
system-Safe = record { locked = (refl, refl); right = (tt, (tt, tt)) }

run-Safe_example : Safe (system w₂ outside (chosen amqp_uri (some 9)))
run-Safe_example = run-Safe linked linked-Quiet whole_run system-Safe

run-meanings_threads_example :
    let t = meanings (call ∷ []) (table w₀) in
    (table w₂ ≡ t) × AllFound t (outside ∷ chosen amqp_uri (some 9) ∷ [])
unfolding size_max
run-meanings_threads_example =
    run-meanings_threads linked linked-Quiet whole_run
      (record {
        safe = system-Safe;
        distinct = slots-Distinct;
        plain = slots-AllColonless;
        roomy = λ n. refl;
      })
      ((refl, (refl, (refl, (refl, tt)))), tt) (omega arith)
