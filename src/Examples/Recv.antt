-- ===== src/Examples/Recv.antt =====
-- Examples for mq-recv.c, and for the error texts of the engine that it reads from.
use libmq.Base.{◌≡◌, refl, List, [], ◌∷◌, none, some, pos, leb, arith}
use libmq.Base.CString.{same}
use libmq.Libc.{Libc}
use libmq.Engine.{Mq}
use libmq.Registry.{Build}
use libmq.Registry.Table.{lookup}
use libmq.Registry.Dispatch.{scheme_of}
use libmq.Random.{RandomWorld, Heap, Frame}
use libmq.Random.Connections
use libmq.Random.Connections.{new_mq}
use libmq.Random.Impl.{construct}
use libmq.Random.Sessions.{frame}
use libmq.Random.Errors.{delivers, connects_recv}
use libmq.Random.ErrorTexts.{
  Fits, Turn, performs, asks, turns, turns-Fits, Succeeds, errmsg-Succeeds,
}
use libmq.Recv.{exited, main}
use libmq.Recv.Ends.{numbers, Grants}
use libmq.Recv.Program.{main-ends}
use libmq.Examples.Data.{libc_with, random_uri, slots, process, slots-AllColonless}

-- Five requests are granted: two for the connection, and three messages.
abbrev limited : Libc
limited = libc_with (λ n. leb 5 n)

limited-Grants : Grants 5 limited
limited-Grants = record { granted = λ i lt. ground arith; refused = refl }

abbrev started : RandomWorld
started = process limited slots (record { conns = λ _. none; msgs = λ _. none; fresh = 1 })

abbrev linked : Build Heap (Mq RandomWorld)
linked = record {
  proton = none;
  plugin_init = λ w. some (pos 0, w);
  call = λ k uri reserved1 reserved2 w. construct (λ _. none) uri reserved1 reserved2 w;
}

main-ends_example :
    (w' : RandomWorld) × (main linked 4 (random_uri ∷ []) started
      ≡ some ((exited (pos 0), numbers (λ n. 42) 0 3), w'))
    × (w'.libc.blocks ≡ 5)
    × (w'.heap.conns 1 ≡ none)
unfolding scheme_of lookup same
main-ends_example =
    main-ends (λ _. none) random_uri linked started {k = 7} (λ w. refl) refl refl slots-AllColonless
      refl 3 limited-Grants

abbrev idle_frame : Frame
idle_frame = frame started (new_mq random_uri)

-- The error of a delivery, and then no error.
abbrev history : List Turn
history = performs delivers ∷ asks ∷ performs connects_recv ∷ asks ∷ []

turns-Fits_example : Fits (turns history idle_frame).mq.errmsg
turns-Fits_example = turns-Fits history idle_frame refl

errmsg-Succeeds_example : Succeeds idle_frame (Connections.errmsg idle_frame)
unfolding Connections.error
errmsg-Succeeds_example = errmsg-Succeeds idle_frame refl
