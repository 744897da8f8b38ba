-- ===== src/Client/Session.antt =====
-- A whole use of libmq, over a build whose constructors make connections of engines that keep the
-- contract.
use libmq.Base.{
  ℕ, ◌≡◌, refl, ap, Bool, true, false, List, Option, none, some, if◌then◌else◌, nonzero, ℤ,
}
use libmq.Base.CString.{CString}
use libmq.Cmd.{Cmd, pure, ◌>>=◌, ◌>>◌}
use libmq.Cmd.Ends.{Ends, Ends-pure, Ends-if, Ends-bind, Ends-eq}
use libmq.World.{World}
use libmq.World.Locks.{idle}
use libmq.Engine.{Mq}
use libmq.Engine.Contract.{Contract, Keeps}
use libmq.Registry.{Build, create, release_lock, lock_read}
use libmq.Registry.Table.{table}
use libmq.Registry.Dispatch.{AllColonless, via, scheme_of, dispatched, create-dispatched}
use libmq.Connection
use libmq.Client.{Call, session, connect}
use libmq.Registry.Dispatch.{unlocked}
use libmq.Client.Safety.{used_up}

module _ {E : Type 0} where
  -- What the engine keeps on its heap decides whether the connection is live.
  abbrev pub ByHeap : {mq : Mq (World E)} → Contract mq → Type 0
  ByHeap c = (w w' : World E) → w'.heap ≡ w.heap → c.Held w → c.Held w'

  -- A constructor makes a connection whose engine keeps the contract, or none.
  abbrev pub Made : Option (Mq (World E)) → World E → Type 1
  Made none w = Unit {1}
  Made (some mq) w = (c : Contract mq) × ByHeap c × c.Held w

  abbrev pub Sound : Build E (Mq (World E)) → CString → Type 1
  Sound b uri =
      (k : ℕ) (w : World E)
      → Ends (b.call k uri none none w) (λ made w'. Made made (release_lock w'))

  -- What follows a call that may have made a connection.
  pub Ends-made {ℓ} :
      {A : Type 0} (made : Option (Mq (World E))) (missing : Cmd (World E) A)
      (present : Mq (World E) → Cmd (World E) A) (w : World E) {Q : A → World E → Type ℓ}
      → Made made w
      → Ends (missing w) Q
      → ((mq : Mq (World E)) (c : Contract mq) → ByHeap c → c.Held w → Ends (present mq w) Q)
      → Ends
          ((elim made as (λ (made : Option (Mq (World E))). Cmd (World E) A) [
            | none ↦ missing
            | some mq ↦ present mq
          ])
            w)
          Q
  Ends-made none missing present w h nothing there = nothing
  Ends-made (some mq) missing present w (c, by_heap, held) nothing there = there mq c by_heap held

  -- The last step of mq_connect_recv and mq_connect_send: the function of the engine that
  -- connects, and the release if it fails.
  connects :
      (mq : Mq (World E)) (c : Contract mq) (f : Cmd (World E) ℤ) (w : World E)
      → ByHeap c
      → Keeps c.Held c.Live f
      → c.Held w
      → Ends
          ((do r ← f; if nonzero r then (do mq.impl.release mq.self; pure none) else pure (some mq))
            w)
          Made
  connects mq c f w by_heap keeps held =
      Ends-bind f
        (λ r. if nonzero r then (do mq.impl.release mq.self; pure none) else pure (some mq))
        (keeps w held)
        λ r w₁ (held₁, still).
          Ends-if (nonzero r) (do mq.impl.release mq.self; pure none) (pure (some mq)) w₁
            (λ _.
              Ends-bind (mq.impl.release mq.self) (λ _. pure none) (c.release w₁ held₁)
                λ n w₂ u. Ends-pure none w₂ tt)
            (λ _. Ends-pure (some mq) w₁ (c, by_heap, held₁))

  module _ (b : Build E (Mq (World E))) (uri : CString) (sound : Sound b uri) (w : World E)
      (ready : w.initialised ≡ true) (free : w.enginelock ≡ idle)
      (plain : AllColonless w.engines) where
    dispatched-Made : (o : Option ℕ) → Ends (dispatched b uri none none w o) Made
    dispatched-Made none = record { result = none; after = _; run = refl; holds = tt }
    dispatched-Made (some k) =
        let e = sound k (lock_read w) in
        record {
          result = e.result;
          after = release_lock e.after;
          run = ap unlocked e.run;
          holds = e.holds;
        }

    create-Made : Ends (create b uri none none w) Made
    create-Made =
        Ends-eq (create-dispatched b uri none none w ready free plain)
          (dispatched-Made (via (table w) (scheme_of uri)))

    pub connect_recv-Made : Ends (Connection.connect_recv b uri none none w) Made
    unfolding Connection.connect_recv
    connect_recv-Made = Ends-bind (create b uri none none) _ create-Made λ made w₁ h.
        Ends-made made _ _ w₁ h (Ends-pure none w₁ tt) λ mq c by_heap held.
          connects mq c (mq.impl.connect_recv mq.self) w₁ by_heap c.connect_recv held

    pub connect_send-Made : Ends (Connection.connect_send b uri none none w) Made
    unfolding Connection.connect_send
    connect_send-Made = Ends-bind (create b uri none none) _ create-Made λ made w₁ h.
        Ends-made made _ _ w₁ h (Ends-pure none w₁ tt) λ mq c by_heap held.
          connects mq c (mq.impl.connect_send mq.self) w₁ by_heap c.connect_send held

    connect-Made : (receiving : Bool) → Ends (connect b receiving uri w) Made
    connect-Made true = connect_recv-Made
    connect-Made false = connect_send-Made

    -- The connection, the calls and the end of the connection have a result.
    pub session-Ends :
        (receiving : Bool) (calls : List Call)
        → Ends (session b receiving uri calls w) (λ _ _. Unit {0})
    unfolding session
    session-Ends receiving calls =
        Ends-bind (connect b receiving uri) _ (connect-Made receiving) λ connected w₁ h.
          Ends-made connected _ _ w₁ h (Ends-pure false w₁ tt)
            λ mq c by_heap held. used_up mq c calls w₁ held
