-- ===== src/Client/Safety.antt =====
-- The calls of `Client` on a connection of an engine that keeps the contract of libmq-engine.h.
use libmq.Base.{
  ℕ, zero, suc, ◌≡◌, inl, inr, true, false, List, [], ◌∷◌, Option, none, some, ◌==◌, if◌then◌else◌,
  nonzero, pos, ℤ, Bool-cases, Option-cases,
}
use libmq.Cmd.{Cmd, pure, ◌>>=◌, ◌>>◌}
use libmq.Cmd.Ends.{Ends, Ends-pure, Ends-if, Ends-bind}
use libmq.Engine.{Ptr, Mq, Message}
use libmq.Engine.Contract.{Serves-of_more, Contract, Steady, Keeps, Serves, Frees}
use libmq.Connection
use libmq.Message
use libmq.Client.{
  Use, Settling, Call, use_message, settle, pick, without, with_new, perform, performs,
}

module _ {W : Type 0} (mq : Mq W) (c : Contract mq) where
  open c use {Held, Live}

  -- The messages that a program holds are live.
  abbrev pub AllLive : List (Message W) → W → Type 0
  AllLive [] w = Unit {0}
  AllLive (m ∷ ms) w = Live m w × AllLive ms w

  abbrev Holds : List (Message W) → W → Type 0
  Holds ms w = Held w × AllLive ms w

  AllLive-steady :
      (ms : List (Message W)) {w w' : W}
      → ((m : Message W) → Live m w → Live m w')
      → AllLive ms w
      → AllLive ms w'
  AllLive-steady [] still h = tt
  AllLive-steady (m ∷ ms) still (h, hs) = (still m h, AllLive-steady ms still hs)

  AllLive-without :
      (p : Ptr) (ms : List (Message W)) {w w' : W}
      → ((m : Message W) → (m.self == p) ≡ false → Live m w → Live m w')
      → AllLive ms w
      → AllLive (without p ms) w'
  unfolding without
  AllLive-without p [] still h = tt
  AllLive-without p (m ∷ ms) still (h, hs) = elim (Bool-cases (m.self == p)) [
    | inl it ↦ rw (it, without) (AllLive-without p ms still hs)
    | inr other ↦ rw (other, without) (still m other h, AllLive-without p ms still hs)
  ]

  -- The message at a position is live, if there is one.
  unfoldable pub LiveAt : Option (Message W) → W → Type 0
  LiveAt none w = Unit {0}
  LiveAt (some m) w = Live m w

  pick-LiveAt : (ms : List (Message W)) (i : ℕ) (w : W) → AllLive ms w → LiveAt (pick ms i) w
  unfolding pick LiveAt
  pick-LiveAt [] i w h = tt
  pick-LiveAt (m ∷ ms) zero w (h, hs) = h
  pick-LiveAt (m ∷ ms) (suc i) w (h, hs) = pick-LiveAt ms i w hs

  picked :
      (ms : List (Message W)) (i : ℕ) (w : W) {m : Message W}
      → pick ms i ≡ some m
      → AllLive ms w
      → Live m w
  unfolding LiveAt
  picked ms i w there all = rw there at (pick-LiveAt ms i w all)

  -- A function on the connection, whose result does not matter.
  told :
      {A : Type 0} (f : Cmd W A) (ms : List (Message W)) (w : W)
      → Keeps Held Live f
      → Holds ms w
      → Ends ((f >>= λ _. pure ms) w) Holds
  told f ms w keeps (held, live) =
      Ends-bind f (λ _. pure ms) (keeps w held)
        λ a w₁ (held₁, still). Ends-pure ms w₁ (held₁, AllLive-steady ms still live)

  -- A function on a message, likewise.
  served :
      {A : Type 0} (f : Message W → Cmd W A)
      → Serves Held Live f
      → Serves Held Live (λ m. f m >>= λ _. pure (tt {0}))
  served f serves m w held live =
      Ends-bind (f m) (λ _. pure tt) (serves m w held live) λ a w₁ h. Ends-pure tt w₁ h

  use_message-Serves : (u : Use) → Serves Held Live (use_message u)
  unfolding use_message Message.kind Message.send Message.content_type Message.subject
      Message.address Message.body Message.len Message.partition Message.set_type
      Message.set_subject Message.set_address Message.set_partition Message.add_bytes
  use_message-Serves Use.kind = served Message.kind c.kind
  use_message-Serves Use.send = served Message.send c.send
  use_message-Serves Use.content_type = served Message.content_type (Serves-of_more c.content_type)
  use_message-Serves Use.subject = served Message.subject c.subject
  use_message-Serves Use.address = served Message.address c.address
  use_message-Serves Use.body = served Message.body (Serves-of_more c.body)
  use_message-Serves Use.len = served Message.len (Serves-of_more c.len)
  use_message-Serves Use.partition = served Message.partition c.message_partition
  use_message-Serves (Use.set_type s) = served (λ m. Message.set_type m s) (c.set_type s)
  use_message-Serves (Use.set_subject s) = served (λ m. Message.set_subject m s) (c.set_subject s)
  use_message-Serves (Use.set_address s) = served (λ m. Message.set_address m s) (c.set_address s)
  use_message-Serves (Use.set_partition s) =
      served (λ m. Message.set_partition m s) (c.message_set_partition s)
  use_message-Serves (Use.add_bytes s) = served (λ m. Message.add_bytes m s) (c.add_bytes s)

  -- The message is settled, and then freed; either way the others stay live.
  pub freed :
      {A : Type 0} (f : Message W → Cmd W A)
      → Serves Held Live f
      → Frees Held Live (λ m. (do r ← f m; m.impl.release m.self; pure r) >>= λ _. pure (tt {0}))
  freed f serves m w held live =
      Ends-bind (do r ← f m; m.impl.release m.self; pure r) (λ _. pure tt)
        (Ends-bind (f m) (λ r. m.impl.release m.self >>= λ _. pure r) (serves m w held live)
          λ r w₁ (held₁, still).
            Ends-bind (m.impl.release m.self) (λ _. pure r)
              (c.message_release m w₁ held₁ (still m live))
              λ n w₂ (held₂, others).
                Ends-pure r w₂
                  {Q = λ _ w'.
                    Held w' × ((o : Message W) → (o.self == m.self) ≡ false → Live o w → Live o w')}
                  (held₂, λ o other h. others o other (still o h)))
        λ r w₃ h. Ends-pure tt w₃ h

  pub settle-Frees : (s : Settling) → Frees Held Live (settle s)
  unfolding settle Message.accept Message.reject Message.pass Message.free
  settle-Frees Settling.accept = freed (λ m. m.impl.accept m.self) c.accept
  settle-Frees Settling.reject = freed (λ m. m.impl.reject m.self) c.reject
  settle-Frees Settling.pass = freed (λ m. m.impl.pass m.self) c.pass
  settle-Frees Settling.free = λ m w held live.
      Ends-bind (do m.impl.release m.self; pure (pos 0)) (λ _. pure tt)
        (Ends-bind (m.impl.release m.self) (λ _. pure (pos 0)) (c.message_release m w held live)
          λ n w₁ h. Ends-pure (pos 0) w₁ h)
        λ r w₂ h. Ends-pure tt w₂ h

  -- A message that is made is live; if none is, nothing has changed for the program.
  abbrev pub Obtains : Cmd W (Option (Message W)) → Type 0
  Obtains f = (w : W) → Held w → Ends (f w) (λ m w'. Steady Held Live w w' × LiveAt m w')

  chosen :
      (r : ℤ) (m : Option (Message W)) (w w₁ : W)
      → Steady Held Live w w₁
      → (nonzero r ≡ false → (o : Message W) × (m ≡ some o) × Live o w₁)
      → nonzero r ≡ false
      → Ends (pure m w₁) (λ m w'. Steady Held Live w w' × LiveAt m w')
  unfolding LiveAt
  chosen r m w w₁ steady made good =
      let (o, e, live) = made good in Ends-pure m w₁ (steady, rw e live)

  pub message_create-Obtains : Obtains (Connection.message_create mq)
  unfolding Connection.message_create LiveAt
  message_create-Obtains w held =
      Ends-bind (mq.impl.create mq.self)
        (λ (r, message). if nonzero r then pure none else pure message) (c.create w held)
        λ (r, message) w₁ (steady, made).
          Ends-if (nonzero r) (pure none) (pure message) w₁ (λ _. Ends-pure none w₁ (steady, tt))
            (chosen r message w w₁ steady made)

  pub next-Obtains : Obtains (Connection.next mq)
  unfolding Connection.next LiveAt
  next-Obtains w held =
      Ends-bind (mq.impl.next mq.self)
        (λ (r, message). if nonzero r then (do mq.impl.error mq.self; pure none) else pure message)
        (c.next w held)
        λ (r, message) w₁ ((held₁, still), made).
          Ends-if (nonzero r) (do mq.impl.error mq.self; pure none) (pure message) w₁
            (λ _.
              Ends-bind (mq.impl.error mq.self) (λ _. pure none) (c.error w₁ held₁)
                λ e w₂ (held₂, still₂).
                  Ends-pure none w₂ ((held₂, λ m h. still₂ m (still m h)), tt))
            (chosen r message w w₁ (held₁, still) made)

  obtained :
      (f : Cmd W (Option (Message W))) (ms : List (Message W)) (w : W)
      → Obtains f
      → Holds ms w
      → Ends ((f >>= λ m. pure (with_new ms m)) w) Holds
  unfolding LiveAt
  obtained f ms w obtains (held, live) =
      Ends-bind f (λ m. pure (with_new ms m)) (obtains w held)
        λ m w₁ ((held₁, still), new).
          let kept = AllLive-steady ms still live in
          elim m as (λ m. LiveAt m w₁ → Ends (pure (with_new ms m) w₁) Holds) [
            | none ↦ λ _. Ends-pure ms w₁ (held₁, kept)
            | some m ↦ λ new. Ends-pure (m ∷ ms) w₁ (held₁, (new, kept))
          ]
            new

  -- A call on the message at a position.
  used :
      (m : Message W) (u : Use) (ms : List (Message W)) (w : W)
      → Live m w
      → Holds ms w
      → Ends ((use_message u m >>= λ _. pure ms) w) Holds
  used m u ms w live (held, all) =
      Ends-bind (use_message u m) (λ _. pure ms) (use_message-Serves u m w held live)
        λ a w₁ (held₁, still). Ends-pure ms w₁ (held₁, AllLive-steady ms still all)

  settled :
      (m : Message W) (s : Settling) (ms : List (Message W)) (w : W)
      → Live m w
      → Holds ms w
      → Ends ((settle s m >>= λ _. pure (without m.self ms)) w) Holds
  settled m s ms w live (held, all) =
      Ends-bind (settle s m) (λ _. pure (without m.self ms)) (settle-Frees s m w held live)
        λ a w₁ (held₁, others).
          Ends-pure (without m.self ms) w₁ (held₁, AllLive-without m.self ms others all)

  perform-Holds :
      (call : Call) (ms : List (Message W)) (w : W) → Holds ms w → Ends (perform mq call ms w) Holds
  unfolding perform Connection.error Connection.errmsg Connection.deliver Connection.partition
      Connection.set_cluster Connection.set_partition LiveAt
  perform-Holds Call.error ms w h = told (Connection.error mq) ms w c.error h
  perform-Holds Call.errmsg ms w h = told (Connection.errmsg mq) ms w c.errmsg h
  perform-Holds Call.deliver ms w h = told (Connection.deliver mq) ms w c.deliver h
  perform-Holds Call.connection_partition ms w h = told (Connection.partition mq) ms w c.partition h
  perform-Holds Call.message_create ms w h =
      obtained (Connection.message_create mq) ms w message_create-Obtains h
  perform-Holds Call.next ms w h = obtained (Connection.next mq) ms w next-Obtains h
  perform-Holds (Call.set_cluster cluster) ms w h =
      told (Connection.set_cluster mq cluster) ms w (c.set_cluster cluster) h
  perform-Holds (Call.set_connection_partition s) ms w h =
      told (Connection.set_partition mq s) ms w (c.set_partition s) h
  perform-Holds (Call.uses i u) ms w (held, all) = elim (Option-cases (pick ms i)) [
    | inl missing ↦ rw (missing, perform) (Ends-pure ms w (held, all))
    | inr (m, there) ↦ rw (there, perform) (used m u ms w (picked ms i w there all) (held, all))
  ]
  perform-Holds (Call.settles i s) ms w (held, all) = elim (Option-cases (pick ms i)) [
    | inl missing ↦ rw (missing, perform) (Ends-pure ms w (held, all))
    | inr (m, there) ↦ rw (there, perform) (settled m s ms w (picked ms i w there all) (held, all))
  ]

  performs-Holds :
      (calls : List Call) (ms : List (Message W)) (w : W)
      → Holds ms w
      → Ends (performs mq calls ms w) Holds
  unfolding performs
  performs-Holds [] ms w h = Ends-pure ms w h
  performs-Holds (call ∷ calls) ms w h =
      Ends-bind (perform mq call ms) (performs mq calls) (perform-Holds call ms w h)
        λ ms₁ w₁ h₁. performs-Holds calls ms₁ w₁ h₁

  -- The calls on a new connection, and its end.
  pub used_up :
      (calls : List Call) (w : W)
      → Held w
      → Ends ((do performs mq calls []; Connection.disconnect mq; pure true) w) (λ _ _. Unit {0})
  unfolding Connection.disconnect
  used_up calls w held =
      Ends-bind (performs mq calls []) (λ _. do Connection.disconnect mq; pure true)
        (performs-Holds calls [] w (held, tt))
        λ ms w₁ (held₁, live).
          Ends-bind (do mq.impl.release mq.self; pure (pos 0)) (λ _. pure true)
            (Ends-bind (mq.impl.release mq.self) (λ _. pure (pos 0)) (c.release w₁ held₁)
              λ n w₂ u. Ends-pure (pos 0) w₂ u)
            λ r w₃ u. Ends-pure true w₃ u
