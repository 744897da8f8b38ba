-- ===== src/Send/Total.antt =====
-- mq-send.c with any engine that keeps the contract of libmq-engine.h.
use libmq.Base.{◌≡◌, refl, inl, inr, true, List, [], ◌∷◌, Option, none, some, ℤ, pos, arith}
use libmq.Base.CString.{CString}
use libmq.Cmd.{Cmd, pure, >>=-some}
use libmq.Cmd.Ends.{Ends-pure}
use libmq.World.{World}
use libmq.World.Locks.{idle}
use libmq.Engine.{Mq}
use libmq.Registry.{Build}
use libmq.Registry.Dispatch.{AllColonless}
use libmq.Connection
use libmq.Client.Session.{Made, Sound, connect_send-Made}
use libmq.Send.{Opt, Parsed, usage, options, parse, session, main}
use libmq.Send.Input.{AllShort}
use libmq.Send.Outcome.{
  IsStatus, NoMessage, Outcome, Outcome-eq, Outcome-weaken, rest, rest-Outcome,
}

-- The exit statuses of the options.
parse-IsStatus :
    (opts : List Opt) (type subj : Option CString) (r : ℤ)
    → parse opts type subj ≡ usage r
    → IsStatus r
unfolding parse
parse-IsStatus [] type subj r e = cc e
parse-IsStatus (o ∷ opts) type subj r e =
    ground (arith, e, parse-IsStatus opts o.optarg subj r, parse-IsStatus opts type o.optarg r)

-- The connection was made, and on it mq_message_create returned NULL.
pub record Unmade {E : Type 0} (b : Build E (Mq (World E))) (uri : CString) (chunks : List CString)
    (w : World E) : Type 0 where
  pub mq : Mq (World E)
  pub connected : World E
  pub connects : Connection.connect_send b uri none none w ≡ some (some mq, connected)
  pub without : NoMessage mq chunks connected

module _ {E : Type 0} (b : Build E (Mq (World E))) (uri : CString) (sound : Sound b uri)
    (w : World E) (ready : w.initialised ≡ true) (free : w.enginelock ≡ idle)
    (plain : AllColonless w.engines) where
  connected :
      (made : Option (Mq (World E))) (type subj : Option CString) (chunks : List CString)
      (w₁ : World E)
      → AllShort chunks
      → Connection.connect_send b uri none none w ≡ some (made, w₁)
      → Made made w₁
      → Outcome (Unmade b uri chunks w) (
          (elim made as (λ (made : Option (Mq (World E))). Cmd (World E) ℤ) [
            | none ↦ pure (pos 1)
            | some mq ↦ rest mq type subj chunks
          ])
            w₁)
  connected none type subj chunks w₁ short e h = inl (Ends-pure (pos 1) w₁ (inr refl))
  connected (some mq) type subj chunks w₁ short e (c, by_heap, held) =
      Outcome-weaken
        (λ without. record { mq = mq; connected = w₁; connects = e; without = without })
        (rest-Outcome mq c by_heap type subj chunks w₁ short held)

  session-Outcome :
      (type subj : Option CString) (chunks : List CString)
      → AllShort chunks
      → Outcome (Unmade b uri chunks w) (session b uri type subj chunks w)
  unfolding session
  session-Outcome type subj chunks short =
      let e = connect_send-Made b uri sound w ready free plain in
      Outcome-eq (>>=-some (Connection.connect_send b uri none none) _ e.run)
        (connected e.result type subj chunks e.after short e.run e.holds)

  parsed :
      (p : Parsed) (chunks : List CString)
      → AllShort chunks
      → ((r : ℤ) → p ≡ usage r → IsStatus r)
      → Outcome (Unmade b uri chunks w) (
          (elim p as (λ (p : Parsed). Cmd (World E) ℤ) [
            | usage status ↦ pure status
            | options type subj ↦ session b uri type subj chunks
          ])
            w)
  parsed (usage r) chunks short status = inl (Ends-pure r w (status r refl))
  parsed (options type subj) chunks short status = session-Outcome type subj chunks short

  -- With constructors that make, if anything, connections of engines that keep the contract of
  -- `Engine.Contract`, in an initialised process with a free lock and schemes without a colon,
  -- mq-send with a URI, any options and an input in chunks of at most 1023 bytes ends with the
  -- status 0 or 1, or else it has no result, and then the connection was made without an error, the
  -- input was read, and mq_message_create returned NULL.
  pub main-Outcome :
      (opts : List Opt) (args chunks : List CString)
      → AllShort chunks
      → Outcome (Unmade b uri chunks w) (main b opts (uri ∷ args) chunks w)
  unfolding main
  main-Outcome opts args chunks short =
      parsed (parse opts none none) chunks short (parse-IsStatus opts none none)
