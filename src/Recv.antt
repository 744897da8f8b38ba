-- ===== src/Recv.antt =====
-- mq-recv.c: the program that prints the messages of a queue. Its loop ends only when no message
-- can be obtained; here it runs for a number of rounds at most.
pub mod Writing
pub mod Rounds
pub mod Ends
pub mod Program
pub mod Exchanges
pub mod Outcome
pub mod Reception
pub mod Total
use libmq.Base.{
  ℕ, zero, suc, Bool, true, false, ◌&&◌, List, [], ◌∷◌, Option, none, some, ◌==◌, not, nonzero, ℤ,
  pos, if◌then◌else◌, leb, length, take,
}
use libmq.Base.CString.{CString}
use libmq.Cmd.{Cmd, pure, ◌>>=◌, ◌>>◌}
use libmq.World.{World}
use libmq.Engine.{Mq}
use libmq.Registry.{Build}
use libmq.Registry.Slots.{size_max}
use libmq.Connection
use libmq.Message

-- What is printed of one message: its type, its length, and the bytes that are written of its body,
-- unless it is left out.
pub record Report : Type 0 where
  pub type : Option CString
  pub len : ℕ
  pub body : Option CString

module _ {W : Type 0} where
  -- `fwrite(body, len, 1, stdout)`, with the bytes that are written. To read through NULL, or more
  -- bytes than there are, has no result.
  unfoldable pub write : (len : ℕ) → Option CString → Cmd W (Option CString)
  write len none w = none
  write len (some s) w = if leb len (length s) then some (some (take len s), w) else none

  -- Whether the loop has ended within the rounds, and what was printed.
  unfoldable pub receive : (rounds : ℕ) → Mq W → Cmd W (Bool × List Report)
  receive zero connection = pure (false, [])
  receive (suc rounds) connection = do
    next ← Connection.next connection
    elim next [
      | none ↦ do Connection.errmsg connection; pure (true, [])
      | some msg ↦ do
        len ← Message.len msg
        type ← Message.content_type msg
        body ←
            (if not (len == 0) && not (len == size_max)
              then (do start ← Message.body msg; write len start)
              else pure none)
        Message.accept msg
        (ended, reports) ← receive rounds connection
        pure (ended, record { type = type; len = len; body = body } ∷ reports)
    ]

-- How the program stands after some rounds: still running, or ended with an exit status.
pub data Status : Type 0 where
  running : Status
  exited : ℤ → Status

module _ {W : Type 0} where
  -- The rest of `main` on a connection.
  unfoldable pub listen : (rounds : ℕ) → Mq W → Cmd W (Status × List Report)
  listen rounds connection = do
    (ended, reports) ← receive rounds connection
    if ended
        then (do Connection.disconnect connection; pure (exited (pos 0), reports))
        else pure (running, reports)

module _ {E : Type 0} (b : Build E (Mq (World E))) where
  -- `main`, given the arguments behind the program's name.
  unfoldable pub main : (rounds : ℕ) → (args : List CString) → Cmd (World E) (Status × List Report)
  main rounds [] = pure (exited (pos 1), [])
  main rounds (uri ∷ _ ∷ _) = pure (exited (pos 1), [])
  main rounds (uri ∷ []) = do
    connected ← Connection.connect_recv b uri none none
    elim connected [
      | none ↦ pure (exited (pos 1), [])
      | some connection ↦ do
        failed ← Connection.error connection
        if nonzero failed
            then (do
              Connection.errmsg connection
              Connection.disconnect connection
              pure (exited (pos 1), []))
            else listen rounds connection
    ]
