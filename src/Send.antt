-- ===== src/Send.antt =====
-- mq-send.c: the program that sends its standard input as one message. A command with no result is
-- a call through NULL or a write out of bounds.
pub mod Options
pub mod Input
pub mod Memory
pub mod Refusal
pub mod Steps
pub mod Delivery
pub mod Outcome
pub mod Total
use libmq.Base.{
  ℕ, suc, ◌+◌, ◌-◌, ◌^◌, List, [], ◌∷◌, ◌++◌, Option, none, some, ◌==◌, ltb, leb, nonzero,
  if◌then◌else◌, ℤ, pos, length, true, false,
}
use libmq.Base.CString.{CString}
use libmq.Libc.{Libc, exhausted, after_alloc, after_realloc, after_free}
use libmq.Cmd.{Cmd, pure, ◌>>=◌, ◌>>◌}
use libmq.World.{World}
use libmq.Engine.{Mq, Message}
use libmq.Registry.{Build}
use libmq.Connection
use libmq.Message

-- What a call of `getopt` returns, with the text at `optarg`, if there is one.
pub record Opt : Type 0 where
  pub c : ℕ
  pub optarg : Option CString

-- The end of the loop over the options: the usage and an exit status, or the type and the subject.
pub data Parsed : Type 0 where
  usage : (status : ℤ) → Parsed
  options : (type subj : Option CString) → Parsed

-- The loop over the options, up to the call of `getopt` that returns -1.
unfoldable pub parse : List Opt → (type subj : Option CString) → Parsed
parse [] type subj = options type subj
parse (o ∷ opts) type subj = elim (o.c == b'h') [
  | true ↦ usage (pos 0)
  | false ↦ elim (o.c == b't') [
    | true ↦ parse opts o.optarg subj
    | false ↦ elim (o.c == b's') [ true ↦ parse opts type o.optarg | false ↦ usage (pos 1) ]
  ]
]

-- The difference of two numbers of type `size_t`.
abbrev pub size_sub : ℕ → ℕ → ℕ
size_sub a b = if leb b a then a - b else 2 ^ 64 - (b - a)

-- `realloc(buffer, bufsize + 1024)`, where `buffer` is NULL while `bufsize` is 0
abbrev pub after_growth : (bufsize : ℕ) → Libc → Libc
after_growth bufsize c = if bufsize == 0 then after_alloc c else after_realloc c

module _ {E : Type 0} where
  -- The loop that reads the input. `chunks` is what the calls of `fread` return, up to the one that
  -- meets the end. A chunk and its NUL are written only if they fit; the result is none if
  -- there is no memory.
  unfoldable pub read_input :
      (chunks : List CString) → (bufsize : ℕ) → (buffer : CString) → Cmd (World E) (Option CString)
  read_input [] bufsize buffer w = some (some buffer, w)
  read_input (chunk ∷ chunks) bufsize buffer w =
      let small = ltb (size_sub bufsize (length buffer)) 1024 in
      let bufsize' = if small then bufsize + 1024 else bufsize in
      let w' = if small then record w { libc = after_growth bufsize w.libc } else w in
      let rest = read_input chunks bufsize' (buffer ++ chunk) w' in
      if small
      then (if exhausted w.libc
          then some (none, w')
          else if leb (length buffer + length chunk + 1) bufsize'
          then rest
          else none)
      else if leb (length buffer + length chunk + 1) bufsize'
      then rest
      else none

  abbrev pub optionally :
      (Message (World E) → Option CString → Cmd (World E) ℤ)
      → Message (World E)
      → Option CString
      → Cmd (World E) ℤ
  optionally method msg none = pure (pos 0)
  optionally method msg (some s) = method msg (some s)

  -- From the new message to the end.
  unfoldable pub finish :
      Mq (World E)
      → Message (World E)
      → (type subj : Option CString) → (buffer : CString) → Cmd (World E) ℤ
  finish connection msg type subj buffer = do
    optionally Message.set_subject msg subj
    optionally Message.set_type msg type
    added ← Message.add_bytes msg buffer
    if nonzero added then (do Connection.errmsg connection; pure (pos 1)) else do
      sent ← Message.send msg
      if nonzero sent then (do Connection.errmsg connection; pure (pos 1)) else do
        delivered ← Connection.deliver connection
        if nonzero delivered then (do Connection.errmsg connection; pure (pos 1)) else do
          Message.free msg
          λ w. some (tt, record w { libc = after_free w.libc })
          Connection.disconnect connection
          pure (pos 0)

  -- From the creation of the message to the end.
  unfoldable pub send_message :
      Mq (World E) → (type subj : Option CString) → CString → Cmd (World E) ℤ
  send_message connection type subj buffer = do
    created ← Connection.message_create connection
    elim created [ none ↦ λ w. none | some msg ↦ finish connection msg type subj buffer ]

  -- The program behind the options; the result is the exit status.
  unfoldable pub session :
      Build E (Mq (World E))
      → (uri : CString) → (type subj : Option CString) → (chunks : List CString) → Cmd (World E) ℤ
  session b uri type subj chunks = do
    connected ← Connection.connect_send b uri none none
    elim connected [
      | none ↦ pure (pos 1)
      | some connection ↦ do
        failed ← Connection.error connection
        if nonzero failed
            then (do Connection.errmsg connection; Connection.disconnect connection; pure (pos 1))
            else do
              input ← read_input chunks 0 []
              elim input [
                | none ↦ pure (pos 1)
                | some buffer ↦ send_message connection type subj buffer
              ]
    ]

  -- `main`, given what `getopt` returns, the arguments that it leaves, and the input.
  unfoldable pub main :
      Build E (Mq (World E))
      → (opts : List Opt) → (args : List CString) → (chunks : List CString) → Cmd (World E) ℤ
  main b opts args chunks = elim (parse opts none none) [
    | usage status ↦ pure status
    | options type subj ↦ elim args [ [] ↦ pure (pos 1) | uri ∷ _ ↦ session b uri type subj chunks ]
  ]
