-- ===== src/Send/Delivery.antt =====
-- mq-send.c with a URI of the Proton engine, over a library whose calls succeed.
use libmq.Base.{
  ℕ, Bool, suc, ◌≡◌, refl, ◌∙◌, ap, true, List, [], ◌∷◌, Option, none, some, pos, minus_one,
}
use libmq.Base.CString.{CString}
use libmq.Libc.{Libc, after_free}
use libmq.Cmd.{pure, >>=-some}
use libmq.World.Locks.{idle}
use libmq.Engine.{Ptr, Mq}
use libmq.Registry.{Build, create}
use libmq.Registry.Table.{table}
use libmq.Registry.Dispatch.{AllColonless, via, scheme_of}
use libmq.Connection
use libmq.Message
use libmq.Proton.{ProtonMessage, ProtonWorld, Heap}
use libmq.Proton.Library.{Proton}
use libmq.Proton.Connections
use libmq.Proton.Connections.{new_mq}
use libmq.Proton.Impl.{construct, handle}
use libmq.Proton.Granting
use libmq.Proton.Granting.{Granting, outgoing_message}
use libmq.Proton.Holding.{Yields, Roomy, bind-Yields, on_mq-Yields}
use libmq.Proton.Opening.{connection, create-Yields}
use libmq.Send.{Opt, options, parse, optionally, read_input, finish, send_message, session, main}
use libmq.Send.Options.{main-session}
use libmq.Send.Input.{AllShort, joined}
use libmq.Send.Memory.{read_input-whole}
use libmq.Send.Steps
use libmq.Send.Steps.{typed, Created}

module _ (lib : Proton) where
  open lib use {State}

  -- The library once the connection is sending, and the calls from the body on.
  abbrev pub opened : (m : ℕ) → State → State
  opened m p = lib.set_outgoing_window (some m) (pos 1) (lib.start (some m) p)

  abbrev pub sent : (m msg d : ℕ) → (uri input : CString) → State → State
  sent m msg d uri input p =
      (lib.send (some m) minus_one
        (lib.put (some m) msg (lib.set_address msg (some uri) (lib.put_binary d input p).1).1).1).1

  -- The calls of the library, in order, that send one message.
  pub record Sent (uri : CString) (type subj : Option CString) (input : CString) (p p' : State)
      : Type 0 where
    pub m : ℕ
    pub msg : ℕ
    pub d : ℕ
    pub libc₁ : Libc
    pub libc₂ : Libc
    pub started : State
    pub made : State
    pub messenger : lib.messenger libc₁ p ≡ (some m, libc₁, started)
    pub message : lib.message libc₂ (opened m started) ≡ (some msg, libc₂, made)
    pub body : lib.body msg (typed lib msg type (typed lib msg subj made)) ≡ some d
    pub calls :
        p'
        ≡ lib.free (some m) (
            lib.stop (some m) (
              lib.message_free msg
                (sent m msg d uri input (typed lib msg type (typed lib msg subj made)))))

  module _ (self : Ptr) (uri : CString) (m : ℕ) (g : Granting lib) where
    -- From the new message on.
    finish-Yields :
        (new msg d : ℕ) (type subj : Option CString) (input : CString) (w : ProtonWorld State)
        {p : State} {n : ℕ}
        → lib.body msg (typed lib msg type (typed lib msg subj p)) ≡ some d
        → Steps.Sending lib self uri m g new
            (some (outgoing_message lib self msg none))
            p
            (suc (suc (suc (suc n))))
            w
        → Yields lib self
            (finish (connection lib self) (handle lib new) type subj input w)
            (pos 0)
            none
            new
            none
            (lib.free (some m) (
              lib.stop (some m) (
                lib.message_free msg
                  (sent m msg d uri input (typed lib msg type (typed lib msg subj p))))))
            n
    unfolding finish
    finish-Yields new msg d type subj input w found h =
        let mq = connection lib self in
        let message = handle lib new in
        bind-Yields lib self (optionally Message.set_subject message subj) _ w
          (Steps.subject_lem lib self uri m g new msg w h subj).1
          λ w₁ h₁.
            bind-Yields lib self (optionally Message.set_type message type) _ w₁
              (Steps.type_lem lib self uri m g new msg w₁ h₁ type).1
              λ w₂ h₂.
                bind-Yields lib self (Message.add_bytes message input) _ w₂
                  (Steps.add_bytes_lem lib self uri m g new msg w₂ h₂ input found)
                  λ w₃ h₃.
                    bind-Yields lib self (Message.send message) _ w₃
                      (Steps.send_lem lib self uri m g new msg d w₃ h₃)
                      λ w₄ h₄.
                        bind-Yields lib self (Connection.deliver mq) _ w₄
                          (Steps.deliver_lem lib self uri m g w₄ h₄)
                          λ w₅ h₅.
                            bind-Yields lib self (Message.free message) _ w₅
                              (Steps.free_lem lib self uri m g new msg d w₅ h₅)
                              λ w₆ h₆.
                                bind-Yields lib self (Connection.disconnect mq) (λ _. pure (pos 0))
                                  (record w₆ { libc = after_free w₆.libc })
                                  (Steps.disconnect_lem lib self uri m g new msg d _
                                    (Steps.free_buffer_lem lib self uri m g new msg d w₆ h₆))
                                  λ w₇ h₇. (w₇, refl, h₇)

module _ (lib : Proton) (b : Build (Heap lib.State) (Mq (ProtonWorld lib.State))) (uri : CString)
    (w : ProtonWorld lib.State) where
  open lib use {State}

  -- What mq_connect_send returns.
  record Connected : Type 0 where
    m : ℕ
    libc : Libc
    started : State
    messenger : lib.messenger libc w.heap.pn ≡ (some m, libc, started)
    run :
        Yields lib w.heap.fresh
          (Connection.connect_send b uri none none w)
          (some (connection lib w.heap.fresh))
          (some (Granting.sender lib uri m))
          0
          (w.heap.msgs 0)
          (opened lib m started)
          (suc (suc w.libc.blocks))

module _ (lib : Proton) (uri : CString) (w : ProtonWorld lib.State) where
  open lib use {State}

  -- What mq-send leaves behind the message: nothing of its own, and the library told to send it.
  pub record Done (type subj : Option CString) (input : CString) (w' : ProtonWorld State)
      : Type 0 where
    pub calls : Sent lib uri type subj input w.heap.pn w'.heap.pn
    pub gone : w'.heap.conns w.heap.fresh ≡ none
    pub blocks : w'.libc.blocks ≡ w.libc.blocks
    pub free : w'.enginelock ≡ idle

module _ (lib : Proton) (g : Granting lib) (b : Build (Heap lib.State) (Mq (ProtonWorld lib.State)))
    (uri : CString) (w : ProtonWorld lib.State) {k : ℕ}
    (linked : (w : ProtonWorld lib.State)
      → b.call k uri none none w ≡ construct lib uri none none w)
    (ready : w.initialised ≡ true) (unlocked : w.enginelock ≡ idle) (plain : AllColonless w.engines)
    (found : via (table w) (scheme_of uri) ≡ some k) (room : Roomy w.libc) where
  open lib use {State}

  connect_send-Connected : Connected lib b uri w
  unfolding Connection.connect_send
  connect_send-Connected =
      let self = w.heap.fresh in
      let (w₁, e₁, h₁) = create-Yields lib uri w b {k = k} linked ready unlocked plain found room in
      let (m, started, e) = g.messenger w₁.libc w.heap.pn in
      let (w₂, e₂, h₂) =
        on_mq-Yields lib self w₁ (Connections.connect_send lib)
          (Granting.connect_send_lem lib g w₁.libc w.heap.pn uri e) h₁ in
      record {
        m = m;
        libc = w₁.libc;
        started = started;
        messenger = e;
        run = (
          w₂,
          >>=-some (create b uri none none) _ e₁
              ∙ >>=-some ((connection lib self).impl.connect_send self) _ e₂,
          h₂,
        );
      }

  -- The rest of the session, once it is connected.
  send_message-Done :
      (c : Connected lib b uri w) (type subj : Option CString) (input : CString)
      (w₁ : ProtonWorld State) {ptr : Ptr} {message : Option ProtonMessage}
      → Steps.Sending lib w.heap.fresh uri c.m g ptr message
          (opened lib c.m c.started)
          (suc (suc (suc w.libc.blocks)))
          w₁
      → (w' : ProtonWorld State) × (send_message (connection lib w.heap.fresh) type subj input w₁
          ≡ some (pos 0, w'))
        × Done lib uri w type subj input w'
  unfolding send_message
  send_message-Done c type subj input w₁ h₁ =
      let self = w.heap.fresh in
      let created = Steps.message_create-Created lib self uri c.m g w₁ h₁ in
      let (w₂, e₂, h₂) = created.run in
      let (d, body) =
        g.body created.msg (typed lib created.msg type (typed lib created.msg subj created.made)) in
      let (w₃, e₃, h₃) =
        finish-Yields lib self uri c.m g created.new created.msg d type subj input w₂ body h₂ in
      (
        w₃,
        >>=-some (Connection.message_create (connection lib self)) _ e₂ ∙ e₃,
        record {
          calls = record {
            m = c.m;
            msg = created.msg;
            d = d;
            libc₁ = c.libc;
            libc₂ = created.libc;
            started = c.started;
            made = created.made;
            messenger = c.messenger;
            message = created.message;
            body = body;
            calls = h₃.pn;
          };
          gone = h₃.conn;
          blocks = h₃.blocks;
          free = h₃.unlocked;
        },
      )

  -- In a build whose constructor at address k is the Proton engine's, with a URI whose scheme is
  -- bound to k, in an initialised process with a free lock and schemes without a colon, if the
  -- allocator refuses nothing and the calls of the Proton library that a sender makes succeed and
  -- leave the allocator and errno alone, then mq-send with that URI, options that do not ask for
  -- the usage, and an input that comes in one or more chunks of at most 1023 bytes ends with the
  -- status 0. It has made and started a messenger with an outgoing window of 1, made a message, set
  -- its content type to the subject and then to the type, each if given, put the whole input into
  -- its body, set its address to the URI, put and sent it, freed it, and stopped and freed the
  -- messenger, in this order; the connection is gone, the count of blocks is as before and the lock
  -- is free.
  pub main-Done :
      (opts : List Opt) (args : List CString) (chunk : CString) (chunks : List CString)
      {type subj : Option CString}
      → parse opts none none ≡ options type subj
      → AllShort (chunk ∷ chunks)
      → (w' : ProtonWorld State) × (main b opts (uri ∷ args) (chunk ∷ chunks) w ≡ some (pos 0, w'))
        × Done lib uri w type subj (joined (chunk ∷ chunks)) w'
  unfolding session
  main-Done opts args chunk chunks {type} {subj} parsed short =
      let self = w.heap.fresh in
      let c = connect_send-Connected in
      let (w₁, e₁, h₁) = c.run in
      let (w₂, e₂, h₂) = Steps.error_lem lib self uri c.m g w₁ h₁ in
      let (w₃, e₃, blocks, k) = read_input-whole chunk chunks w₂ short h₂.room in
      let (w₄, e₄, done) = send_message-Done c type subj (joined (chunk ∷ chunks)) w₃ (record {
        conn = ap (λ (h : Heap State). h.conns self) k.heap ∙ h₂.conn;
        message = ap (λ (h : Heap State). h.msgs 0) k.heap ∙ h₂.message;
        pn = ap (λ (h : Heap State). h.pn) k.heap ∙ h₂.pn;
        blocks = blocks ∙ ap suc h₂.blocks;
        room = λ n. ap (λ (r : ℕ → Bool). r n) k.refuses ∙ h₂.room n;
        unlocked = k.enginelock ∙ h₂.unlocked;
      }) in
      (
        w₄,
        main-session b opts uri args (chunk ∷ chunks) w parsed
            ∙ >>=-some (Connection.connect_send b uri none none) _ e₁
            ∙ >>=-some (Connection.error (connection lib self)) _ e₂
            ∙ >>=-some (read_input (chunk ∷ chunks) 0 []) _ e₃
            ∙ e₄,
        done,
      )
