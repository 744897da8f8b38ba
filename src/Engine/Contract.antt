-- ===== src/Engine/Contract.antt =====
-- What libmq-engine.h asks of an engine: the functions of its two tables can be called while
-- their connection and message are live, and leave all else live. `libmq` itself calls an engine
-- only through the tables.
use libmq.Base.{ℕ, ℤ, ◌≤◌, ◌≡◌, ◌⊎◌, false, Option, none, some, ◌==◌, nonzero, length}
use libmq.Registry.Slots.{size_max}
use libmq.Base.CString.{CString}
use libmq.Cmd.{Cmd}
use libmq.Cmd.Ends.{Ends, Ends-weaken}
use libmq.Engine.{Mq, Message}

module _ {W : Type 0} (Held : W → Type 0) (Live : Message W → W → Type 0) where
  -- The connection is still held, and each live message is still live.
  abbrev pub Steady : W → W → Type 0
  Steady w w' = Held w' × ((m : Message W) → Live m w → Live m w')

  -- A function on the connection.
  abbrev pub Keeps : {A : Type 0} → Cmd W A → Type 0
  Keeps c = (w : W) → Held w → Ends (c w) (λ _ w'. Steady w w')

  -- A function on the connection that makes a message if its result is 0.
  abbrev pub Makes : Cmd W (ℤ × Option (Message W)) → Type 0
  Makes c =
      (w : W)
      → Held w
      → Ends (c w) (λ r w'.
        Steady w w' × (nonzero r.0 ≡ false → (m : Message W) × (r.1 ≡ some m) × Live m w'))

  -- A function on a message.
  abbrev pub Serves : {A : Type 0} → (Message W → Cmd W A) → Type 0
  Serves f = (m : Message W) (w : W) → Held w → Live m w → Ends (f m w) (λ _ w'. Steady w w')

  -- A function on a message, and what it adds to this.
  abbrev pub ServesAnd :
      {A : Type 0} → (Message W → Cmd W A) → (Message W → A → W → W → Type 0) → Type 0
  ServesAnd f Q =
      (m : Message W) (w : W) → Held w → Live m w → Ends (f m w) (λ a w'. Steady w w' × Q m a w w')

  -- The function that frees a message; the others stay live.
  abbrev pub Frees : {A : Type 0} → (Message W → Cmd W A) → Type 0
  Frees f =
      (m : Message W) (w : W)
      → Held w
      → Live m w
      → Ends (f m w)
          (λ _ w'. Held w' × ((o : Message W) → (o.self == m.self) ≡ false → Live o w → Live o w'))

-- What `mq_message_body` may return for a message whose length is `n`: `n` bytes at least, or
-- anything if there are none or the length is `(size_t) -1`.
unfoldable pub Covers : ℕ → Option CString → Type 0
Covers n none = (n ≡ 0) ⊎ (n ≡ size_max)
Covers n (some s) = (n ≡ size_max) ⊎ (n ≤ length s)

-- The contract of an engine for one of its connections. `Sized` says that `mq_message_len` has
-- returned a number for a message; the body then has that many bytes, until the message changes.
pub record Contract {W : Type 0} (mq : Mq W) : Type 1 where
  pub Held : W → Type 0
  pub Live : Message W → W → Type 0
  pub Sized : Message W → ℕ → W → Type 0
  pub release : (w : W) → Held w → Ends (mq.impl.release mq.self w) (λ _ _. Unit {0})
  pub error : Keeps Held Live (mq.impl.error mq.self)
  pub errmsg : Keeps Held Live (mq.impl.errmsg mq.self)
  pub connect_recv : Keeps Held Live (mq.impl.connect_recv mq.self)
  pub connect_send : Keeps Held Live (mq.impl.connect_send mq.self)
  pub next : Makes Held Live (mq.impl.next mq.self)
  pub deliver : Keeps Held Live (mq.impl.deliver mq.self)
  pub create : Makes Held Live (mq.impl.create mq.self)
  pub set_cluster : (cluster : Option ℕ) → Keeps Held Live (mq.impl.set_cluster mq.self cluster)
  pub set_partition :
      (partition : Option CString) → Keeps Held Live (mq.impl.set_partition mq.self partition)
  pub partition : Keeps Held Live (mq.impl.partition mq.self)
  pub message_release : Frees Held Live (λ m. m.impl.release m.self)
  pub kind : Serves Held Live (λ m. m.impl.kind m.self)
  pub accept : Serves Held Live (λ m. m.impl.accept m.self)
  pub reject : Serves Held Live (λ m. m.impl.reject m.self)
  pub pass : Serves Held Live (λ m. m.impl.pass m.self)
  pub send : Serves Held Live (λ m. m.impl.send m.self)
  pub set_type : (type : Option CString) → Serves Held Live (λ m. m.impl.set_type m.self type)
  pub content_type :
      ServesAnd Held Live
        (λ m. m.impl.content_type m.self)
        (λ m _ w w'. (n : ℕ) → Sized m n w → Sized m n w')
  pub set_subject :
      (subject : Option CString) → Serves Held Live (λ m. m.impl.set_subject m.self subject)
  pub subject : Serves Held Live (λ m. m.impl.subject m.self)
  pub set_address :
      (address : Option CString) → Serves Held Live (λ m. m.impl.set_address m.self address)
  pub address : Serves Held Live (λ m. m.impl.address m.self)
  pub body :
      ServesAnd Held Live
        (λ m. m.impl.body m.self)
        (λ m start w _. (n : ℕ) → Sized m n w → Covers n start)
  pub len : ServesAnd Held Live (λ m. m.impl.len m.self) (λ m n _ w'. Sized m n w')
  pub add_bytes : (bytes : CString) → Serves Held Live (λ m. m.impl.add_bytes m.self bytes)
  pub message_set_partition :
      (partition : Option CString) → Serves Held Live (λ m. m.impl.set_partition m.self partition)
  pub message_partition : Serves Held Live (λ m. m.impl.partition m.self)

module _ {W : Type 0} {Held : W → Type 0} {Live : Message W → W → Type 0} where
  pub Serves-of_more :
      {A : Type 0} {f : Message W → Cmd W A} {Q : Message W → A → W → W → Type 0}
      → ServesAnd Held Live f Q
      → Serves Held Live f
  Serves-of_more more m w held live = Ends-weaken (λ a w' h. h.0) (more m w held live)
