-- ===== src/Examples/Library.antt =====
-- A small library in the place of Proton, for the examples.
use libmq.Base.{ℕ, List, [], ◌∷◌, Option, none, some, ℤ, pos, length}
use libmq.Base.CString.{CString, codes}
use libmq.Proton.Library.{Proton}

-- One message, the deliveries that were settled, and the messages that were put.
pub record Pn : Type 0 where
  pub address : Option CString
  pub content_type : Option CString
  pub settled : List ℤ
  pub queue : List ℕ

abbrev pub empty : Pn
empty = record { address = none; content_type = none; settled = []; queue = [] }

-- A library that grants everything, but a subscription only if it is told to.
abbrev library : (subscription : Option ℕ) → Proton
library subscription = record {
  State = Pn;
  messenger = λ c p. (some 1, c, p);
  message = λ c p. (some 1, c, p);
  start = λ m p. p;
  stop = λ m p. p;
  free = λ m p. p;
  errno = λ m p. pos 0;
  error_text = λ m p. [];
  subscribe = λ m uri p. (subscription, p);
  set_incoming_window = λ m n p. p;
  set_outgoing_window = λ m n p. p;
  incoming = λ m p. 1;
  recv = λ m n p. p;
  get = λ m msg p. p;
  incoming_tracker = λ m p. pos 5;
  put = λ m msg p. (pos 0, record p { queue = msg ∷ p.queue });
  send = λ m n p. (pos 0, record p { queue = [] });
  accept = λ m t p. p;
  reject = λ m t p. p;
  settle = λ m t p. record p { settled = t ∷ p.settled };
  message_free = λ msg p. p;
  body = λ msg p. some 1;
  set_content_type = λ msg s p. (pos 0, record p { content_type = s });
  get_content_type = λ msg p. p.content_type;
  get_subject = λ msg p. none;
  set_address = λ msg s p. (pos 0, record p { address = s });
  get_address = λ msg p. p.address;
  data_next = λ d p. p;
  get_binary = λ d p. some (codes "42");
  put_binary = λ d s p. (pos 0, p);
}

abbrev pub granting : Proton
granting = library (some 1)

abbrev pub refusing : Proton
refusing = library none

-- A library that has the messages of the queue to hand over, one for each call of
-- `pn_messenger_get`.
abbrev rest : List ℕ → List ℕ
rest [] = []
rest (_ ∷ msgs) = msgs

abbrev pub supplying : Proton
supplying = record granting {
  incoming = λ m p. length p.queue;
  get = λ m msg p. record p { queue = rest p.queue };
}
