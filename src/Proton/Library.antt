-- ===== src/Proton/Library.antt =====
-- The functions of Qpid Proton that queues/qpid-proton.c calls, as a parameter: a type of states
-- of that library, and each function on it. A pointer that the caller has not tested is passed
-- as it stands, NULL included.
use libmq.Base.{ℕ, ℤ, Option}
use libmq.Base.CString.{CString}
use libmq.Libc.{Libc}

pub record Proton : Type 1 where
  pub State : Type 0
  -- `pn_messenger(NULL)` and `pn_message()`, which may set `errno`
  pub messenger : Libc → State → Option ℕ × Libc × State
  pub message : Libc → State → Option ℕ × Libc × State
  -- `pn_messenger_...`
  pub start : Option ℕ → State → State
  pub stop : Option ℕ → State → State
  pub free : Option ℕ → State → State
  pub errno : Option ℕ → State → ℤ
  pub error_text : Option ℕ → State → CString
  pub subscribe : Option ℕ → CString → State → Option ℕ × State
  pub set_incoming_window : Option ℕ → ℤ → State → State
  pub set_outgoing_window : Option ℕ → ℤ → State → State
  pub incoming : Option ℕ → State → ℕ
  pub recv : Option ℕ → ℤ → State → State
  pub get : Option ℕ → ℕ → State → State
  pub incoming_tracker : Option ℕ → State → ℤ
  pub put : Option ℕ → ℕ → State → ℤ × State
  pub send : Option ℕ → ℤ → State → ℤ × State
  pub accept : Option ℕ → ℤ → State → State
  pub reject : Option ℕ → ℤ → State → State
  pub settle : Option ℕ → ℤ → State → State
  -- `pn_message_...`
  pub message_free : ℕ → State → State
  pub body : ℕ → State → Option ℕ
  pub set_content_type : ℕ → Option CString → State → ℤ × State
  pub get_content_type : ℕ → State → Option CString
  pub get_subject : ℕ → State → Option CString
  pub set_address : ℕ → Option CString → State → ℤ × State
  pub get_address : ℕ → State → Option CString
  -- `pn_data_next`, `pn_data_get_binary` and `pn_data_put_binary`
  pub data_next : ℕ → State → State
  pub get_binary : ℕ → State → Option CString
  pub put_binary : ℕ → CString → State → ℤ × State
