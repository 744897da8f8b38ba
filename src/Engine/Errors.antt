-- ===== src/Engine/Errors.antt =====
-- The members that libmq-engine.h gives every connection, and its macros for errors and for the
-- back-off timer.
use libmq.Base.{ℕ, ◌+◌, Bool, true, false, Option, ℤ, pos, leb, ◌==◌, if◌then◌else◌}
use libmq.Base.CString.{CString}
use libmq.Libc.{Libc, set_errno, eagain}
use libmq.Engine.{MqState}

-- `struct timeval`
pub record Timeval : Type 0 where
  pub tv_sec : ℕ
  pub tv_usec : ℕ

-- `timercmp(a, b, >=)`
unfoldable pub at_or_after : Timeval → Timeval → Bool
at_or_after a b = if a.tv_sec == b.tv_sec then leb b.tv_usec a.tv_usec else leb b.tv_sec a.tv_sec

-- What `errmsg` points to: a block of `size` bytes, and the characters in it before the first NUL. A
-- text of `size` bytes or more stands for a write outside the block.
pub record ErrorBuffer : Type 0 where
  pub size : ℕ
  pub text : CString

-- `MQ_CONNECTION_COMMON_MEMBERS`
pub record Members : Type 0 where
  pub state : MqState
  pub syserr : ℕ
  pub errcode : ℤ
  pub errmsg : Option ErrorBuffer
  pub uri : CString
  pub cluster : Option ℕ
  pub backoff : Timeval

-- `RESET_ERROR(conn)`
abbrev pub reset_error : Members → Members
reset_error c = record c { syserr = 0; errcode = pos 0 }

-- `SET_ERROR(conn, code)`
abbrev pub set_error : ℤ → Members → Members
set_error code c = record c { syserr = 0; errcode = code }

-- `SET_SYSERR(conn, value)`, which writes `errno` too: `set_errno value` on the other side.
abbrev pub set_syserr : ℕ → Members → Members
set_syserr value c = record c { errcode = pos 0; syserr = value }

-- `SET_ERRNO(conn)`
abbrev pub set_from_errno : Libc → Members → Members
set_from_errno libc c = record c { errcode = pos 0; syserr = libc.errno }

-- `BACKOFF_CHECK(conn, timeval)` at time `now`: whether the caller goes on, or else returns -1.
unfoldable pub backoff_check : (now : Timeval) → Libc → Members → Bool × Libc × Members
unfolding at_or_after
backoff_check now libc c =
    if at_or_after now c.backoff
    then (true, libc, c)
    else (false, set_errno eagain libc, set_syserr eagain c)

-- `BACKOFF_SECS(conn, n)` at time `now`
unfoldable pub backoff_secs : (now : Timeval) → (n : ℕ) → Members → Members
backoff_secs now n c = record c {
  backoff = record { tv_sec = now.tv_sec + n; tv_usec = now.tv_usec };
}
