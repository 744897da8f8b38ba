-- ===== src/Examples/Backoff.antt =====
-- An example for the back-off timer of libmq-engine.h.
use libmq.Base.{◌≡◌, true, false, none, pos, leb, ◌+◌, ◌*◌, if◌then◌else◌, arith}
use libmq.Base.CString.{codes}
use libmq.Libc.{set_errno, eagain}
use libmq.Engine.{disconnected}
use libmq.Engine.Errors.{Timeval, Members, set_syserr, backoff_check, backoff_secs}
use libmq.Engine.Backoff.{micros, backoff_check-backoff_secs}
use libmq.Examples.Data.{roomy}

abbrev now : Timeval
now = record { tv_sec = 1000; tv_usec = 999999 }

-- Two seconds later less one microsecond.
abbrev later : Timeval
later = record { tv_sec = 1002; tv_usec = 999998 }

abbrev members : Members
members = record {
  state = disconnected;
  syserr = 0;
  errcode = pos 0;
  errmsg = none;
  uri = codes "random:x";
  cluster = none;
  backoff = record { tv_sec = 0; tv_usec = 0 };
}

backoff_check-backoff_secs_example :
    let c' = backoff_secs now 2 members in
    backoff_check later roomy c' ≡ (
      if leb (micros now + 2 * 1000000) (micros later)
      then (true, roomy, c')
      else (false, set_errno eagain roomy, set_syserr eagain c'))
backoff_check-backoff_secs_example =
    backoff_check-backoff_secs now later 2 roomy members (omega arith) (omega arith)
