-- ===== src/Engine/Backoff.antt =====
-- The back-off timer of libmq-engine.h against the clock in microseconds.
use libmq.Base.{ℕ, ◌+◌, ◌*◌, ◌<◌, ◌≡◌, ◌∙◌, ap, Bool, true, false, leb, if◌then◌else◌, arith}
use libmq.Libc.{Libc, set_errno, eagain}
use libmq.Engine.Errors.{Timeval, Members, at_or_after, set_syserr, backoff_check, backoff_secs}

-- The microseconds since the epoch.
abbrev pub micros : Timeval → ℕ
micros t = t.tv_sec * 1000000 + t.tv_usec

-- A time whose microseconds are below a second, as gettimeofday gives it.
abbrev pub Normal : Timeval → Type 0
Normal t = t.tv_usec < 1000000

at_or_after-micros :
    (a b : Timeval) → Normal a → Normal b → at_or_after a b ≡ leb (micros b) (micros a)
unfolding at_or_after
at_or_after-micros a b ha hb = ground (arith, ha, hb)

-- After BACKOFF_SECS(conn, n) at one time, BACKOFF_CHECK(conn, ...) at another lets its caller go
-- on if n times 1000000 microseconds have passed between the two, and if not sets the error of the
-- connection and errno to EAGAIN and makes the caller return -1; both times have fewer than 1000000
-- microseconds in tv_usec.
pub backoff_check-backoff_secs :
    (now later : Timeval) (n : ℕ) (libc : Libc) (c : Members)
    → Normal now
    → Normal later
    → let c' = backoff_secs now n c in
      backoff_check later libc c' ≡ (
        if leb (micros now + n * 1000000) (micros later)
        then (true, libc, c')
        else (false, set_errno eagain libc, set_syserr eagain c'))
unfolding backoff_check backoff_secs
backoff_check-backoff_secs now later n libc c hn hl =
    let due : Timeval = record { tv_sec = now.tv_sec + n; tv_usec = now.tv_usec } in
    let sum : micros due ≡ micros now + n * 1000000 = omega arith in
    let e : at_or_after later due ≡ leb (micros now + n * 1000000) (micros later) =
      at_or_after-micros later due hl hn ∙ ap (λ (k : ℕ). leb k (micros later)) sum in
    ap
      (λ (b : Bool).
        if b
        then (true, libc, backoff_secs now n c)
        else (false, set_errno eagain libc, set_syserr eagain (backoff_secs now n c)))
      e
