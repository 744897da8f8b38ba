-- ===== src/Libc.antt =====
-- The part of the C library that libmq uses: `errno`, the allocator, the clock, `random` and
-- `strerror_r`. Which allocations fail is the environment's choice: a stream with one answer for
-- each request. So are the sequence that follows each seed and the text of each error.
use libmq.Base.{ℕ, suc, ◌-◌, ◌%◌, ◌^◌, Bool, if◌then◌else◌, Option, none, some}
use libmq.Base.CString.{CString}

pub record Libc : Type 0 where
  pub errno : ℕ
  -- blocks handed out and not yet freed
  pub blocks : ℕ
  -- requests made so far, and whether the n-th one is refused
  pub requests : ℕ
  pub refuses : ℕ → Bool
  -- `time(NULL)`
  pub time : ℕ
  -- the seed, how many numbers were drawn since, and the n-th number after a seed
  pub seed : ℕ
  pub drawn : ℕ
  pub sequence : ℕ → ℕ → ℕ
  -- the text of an error number
  pub strerror : ℕ → CString

abbrev pub eperm : ℕ
eperm = 1

abbrev pub eagain : ℕ
eagain = 11

abbrev pub enomem : ℕ
enomem = 12

abbrev pub einval : ℕ
einval = 22

-- Whether the next request is refused.
abbrev pub exhausted : Libc → Bool
exhausted c = c.refuses c.requests

-- The state after a `malloc`, `calloc` or `strdup`.
unfoldable pub after_alloc : Libc → Libc
after_alloc c =
    if exhausted c
    then record c { requests = suc c.requests; errno = enomem }
    else record c { requests = suc c.requests; blocks = suc c.blocks }

-- The state after a `realloc` of a live block, which takes the old block's place.
unfoldable pub after_realloc : Libc → Libc
after_realloc c =
    if exhausted c
    then record c { requests = suc c.requests; errno = enomem }
    else record c { requests = suc c.requests }

-- `free` of a live block.
unfoldable pub after_free : Libc → Libc
after_free c = record c { blocks = c.blocks - 1 }

-- `free` of a pointer that may be NULL.
unfoldable pub after_free? {ℓ} : {A : Type ℓ} → Option A → Libc → Libc
unfolding after_free
after_free? none c = c
after_free? (some _) c = after_free c

abbrev pub set_errno : ℕ → Libc → Libc
set_errno e c = record c { errno = e }

unfoldable pub srandom : ℕ → Libc → Libc
srandom seed c = record c { seed = seed; drawn = 0 }

-- `random` returns a number from 0 to 2^31 - 1.
unfoldable pub random : Libc → ℕ × Libc
random c = (c.sequence c.seed c.drawn % 2 ^ 31, record c { drawn = suc c.drawn })
