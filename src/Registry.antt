-- ===== src/Registry.antt =====
-- engine.c: the table of engines. Each function takes the state of the process and returns the
-- new one. The lock is taken and given back where the source does so, so that a function which
-- kept it would be seen.
pub mod Slots
pub mod Table
pub mod Scanning
pub mod Distinctness
pub mod Register
pub mod Unregister
pub mod Refinement
pub mod History
pub mod Leak
pub mod Dispatch
pub mod Threads
use libmq.Base.{
  ℕ, suc, ◌+◌, Bool, true, false, List, [], ◌∷◌, ◌++◌, Option, none, some, ◌==◌, if◌then◌else◌, ℤ,
  pos, minus_one, set,
}
use libmq.Base.CString.{CString, codes}
use libmq.Libc.{Libc, exhausted, after_alloc, after_realloc, set_errno, einval}
use libmq.Cmd.{Cmd, ◌>>=◌, ◌>>◌}
use libmq.World.{Slot, World}
use libmq.World.Locks.{wrlock, rdlock, unlock}
use Scanning.{entry}
use Slots.{
  passes, size_max, hit, miss, scan, rebind, is_registered, clear_first, has_construct, has_handle,
  clear_all, choose,
}

-- `realloc(engines, ...)`: `engines` is NULL until the first slot is made.
unfoldable pub after_grow : List Slot → Libc → Libc
after_grow [] c = after_alloc c
after_grow (_ ∷ _) c = after_realloc c

module _ {E : Type 0} where
  abbrev pub lock_write : World E → World E
  lock_write w = record w { enginelock = wrlock w.enginelock }

  abbrev pub lock_read : World E → World E
  lock_read w = record w { enginelock = rdlock w.enginelock }

  abbrev pub release_lock : World E → World E
  release_lock w = record w { enginelock = unlock w.enginelock }

  -- The rest of `mq_register_internal_` once `strdup` has succeeded.
  unfoldable pub store : CString → (construct handle spare : ℕ) → World E → ℤ × World E
  store s construct handle spare w =
      if spare == size_max
      then (if exhausted w.libc
          then (minus_one, release_lock (record w { libc = after_grow w.engines w.libc }))
          else (
            pos 0,
            release_lock (record w {
              libc = after_grow w.engines w.libc;
              engines = w.engines ++ entry s construct handle ∷ [];
            }),
          ))
      else (
        pos 0,
        release_lock (record w { engines = set w.engines spare (entry s construct handle) }),
      )

  unfoldable pub register_locked : CString → (construct handle : ℕ) → World E → ℤ × World E
  register_locked s construct handle w = elim (scan s 0 size_max w.engines) [
    | hit c ↦ (pos 0, release_lock (record w { engines = rebind c construct handle w.engines }))
    | miss spare ↦
        if exhausted w.libc
        then (minus_one, release_lock (record w { libc = after_alloc w.libc }))
        else store s construct handle spare (record w { libc = after_alloc w.libc })
  ]

  -- `mq_register`, which is `mq_register_internal_`.
  unfoldable pub register : CString → (construct handle : ℕ) → World E → ℤ × World E
  unfolding register_locked
  register s construct handle w = register_locked s construct handle (lock_write w)

  -- The functions that unregister, behind the call that takes the lock.
  unfoldable pub unregister_locked : CString → (handle : ℕ) → World E → ℤ × World E
  unregister_locked s handle w =
      let (found, libc, engines) = clear_first (passes (is_registered s handle)) w.libc w.engines in
      (if found then pos 1 else pos 0, release_lock (record w { libc = libc; engines = engines }))

  unfoldable pub unregister_where_locked : (Slot → Bool) → World E → ℤ × World E
  unregister_where_locked test w =
      let (count, libc, engines) = clear_all test 0 w.libc w.engines in
      (pos count, release_lock (record w { libc = libc; engines = engines }))

  unfoldable pub unregister : CString → (handle : ℕ) → World E → ℤ × World E
  unfolding unregister_locked
  unregister s handle w = unregister_locked s handle (lock_write w)

  unregister_where : (Slot → Bool) → World E → ℤ × World E
  unfolding unregister_where_locked
  unregister_where test w = unregister_where_locked test (lock_write w)

  unfoldable pub unregister_constructor : (construct : ℕ) → World E → ℤ × World E
  unfolding unregister_where
  unregister_constructor construct w = unregister_where (passes (has_construct construct)) w

  unfoldable pub unregister_all : (handle : ℕ) → World E → ℤ × World E
  unfolding unregister_where
  unregister_all handle w = unregister_where (passes (has_handle handle)) w

-- What a build of the library is made with, and the code behind its function pointers: the
-- address of `mq_proton_construct_` if Proton is compiled in, `mq_plugin_init_`, and the call of
-- a constructor by its address with the URI and the two reserved arguments.
pub record Build (E : Type 0) (Mq : Type 0) : Type 0 where
  pub proton : Option ℕ
  pub plugin_init : Cmd (World E) ℤ
  pub call :
      (construct : ℕ) → CString → (reserved1 reserved2 : Option CString) → Cmd (World E) (Option Mq)

module _ {E Mq : Type 0} (b : Build E Mq) where
  -- The engines that are compiled in.
  abbrev pub builtins : World E → World E
  builtins w = elim b.proton [
    | none ↦ w
    | some construct ↦
        (register (codes "amqps") construct 0 (register (codes "amqp") construct 0 w).1).1
  ]

  -- `mq_init_`
  unfoldable pub init : Cmd (World E) ℤ
  init w = b.plugin_init (builtins w)

  -- `pthread_once(&mq_init_once_, mq_init_)`
  unfoldable pub init_once : Cmd (World E) (Unit {0})
  init_once w = elim w.initialised [
    | true ↦ some (tt, w)
    | false ↦ elim (init w) [
      | none ↦ none
      | some (_, w₁) ↦ some (tt, record w₁ { initialised = true })
    ]
  ]

  -- The loop of `mq_create_`, with the lock. The constructor runs under the read lock.
  unfoldable pub dispatch :
      CString → (reserved1 reserved2 : Option CString) → Cmd (World E) (Option Mq)
  dispatch uri reserved1 reserved2 w =
      let w₁ = lock_read w in
      elim (choose uri w₁.engines) [
        | some construct ↦ elim (b.call construct uri reserved1 reserved2 w₁) [
          | none ↦ none
          | some (mq, w₂) ↦ some (mq, release_lock w₂)
        ]
        | none ↦
            some (none, (let w₂ = release_lock w₁ in record w₂ { libc = set_errno einval w₂.libc }))
      ]

  -- `mq_create_`
  unfoldable pub create :
      CString → (reserved1 reserved2 : Option CString) → Cmd (World E) (Option Mq)
  create uri reserved1 reserved2 = do init_once; dispatch uri reserved1 reserved2
