-- ===== src/Registry/Dispatch.antt =====
-- `mq_create_` dispatches on the part of the URI before its first colon.
use libmq.Base.{
  ℕ, ◌≡◌, refl, ap, ◌∙◌, inl, inr, Bool, true, false, List, [], ◌∷◌, Option, none, some, ◌==◌,
  arith, if◌then◌else◌, Option-cases,
}
use libmq.Base.CString.{CString, same, same_upto}
use libmq.Libc.{set_errno, einval}
use libmq.World.{Slot, World}
use libmq.World.Locks.{idle, rdlock, unlock}
use libmq.Registry.{Build, create, dispatch, init_once, lock_read, release_lock}
use libmq.Registry.Slots.{serves, choose}
use libmq.Registry.Table.{lookup, table}

-- The part before the first colon, if there is one.
abbrev prefix_with : ℕ → Option CString → Option CString
prefix_with c none = none
prefix_with c (some s) = some (c ∷ s)

unfoldable pub scheme_of : CString → Option CString
scheme_of [] = none
scheme_of (c ∷ uri) = if c == b':' then some [] else prefix_with c (scheme_of uri)

abbrev pub Colonless : CString → Type 0
Colonless [] = Unit {0}
Colonless (c ∷ s) = ((c == b':') ≡ false) × Colonless s

abbrev pub AllColonless : List Slot → Type 0
AllColonless [] = Unit {0}
AllColonless (e ∷ es) = ((s : CString) → e.scheme ≡ some s → Colonless s) × AllColonless es

abbrev is : Option CString → CString → Bool
is none s = false
is (some t) s = same s t

serves-scheme_of : (uri s : CString) → Colonless s → serves uri s ≡ is (scheme_of uri) s
unfolding serves scheme_of same_upto same
serves-scheme_of [] [] h = refl
serves-scheme_of [] (d ∷ s) h = ground arith
serves-scheme_of (c ∷ uri) [] h = ground arith
serves-scheme_of (c ∷ uri) (d ∷ s) h = ground (arith, serves-scheme_of uri s h.1)

abbrev pub via : (CString → Option (ℕ × ℕ)) → Option CString → Option ℕ
via t none = none
via t (some s) = elim (t s) [ none ↦ none | some p ↦ some p.0 ]

pub choose-lookup :
    (uri : CString) (es : List Slot)
    → AllColonless es
    → choose uri es ≡ via (λ s. lookup s es) (scheme_of uri)
unfolding choose lookup
choose-lookup uri [] h = ground arith
choose-lookup uri (e ∷ es) h = elim (Option-cases e.scheme) [
  | inl gap ↦ ground (arith, choose-lookup uri es h.1)
  | inr (u, named) ↦ ground (arith, choose-lookup uri es h.1, serves-scheme_of uri u (h.0 u named))
]

-- The lock is given back when the constructor returns.
abbrev pub unlocked : {E Mq : Type 0} → Option (Option Mq × World E) → Option (Option Mq × World E)
unlocked none = none
unlocked (some (mq, w)) = some (mq, release_lock w)

module _ {E Mq : Type 0} (b : Build E Mq) (uri : CString) (reserved1 reserved2 : Option CString)
    (w : World E) where
  -- What `mq_create_` promises once the library is initialised.
  abbrev pub dispatched : Option ℕ → Option (Option Mq × World E)
  dispatched none = some (none, record w { libc = set_errno einval w.libc })
  dispatched (some construct) = unlocked (b.call construct uri reserved1 reserved2 (lock_read w))

  -- In an initialised process whose lock is free and whose schemes hold no colon, mq_create_ looks
  -- up the part of the URI before its first colon: it returns what that scheme's constructor
  -- returns, called under the read lock, which is then given back, or else NULL with errno EINVAL.
  pub create-dispatched :
      w.initialised ≡ true
      → w.enginelock ≡ idle
      → AllColonless w.engines
      → create b uri reserved1 reserved2 w ≡ dispatched (via (table w) (scheme_of uri))
  unfolding create dispatch init_once rdlock unlock
  create-dispatched ready free plain = ground (arith, choose-lookup uri w.engines plain)

  pub create-found :
      {k : ℕ} {mq : Option Mq} {w' : World E}
      → w.initialised ≡ true
      → w.enginelock ≡ idle
      → AllColonless w.engines
      → via (table w) (scheme_of uri) ≡ some k
      → b.call k uri reserved1 reserved2 (lock_read w) ≡ some (mq, w')
      → create b uri reserved1 reserved2 w ≡ some (mq, release_lock w')
  create-found ready free plain found made =
      create-dispatched ready free plain ∙ ap dispatched found ∙ ap unlocked made
