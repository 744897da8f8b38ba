-- ===== src/Registry/Threads/Schemes.antt =====
-- The schemes in the array of engine.c hold no colon if those that are registered hold none.
use libmq.Base.{
  ℕ, zero, suc, ◌<◌, ◌≡◌, inl, inr, Bool, List, [], ◌∷◌, ◌++◌, some, length, set, Bool-cases,
}
use libmq.Base.CString.{CString}
use libmq.Libc.{Libc, after_free}
use libmq.World.{Slot, World}
use libmq.Registry.{unregister, unregister_where, unregister_constructor, unregister_all, register}
use libmq.Registry.Slots.{
  size_max, rebind, passes, is_registered, has_construct, has_handle, clear_first, clear_all,
}
use libmq.Registry.Scanning.{entry}
use libmq.Registry.Register.{register_cases}
use libmq.Registry.Dispatch.{Colonless, AllColonless}
use libmq.Registry.History.{
  Call, registers, unregisters, unregisters_constructor, unregisters_all, step,
}

-- A call whose scheme, if it registers one, holds no colon.
abbrev pub Plain : Call → Type 0
Plain (registers s construct handle) = Colonless s
Plain (unregisters s handle) = Unit {0}
Plain (unregisters_constructor construct) = Unit {0}
Plain (unregisters_all handle) = Unit {0}

rebind-AllColonless :
    (k construct handle : ℕ) (es : List Slot)
    → AllColonless es
    → AllColonless (rebind k construct handle es)
unfolding rebind
rebind-AllColonless k construct handle [] h = tt
rebind-AllColonless zero construct handle (e ∷ es) h = h
rebind-AllColonless (suc k) construct handle (e ∷ es) h =
    (h.0, rebind-AllColonless k construct handle es h.1)

entry-Colonless :
    (s : CString) (construct handle : ℕ) (t : CString)
    → Colonless s
    → (entry s construct handle).scheme ≡ some t
    → Colonless t
entry-Colonless s construct handle t h e = let same : t ≡ s = cc in rw same h

set-AllColonless :
    (s : CString) (construct handle : ℕ) (k : ℕ) (es : List Slot)
    → Colonless s
    → AllColonless es
    → AllColonless (set es k (entry s construct handle))
set-AllColonless s construct handle k [] c h = tt
set-AllColonless s construct handle zero (e ∷ es) c h =
    ((λ t named. entry-Colonless s construct handle t c named), h.1)
set-AllColonless s construct handle (suc k) (e ∷ es) c h =
    (h.0, set-AllColonless s construct handle k es c h.1)

append-AllColonless :
    (s : CString) (construct handle : ℕ) (es : List Slot)
    → Colonless s
    → AllColonless es
    → AllColonless (es ++ entry s construct handle ∷ [])
append-AllColonless s construct handle [] c h =
    ((λ t named. entry-Colonless s construct handle t c named), tt)
append-AllColonless s construct handle (e ∷ es) c h =
    (h.0, append-AllColonless s construct handle es c h.1)

clear_first-AllColonless :
    (test : Slot → Bool) (libc : Libc) (es : List Slot)
    → AllColonless es
    → AllColonless (clear_first test libc es).2
unfolding clear_first
clear_first-AllColonless test libc [] h = tt
clear_first-AllColonless test libc (e ∷ es) h = elim (Bool-cases (test e)) [
  | inl found ↦ rw found ((λ s named. cc), h.1)
  | inr other ↦ rw other (h.0, clear_first-AllColonless test libc es h.1)
]

clear_all-AllColonless :
    (test : Slot → Bool) (n : ℕ) (libc : Libc) (es : List Slot)
    → AllColonless es
    → AllColonless (clear_all test n libc es).2
unfolding clear_all
clear_all-AllColonless test n libc [] h = tt
clear_all-AllColonless test n libc (e ∷ es) h = elim (Bool-cases (test e)) [
  | inl found ↦
      rw found ((λ s named. cc), clear_all-AllColonless test (suc n) (after_free libc) es h.1)
  | inr other ↦ rw other (h.0, clear_all-AllColonless test n libc es h.1)
]

module _ {E : Type 0} (w : World E) (h : AllColonless w.engines) where
  register-AllColonless :
      (s : CString) (construct handle : ℕ)
      → Colonless s
      → length w.engines < size_max
      → AllColonless (register s construct handle w).1.engines
  register-AllColonless s construct handle c small =
      register_cases s construct handle w (λ r. AllColonless r.1.engines) small
        (λ k at. rebind-AllColonless k construct handle w.engines h) (λ full. h)
        (λ missing k gap. set-AllColonless s construct handle k w.engines c h) (λ full. h)
        (λ missing. append-AllColonless s construct handle w.engines c h)

  pub step-AllColonless :
      (c : Call) → Plain c → length w.engines < size_max → AllColonless (step c w).1.engines
  unfolding step unregister unregister_where unregister_constructor unregister_all
  step-AllColonless (registers s construct handle) plain small =
      register-AllColonless s construct handle plain small
  step-AllColonless (unregisters s handle) plain small =
      clear_first-AllColonless (passes (is_registered s handle)) w.libc w.engines h
  step-AllColonless (unregisters_constructor construct) plain small =
      clear_all-AllColonless (passes (has_construct construct)) 0 w.libc w.engines h
  step-AllColonless (unregisters_all handle) plain small =
      clear_all-AllColonless (passes (has_handle handle)) 0 w.libc w.engines h
