-- ===== src/Registry/Distinctness.antt =====
-- No function of engine.c puts a scheme into two slots.
use libmq.Base.{
  ℕ, zero, suc, ◌≡◌, refl, inl, inr, List, [], ◌∷◌, ◌++◌, Bool, none, some, arith, set,
  if◌then◌else◌, Bool-cases,
}
use libmq.Base.CString.{CString, same_iff}
use libmq.Libc.{Libc, after_free}
use libmq.World.{Slot}
use libmq.Registry.Slots.{rebind, clear_first, clear_all}
use libmq.Registry.Table.{lookup, Distinct}
use libmq.Registry.Scanning.{entry, first, last_vacant, lookup_of_first, lookup-set, lookup-append}

lookup-rebind-none :
    (t : CString) (k construct handle : ℕ) (es : List Slot)
    → lookup t es ≡ none
    → lookup t (rebind k construct handle es) ≡ none
unfolding lookup rebind
lookup-rebind-none t k construct handle [] h = refl
lookup-rebind-none t zero construct handle (e ∷ es) h = ground arith
lookup-rebind-none t (suc k) construct handle (e ∷ es) h =
    ground (arith, lookup-rebind-none t k construct handle es)

pub rebind-Distinct :
    (k construct handle : ℕ) (es : List Slot)
    → Distinct es
    → Distinct (rebind k construct handle es)
unfolding rebind
rebind-Distinct k construct handle [] d = tt
rebind-Distinct zero construct handle (e ∷ es) d = d
rebind-Distinct (suc k) construct handle (e ∷ es) d = (
  λ s h. lookup-rebind-none s k construct handle es (d.0 s h),
  rebind-Distinct k construct handle es d.1,
)

pub set-Distinct :
    (s : CString) (es : List Slot) {k : ℕ} (construct handle : ℕ)
    → first s es ≡ none
    → last_vacant es ≡ some k
    → Distinct es
    → Distinct (set es k (entry s construct handle))
unfolding first last_vacant
set-Distinct s [] construct handle h v d = tt
set-Distinct s (e ∷ es) {k = zero} construct handle h v d =
    (λ t p. ground (arith, lookup_of_first s es), d.1)
set-Distinct s (e ∷ es) {k = suc k} construct handle h v d = (
  λ t p.
      ground (arith, d.0 t, lookup-set s es {k = k} construct handle t, same_iff s t, same_iff t s),
  set-Distinct s es {k = k} construct handle (ground arith) (ground arith) d.1,
)

pub append-Distinct :
    (s : CString) (es : List Slot) (construct handle : ℕ)
    → first s es ≡ none
    → Distinct es
    → Distinct (es ++ entry s construct handle ∷ [])
unfolding first lookup
append-Distinct s [] construct handle h d = (λ t p. refl, tt)
append-Distinct s (e ∷ es) construct handle h d = (
  λ t p. ground (arith, d.0 t, lookup-append s es construct handle t, same_iff s t, same_iff t s),
  append-Distinct s es construct handle (ground arith) d.1,
)

lookup-clear_all :
    (test : Slot → Bool) (t : CString) (n : ℕ) (libc : Libc) (es : List Slot)
    → lookup t es ≡ none
    → lookup t (clear_all test n libc es).2 ≡ none
unfolding clear_all lookup
lookup-clear_all test t n libc [] h = refl
lookup-clear_all test t n libc (e ∷ es) h = ground (
  arith,
  lookup-clear_all test t (if test e then suc n else n) (if test e then after_free libc else libc)
      es,
)

pub clear_all-Distinct :
    (test : Slot → Bool) (n : ℕ) (libc : Libc) (es : List Slot)
    → Distinct es
    → Distinct (clear_all test n libc es).2
unfolding clear_all
clear_all-Distinct test n libc [] d = tt
clear_all-Distinct test n libc (e ∷ es) d = (
  λ t p. lookup-clear_all test t _ _ es (d.0 t (ground arith)),
  clear_all-Distinct test (if test e then suc n else n) (if test e then after_free libc else libc)
      es d.1,
)

lookup-clear_first :
    (test : Slot → Bool) (t : CString) (libc : Libc) (es : List Slot)
    → lookup t es ≡ none
    → lookup t (clear_first test libc es).2 ≡ none
unfolding clear_first lookup
lookup-clear_first test t libc [] h = refl
lookup-clear_first test t libc (e ∷ es) h = ground (arith, lookup-clear_first test t libc es)

pub clear_first-Distinct :
    (test : Slot → Bool) (libc : Libc) (es : List Slot)
    → Distinct es
    → Distinct (clear_first test libc es).2
unfolding clear_first
clear_first-Distinct test libc [] d = tt
clear_first-Distinct test libc (e ∷ es) d = elim (Bool-cases (test e)) [
  | inl hit ↦ rw hit (λ t p. cc, d.1)
  | inr miss ↦
      rw miss
        (λ t p. lookup-clear_first test t libc es (d.0 t p), clear_first-Distinct test libc es d.1)
]
