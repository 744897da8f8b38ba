-- ===== src/Registry/Scanning.antt =====
-- The scan of `mq_register_internal_`, and the three writes that can follow it.
use libmq.Base.{
  ℕ, zero, suc, ◌+◌, ◌<◌, ◌≡◌, refl, List, [], ◌∷◌, ◌++◌, Option, none, some, arith, length, set,
  if◌then◌else◌, Option-cases, inl, inr,
}
use libmq.Base.CString.{CString, same, same_iff}
use libmq.World.{Slot}
use libmq.Registry.Slots.{Scan, hit, miss, scan, rebind}
use libmq.Registry.Table.{lookup, bind}

abbrev pub entry : CString → (construct handle : ℕ) → Slot
entry s construct handle = record { scheme = some s; construct = construct; handle = handle }

-- Where the scheme stands, and where the last vacant slot is.
abbrev next : Option ℕ → Option ℕ
next none = none
next (some k) = some (suc k)

unfoldable pub first : CString → List Slot → Option ℕ
first s [] = none
first s (e ∷ es) = elim e.scheme [
  | none ↦ next (first s es)
  | some t ↦ if same t s then some 0 else next (first s es)
]

unfoldable pub last_vacant : List Slot → Option ℕ
last_vacant [] = none
last_vacant (e ∷ es) = elim (last_vacant es) [
  | some k ↦ some (suc k)
  | none ↦ elim e.scheme [ none ↦ some 0 | some _ ↦ none ]
]

abbrev pub scanned : (c spare : ℕ) → Option ℕ → Option ℕ → Scan
scanned c spare (some k) v = hit (c + k)
scanned c spare none (some k) = miss (c + k)
scanned c spare none none = miss spare

pub scan_lem :
    (s : CString) (es : List Slot) (c spare : ℕ)
    → scan s c spare es ≡ scanned c spare (first s es) (last_vacant es)
unfolding scan first last_vacant
scan_lem s [] c spare = refl
scan_lem s (e ∷ es) c spare = ground (arith, scan_lem s es (suc c) c, scan_lem s es (suc c) spare)

pub lookup-rebind :
    (s : CString) (es : List Slot) {k : ℕ} (construct handle : ℕ) (t : CString)
    → first s es ≡ some k
    → lookup t (rebind k construct handle es) ≡ bind s construct handle (λ u. lookup u es) t
unfolding first lookup rebind
lookup-rebind s [] construct handle t h = cc
lookup-rebind s (e ∷ es) {k = zero} construct handle t h = elim (Option-cases e.scheme) [
  | inl gap ↦ ground (arith)
  | inr (u, named) ↦ ground (arith, same_iff s t, same_iff u s, same_iff u t)
]
lookup-rebind s (e ∷ es) {k = suc k} construct handle t h = elim (Option-cases e.scheme) [
  | inl gap ↦ ground (arith, lookup-rebind s es {k = k} construct handle t)
  | inr (u, named) ↦ ground (
    arith,
    same_iff s t,
    same_iff u s,
    same_iff u t,
    lookup-rebind s es {k = k} construct handle t,
  )
]

pub lookup_of_first : (s : CString) (es : List Slot) → first s es ≡ none → lookup s es ≡ none
unfolding first lookup
lookup_of_first s [] h = refl
lookup_of_first s (e ∷ es) h = ground (arith, lookup_of_first s es)

pub last_vacant-lt : (es : List Slot) {k : ℕ} → last_vacant es ≡ some k → k < length es
unfolding last_vacant
last_vacant-lt [] h = cc
last_vacant-lt (e ∷ es) {k = zero} h = omega arith
last_vacant-lt (e ∷ es) {k = suc k} h = ground (arith, last_vacant-lt es {k = k})

pub lookup-set :
    (s : CString) (es : List Slot) {k : ℕ} (construct handle : ℕ) (t : CString)
    → first s es ≡ none
    → last_vacant es ≡ some k
    → lookup t (set es k (entry s construct handle)) ≡ bind s construct handle (λ u. lookup u es) t
unfolding first last_vacant lookup
lookup-set s [] construct handle t h v = cc
lookup-set s (e ∷ es) {k = zero} construct handle t h v = elim (Option-cases e.scheme) [
  | inl gap ↦ ground (arith, lookup_of_first s es)
  | inr (u, named) ↦ ground (arith, same_iff s t, same_iff u s, same_iff u t, lookup_of_first s es)
]
lookup-set s (e ∷ es) {k = suc k} construct handle t h v = elim (Option-cases e.scheme) [
  | inl gap ↦ ground (arith, lookup-set s es {k = k} construct handle t)
  | inr (u, named) ↦
      ground (
        arith,
        same_iff s t,
        same_iff u s,
        same_iff u t,
        lookup-set s es {k = k} construct handle t,
      )
]

pub lookup-append :
    (s : CString) (es : List Slot) (construct handle : ℕ) (t : CString)
    → first s es ≡ none
    → lookup t (es ++ entry s construct handle ∷ []) ≡ bind s construct handle (λ u. lookup u es) t
unfolding first lookup
lookup-append s [] construct handle t h = ground arith
lookup-append s (e ∷ es) construct handle t h = elim (Option-cases e.scheme) [
  | inl gap ↦ ground (arith, lookup-append s es construct handle t)
  | inr (u, named) ↦
      ground
        (arith, same_iff s t, same_iff u s, same_iff u t, lookup-append s es construct handle t)
]
