-- ===== src/Registry/Threads/Reading.antt =====
-- What the threads in the loop of `mq_create_` have seen of the array.
use libmq.Base.{
  ℕ, zero, suc, ◌+◌, ◌≡◌, refl, inl, inr, List, [], ◌∷◌, ◌++◌, none, some, arith, Option-cases,
}
use libmq.Base.CString.{CString}
use libmq.World.{Slot}
use libmq.Registry.Slots.{choose}
use libmq.Registry.Threads.{Phase, outside, returned, changing, scanning, chosen, slot_at, look}

-- The threads that hold the read lock.
abbrev pub reads : Phase → ℕ
reads outside = 0
reads returned = 1
reads (changing c) = 0
reads (scanning uri c) = 1
reads (chosen uri k) = 1

unfoldable pub readers : List Phase → ℕ
readers [] = 0
readers (p ∷ ps) = reads p + readers ps

-- The slots from an index on.
unfoldable pub from : ℕ → List Slot → List Slot
from zero es = es
from (suc c) [] = []
from (suc c) (e ∷ es) = from c es

-- A thread in the loop has passed no slot of the array, as it is now, that serves its URI; behind
-- the loop, it has what the loop finds in the array.
unfoldable pub Right : List Slot → Phase → Type 0
Right es outside = Unit {0}
Right es returned = Unit {0}
Right es (changing c) = Unit {0}
Right es (scanning uri c) = choose uri es ≡ choose uri (from c es)
Right es (chosen uri k) = choose uri es ≡ k

abbrev pub AllRight : List Slot → List Phase → Type 0
AllRight es [] = Unit {0}
AllRight es (p ∷ ps) = Right es p × AllRight es ps

pub readers-at :
    (xs ys : List Phase) (p : Phase) → readers (xs ++ p ∷ ys) ≡ reads p + readers (xs ++ ys)
unfolding readers
readers-at [] ys p = refl
readers-at (x ∷ xs) ys p = omega (arith, readers-at xs ys p)

pub AllRight-at :
    (es : List Slot) (xs ys : List Phase) (p : Phase) → AllRight es (xs ++ p ∷ ys) → Right es p
AllRight-at es [] ys p h = h.0
AllRight-at es (x ∷ xs) ys p h = AllRight-at es xs ys p h.1

pub AllRight-set :
    (es : List Slot) (xs ys : List Phase) (p p' : Phase)
    → Right es p'
    → AllRight es (xs ++ p ∷ ys)
    → AllRight es (xs ++ p' ∷ ys)
AllRight-set es [] ys p p' r h = (r, h.1)
AllRight-set es (x ∷ xs) ys p p' r h = (h.0, AllRight-set es xs ys p p' r h.1)

-- Who does not read has seen nothing.
Right-apart : (es : List Slot) (p : Phase) → reads p ≡ 0 → Right es p
unfolding Right
Right-apart es outside h = tt
Right-apart es (changing c) h = tt
Right-apart es returned h = tt
Right-apart es (scanning uri c) h = cc
Right-apart es (chosen uri k) h = cc

pub AllRight-apart : (es : List Slot) (ps : List Phase) → readers ps ≡ 0 → AllRight es ps
unfolding readers
AllRight-apart es [] h = tt
AllRight-apart es (p ∷ ps) h =
    (Right-apart es p (omega (arith, h)), AllRight-apart es ps (omega (arith, h)))

-- The array from an index on, by its slot.
from-none : (c : ℕ) (es : List Slot) → slot_at c es ≡ none → from c es ≡ []
unfolding slot_at from
from-none zero [] h = refl
from-none (suc c) [] h = refl
from-none zero (e ∷ es) h = cc
from-none (suc c) (e ∷ es) h = from-none c es h

from-some :
    (c : ℕ) (es : List Slot) {e : Slot} → slot_at c es ≡ some e → from c es ≡ e ∷ from (suc c) es
unfolding slot_at from
from-some c [] h = cc
from-some zero (e ∷ es) h = cc
from-some (suc c) (e ∷ es) h = from-some c es h

pub look-Right :
    (uri : CString) (c : ℕ) (es : List Slot) → Right es (scanning uri c) → Right es (look uri c es)
unfolding Right look choose
look-Right uri c es h = elim (Option-cases (slot_at c es)) [
  | inl past ↦ ground (arith, from-none c es past)
  | inr (e, at) ↦ elim (Option-cases e.scheme) [
    | inl gap ↦ ground (arith, from-some c es at)
    | inr (s, named) ↦ ground (arith, from-some c es at)
  ]
]
