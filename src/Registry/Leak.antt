-- ===== src/Registry/Leak.antt =====
-- What a failed registration leaves behind: the copy of the scheme when `realloc` fails.
use libmq.Base.{ℕ, suc, ◌≡◌, refl, List, [], ◌∷◌, none, some, true, false, arith, minus_one}
use libmq.Base.CString.{CString}
use libmq.Libc.{Libc, exhausted, after_alloc, after_realloc}
use libmq.World.{Slot, World}
use libmq.Registry.{register, after_grow}
use libmq.Registry.Table.{lookup, table}
use libmq.Registry.Scanning.{first, last_vacant}
use libmq.Registry.Register.{register-no_slot}

-- No slot is vacant.
abbrev pub Dense : List Slot → Type 0
Dense [] = Unit {0}
Dense (e ∷ es) = ((s : CString) × (e.scheme ≡ some s)) × Dense es

last_vacant-Dense : (es : List Slot) → Dense es → last_vacant es ≡ none
unfolding last_vacant
last_vacant-Dense [] d = refl
last_vacant-Dense (e ∷ es) d = ground (arith, last_vacant-Dense es d.1)

first_of_lookup : (s : CString) (es : List Slot) → lookup s es ≡ none → first s es ≡ none
unfolding first lookup
first_of_lookup s [] h = refl
first_of_lookup s (e ∷ es) h = ground (arith, first_of_lookup s es)

grow-blocks :
    (es : List Slot) (c : Libc)
    → exhausted c ≡ false
    → exhausted (after_alloc c) ≡ true
    → (after_grow es (after_alloc c)).blocks ≡ suc c.blocks
unfolding after_grow after_alloc after_realloc
grow-blocks [] c room full = ground arith
grow-blocks (e ∷ es) c room full = ground arith

-- If the scheme has no entry, every slot is in use, the first request to the allocator is granted
-- and the second is refused, mq_register returns -1 and leaves the slots as they were, but one more
-- block is in use than before.
pub register_leak :
    {E : Type 0} (s : CString) (construct handle : ℕ) (w : World E)
    → table w s ≡ none
    → Dense w.engines
    → exhausted w.libc ≡ false
    → exhausted (after_alloc w.libc) ≡ true
    → let (r, w') = register s construct handle w in
      (r ≡ minus_one) × (w'.engines ≡ w.engines) × (w'.libc.blocks ≡ suc w.libc.blocks)
register_leak s construct handle w missing dense room full =
    rw
      (register-no_slot s construct handle w (first_of_lookup s w.engines missing)
        (last_vacant-Dense w.engines dense) room full)
      (refl, refl, grow-blocks w.engines w.libc room full)
