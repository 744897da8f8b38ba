-- ===== src/Registry/Slots.antt =====
-- The loops of engine.c over the array of slots.
use libmq.Base.{
  ℕ, zero, suc, ◌^◌, ◌-◌, Bool, true, false, ◌&&◌, List, [], ◌∷◌, Option, none, some, ◌==◌, ltb,
  if◌then◌else◌, length,
}
use libmq.Base.CString.{CString, char_at, same, same_upto}
use libmq.Libc.{Libc, after_free}
use libmq.World.{Slot}

-- `(size_t) -1`
unfoldable pub size_max : ℕ
size_max = 2 ^ 64 - 1

-- What `memset` leaves of a slot.
abbrev pub vacant : Slot
vacant = record { scheme = none; construct = 0; handle = 0 }

-- How the loop of `mq_register_internal_` ends: at a slot with the scheme, or past the last slot
-- with the value of `spare`.
pub data Scan : Type 0 where
  hit miss : ℕ → Scan

unfoldable pub scan : CString → (c spare : ℕ) → List Slot → Scan
scan s c spare [] = miss spare
scan s c spare (e ∷ es) = elim e.scheme [
  | none ↦ scan s (suc c) c es
  | some t ↦ elim (same t s) [ true ↦ hit c | false ↦ scan s (suc c) spare es ]
]

-- `engines[c].construct = construct; engines[c].handle = handle;`
unfoldable pub rebind : ℕ → (construct handle : ℕ) → List Slot → List Slot
rebind c construct handle [] = []
rebind zero construct handle (e ∷ es) = record e { construct = construct; handle = handle } ∷ es
rebind (suc c) construct handle (e ∷ es) = e ∷ rebind c construct handle es

-- `if(!engines[c].scheme) continue; if(...)`: a vacant slot passes no test.
abbrev pub passes : (CString → ℕ × ℕ → Bool) → Slot → Bool
passes test e = elim e.scheme [ none ↦ false | some s ↦ test s (e.construct, e.handle) ]

-- The tests of `mq_unregister`, `mq_unregister_constructor` and `mq_unregister_all`.
abbrev pub is_registered : CString → ℕ → CString → ℕ × ℕ → Bool
is_registered s handle t p = same t s && (p.1 == handle)

abbrev pub has_construct : ℕ → CString → ℕ × ℕ → Bool
has_construct construct t p = p.0 == construct

abbrev pub has_handle : ℕ → CString → ℕ × ℕ → Bool
has_handle handle t p = p.1 == handle

-- The loop of `mq_unregister`, which stops at the first slot that it clears.
unfoldable pub clear_first : (Slot → Bool) → Libc → List Slot → Bool × Libc × List Slot
clear_first test libc [] = (false, libc, [])
clear_first test libc (e ∷ es) =
    let (found, libc', es') = clear_first test libc es in
    if test e then (true, after_free libc, vacant ∷ es) else (found, libc', e ∷ es')

-- The loop of the other two, which clears every slot that passes the test and counts them.
unfoldable pub clear_all : (Slot → Bool) → ℕ → Libc → List Slot → ℕ × Libc × List Slot
clear_all test count libc [] = (count, libc, [])
clear_all test count libc (e ∷ es) =
    let (count', libc', es') =
      clear_all test (if test e then suc count else count)
        (if test e then after_free libc else libc) es in
    (count', libc', (if test e then vacant else e) ∷ es')

-- The test of `mq_create_`.
unfoldable pub serves : CString → CString → Bool
serves uri s =
    ltb (length s) (length uri) && (same_upto (length s) uri s && (char_at uri (length s) == b':'))

-- The loop of `mq_create_`: the constructor of the first slot that serves the URI.
unfoldable pub choose : CString → List Slot → Option ℕ
choose uri [] = none
choose uri (e ∷ es) = elim e.scheme [
  | none ↦ choose uri es
  | some s ↦ elim (serves uri s) [ true ↦ some e.construct | false ↦ choose uri es ]
]
