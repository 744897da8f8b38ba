-- ===== src/Plugin/Bounds.antt =====
-- The writes to the buffer of plugin.c stay inside it.
use libmq.Base.{
  ℕ, zero, suc, ◌+◌, ◌≤◌, ◌<◌, ◌≡◌, refl, ap, false, [], ◌∷◌, ◌++◌, some, ◌==◌, arith, length,
  take_all,
}
use libmq.Base.CString.{CString}
use libmq.Plugin.Buffer.{Bytes, poke, text, copy, append_from, strncat, strncpy, garbage}

-- A string has no NUL before its end.
abbrev pub NoNul : CString → Type 0
NoNul [] = Unit {0}
NoNul (c ∷ s) = ((c == 0) ≡ false) × NoNul s

pub NoNul-append : (s t : CString) → NoNul s → NoNul t → NoNul (s ++ t)
NoNul-append [] t h k = k
NoNul-append (c ∷ s) t h k = (h.0, NoNul-append s t h.1 k)

pub poke_end :
    (s : CString) (c b : ℕ) (bs : Bytes) → poke (length s) c (s ++ b ∷ bs) ≡ some (s ++ c ∷ bs)
poke_end [] c b bs = refl
poke_end (d ∷ s) c b bs = rw (poke_end s c b bs)

pub text_end : (s : CString) (bs : Bytes) → NoNul s → text (s ++ 0 ∷ bs) ≡ s
unfolding text
text_end [] bs h = refl
text_end (c ∷ s) bs h = rw (h.0, text_end s bs h.1)

-- The bytes behind a string that was copied, with its NUL, over the start of a block.
pub copy_fits :
    (s : CString) (bs : Bytes)
    → length s < length bs
    → (rest : Bytes) × (copy s bs ≡ some (s ++ 0 ∷ rest))
      × (length s + suc (length rest) ≡ length bs)
copy_fits s [] h = absurd (omega arith)
copy_fits [] (b ∷ bs) h = (bs, refl, omega arith)
copy_fits (c ∷ s) (b ∷ bs) h =
    let (rest, e, l) = copy_fits s bs (omega arith) in (rest, rw e, omega (arith, l))

append_from_end :
    (t s : CString) (bs : Bytes) {r : Bytes}
    → NoNul t
    → copy s (0 ∷ bs) ≡ some r
    → append_from s (t ++ 0 ∷ bs) ≡ some (t ++ r)
unfolding append_from
append_from_end [] s bs h e = e
append_from_end (c ∷ t) s bs h e = rw (h.0, append_from_end t s bs h.1 e)

-- `strncat` behind a string, in a block with room for it.
pub strncat_fits :
    (t s : CString) (n : ℕ) (bs : Bytes)
    → NoNul t
    → length s ≤ n
    → length s ≤ length bs
    → (rest : Bytes) × (strncat s n (t ++ 0 ∷ bs) ≡ some (t ++ (s ++ 0 ∷ rest)))
      × (length s + length rest ≡ length bs)
strncat_fits t s n bs plain whole fits =
    let (rest, e, l) = copy_fits s (0 ∷ bs) (omega arith) in
    (rest, rw (take_all n s whole) (append_from_end t s bs plain e), omega (arith, l))

pub length-garbage : (byte : ℕ → ℕ) (n : ℕ) → length (garbage byte n) ≡ n
length-garbage byte zero = refl
length-garbage byte (suc n) = ap suc (length-garbage byte n)

strncpy_zeros :
    (n : ℕ) (bs : Bytes) → length bs ≡ n → (z : Bytes) × (strncpy [] n bs ≡ some z) × (length z ≡ n)
strncpy_zeros zero [] h = ([], refl, refl)
strncpy_zeros zero (b ∷ bs) h = absurd (omega arith)
strncpy_zeros (suc n) [] h = absurd (omega arith)
strncpy_zeros (suc n) (b ∷ bs) h =
    let (z, e, l) = strncpy_zeros n bs (omega arith) in (0 ∷ z, rw e, omega (arith, l))

-- `strncpy` of a string over a whole block with room for it.
pub strncpy_fits :
    (s : CString) (n : ℕ) (bs : Bytes)
    → length bs ≡ n
    → length s ≤ n
    → (z : Bytes) × (strncpy s n bs ≡ some (s ++ z)) × (length s + length z ≡ n)
strncpy_fits [] n bs h fits = let (z, e, l) = strncpy_zeros n bs h in (z, e, omega (arith, l))
strncpy_fits (c ∷ s) zero bs h fits = absurd (omega arith)
strncpy_fits (c ∷ s) (suc n) [] h fits = absurd (omega arith)
strncpy_fits (c ∷ s) (suc n) (b ∷ bs) h fits =
    let (z, e, l) = strncpy_fits s n bs (omega arith) (omega arith) in (z, rw e, omega (arith, l))
