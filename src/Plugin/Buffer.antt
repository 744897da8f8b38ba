-- ===== src/Plugin/Buffer.antt =====
-- The functions of <string.h> that plugin.c calls on its buffer, byte by byte. A write or a search
-- that leaves the buffer has no result.
use libmq.Base.{ℕ, zero, suc, List, [], ◌∷◌, Option, none, some, ◌==◌, if◌then◌else◌, take}
use libmq.Base.CString.{CString}

abbrev pub Bytes : Type 0
Bytes = List ℕ

abbrev behind : ℕ → Option Bytes → Option Bytes
behind b none = none
behind b (some bs) = some (b ∷ bs)

-- `buf[i] = c`
abbrev pub poke : ℕ → ℕ → Bytes → Option Bytes
poke i c [] = none
poke zero c (b ∷ bs) = some (c ∷ bs)
poke (suc i) c (b ∷ bs) = behind b (poke i c bs)

-- The text that starts at a byte, up to the NUL.
unfoldable pub text : Bytes → CString
text [] = []
text (b ∷ bs) = let rest = text bs in if b == 0 then [] else b ∷ rest

-- A string and its NUL, written to the start of a block.
abbrev pub copy : CString → Bytes → Option Bytes
copy s [] = none
copy [] (b ∷ bs) = some (0 ∷ bs)
copy (c ∷ s) (b ∷ bs) = behind c (copy s bs)

-- `strncat(buf, s, n)`
unfoldable pub append_from : CString → Bytes → Option Bytes
append_from s [] = none
append_from s (b ∷ bs) =
    let rest = append_from s bs in if b == 0 then copy s (b ∷ bs) else behind b rest

abbrev pub strncat : CString → ℕ → Bytes → Option Bytes
strncat s n bs = append_from (take n s) bs

-- `strncpy(p, s, n)`: `n` bytes, with NULs behind the string.
abbrev pub strncpy : CString → ℕ → Bytes → Option Bytes
strncpy s zero bs = some bs
strncpy s (suc n) [] = none
strncpy [] (suc n) (b ∷ bs) = behind 0 (strncpy [] n bs)
strncpy (c ∷ s) (suc n) (b ∷ bs) = behind c (strncpy s n bs)

-- Bytes that nobody has written yet.
abbrev pub garbage : (ℕ → ℕ) → ℕ → Bytes
garbage byte zero = []
garbage byte (suc n) = byte n ∷ garbage byte n
