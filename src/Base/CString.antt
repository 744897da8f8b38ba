-- ===== src/Base/CString.antt =====
-- C strings as the bytes before the terminating NUL, and the functions of <string.h> that the
-- library calls on them.
use Prim.Native.Char.{code}
use Prim.Native.String.{String}
use Prim.Native.Nat.{ℕ, zero, suc}
use mathlib.Core.Path.{◌≡◌, refl}
use mathlib.Core.Logic.{◌↔◌}
use mathlib.Core.Bool.{Bool, true, false, ◌&&◌}
use mathlib.Core.List.{List, [], ◌∷◌}
use native.Mathlib.Omega.{arith}
use libmq.Base.Tests.{◌==◌}

abbrev pub CString : Type 0
CString = List ℕ

-- A literal.
abbrev pub codes : String → CString
codes String.[] = []
codes (String.◌∷◌ c s) = code c ∷ codes s

-- `s[i]`, for an index up to the terminating NUL.
abbrev pub char_at : CString → ℕ → ℕ
char_at [] i = 0
char_at (c ∷ s) zero = c
char_at (c ∷ s) (suc i) = char_at s i

-- `!strcmp(a, b)`.
unfoldable pub same : CString → CString → Bool
same [] [] = true
same [] (d ∷ t) = false
same (c ∷ s) [] = false
same (c ∷ s) (d ∷ t) = (c == d) && same s t

-- `!strncmp(a, b, n)`.
unfoldable pub same_upto : ℕ → CString → CString → Bool
same_upto zero s t = true
same_upto (suc n) [] [] = true
same_upto (suc n) [] (d ∷ t) = false
same_upto (suc n) (c ∷ s) [] = false
same_upto (suc n) (c ∷ s) (d ∷ t) = (c == d) && same_upto n s t

pub same_self : (s : CString) → same s s ≡ true
unfolding same
same_self [] = refl
same_self (c ∷ s) = ground (arith, same_self s)

pub eq_of_same : (s t : CString) → same s t ≡ true → s ≡ t
unfolding same
eq_of_same [] [] h = refl
eq_of_same [] (d ∷ t) h = cc
eq_of_same (c ∷ s) [] h = cc
eq_of_same (c ∷ s) (d ∷ t) h = ground (arith, eq_of_same s t)

pub same_iff : (s t : CString) → (same s t ≡ true) ↔ (s ≡ t)
same_iff s t = (eq_of_same s t, λ e. rw e (same_self t))
