-- ===== src/Base/Decimal.antt =====
-- `snprintf` of a number in decimal, and the number that the digits stand for.
use Prim.Native.Nat.{ℕ, zero, suc, ◌+◌, ◌-◌, ◌*◌, ◌/◌, ◌%◌, ◌^◌, ◌≤◌, ◌<◌}
use mathlib.Core.Path.{◌≡◌, refl}
use mathlib.Core.Logic.{inl, inr}
use mathlib.Core.List.{[], ◌∷◌, ◌++◌}
use native.Mathlib.Nat.{pow-suc}
use native.Mathlib.Omega.{arith}
use libmq.Base.Tests.{ℤ, pos, negsuc, ltb, if◌then◌else◌, Bool-cases}
use libmq.Base.Lists.{length, length-append}
use libmq.Base.CString.{CString}

-- The digits of `n`, the last `fuel` of them at most.
unfoldable pub digits : (fuel n : ℕ) → CString
digits zero n = []
digits (suc fuel) n =
    let rest = digits fuel (n / 10) in
    if ltb n 10 then (b'0' + n) ∷ [] else rest ++ (b'0' + n % 10) ∷ []

-- Twenty digits are enough for a 64-bit number.
unfoldable pub decimal : ℕ → CString
unfolding digits
decimal n = digits 20 n

unfoldable pub decimal_int : ℤ → CString
unfolding decimal
decimal_int (pos n) = decimal n
decimal_int (negsuc n) = b'-' ∷ decimal (n + 1)

-- The number that a row of digits stands for, behind a number already read.
unfoldable pub value_from : ℕ → CString → ℕ
value_from n [] = n
value_from n (c ∷ s) = value_from (n * 10 + (c - b'0')) s

abbrev pub value : CString → ℕ
value = value_from 0

value_from-append : (n : ℕ) (s t : CString) → value_from n (s ++ t) ≡ value_from (value_from n s) t
unfolding value_from
value_from-append n [] t = refl
value_from-append n (c ∷ s) t = value_from-append (n * 10 + (c - b'0')) s t

value-digits : (fuel n : ℕ) → n < 10 ^ fuel → value (digits fuel n) ≡ n
unfolding digits value_from
value-digits zero n h = omega arith
value-digits (suc fuel) n h = elim (Bool-cases (ltb n 10)) [
  | inl small ↦ rw small (omega arith)
  | inr large ↦
      rw (large, value_from-append 0 (digits fuel (n / 10)) ((b'0' + n % 10) ∷ []))
        (rw (value-digits fuel (n / 10) (omega (arith, pow-suc 10 fuel))) (omega arith))
]

length-digits : (fuel n : ℕ) → length (digits fuel n) ≤ fuel
unfolding digits
length-digits zero n = omega arith
length-digits (suc fuel) n = ground (
  arith,
  length-digits fuel (n / 10),
  length-append {0} (digits fuel (n / 10)) ((b'0' + n % 10) ∷ []),
)

pub length-decimal : (n : ℕ) → length (decimal n) ≤ 20
unfolding decimal
length-decimal n = length-digits 20 n

pub decimal-pos : (n : ℕ) → 0 < length (decimal n)
unfolding decimal digits
decimal-pos n = ground (arith, length-append {0} (digits 19 (n / 10)) ((b'0' + n % 10) ∷ []))

pub value-decimal : (n : ℕ) → n < 10 ^ 20 → value (decimal n) ≡ n
unfolding decimal
value-decimal n h = value-digits 20 n h
