-- ===== src/Registry/Unregister.antt =====
-- The loops of the three functions that unregister: what they leave of the table, what they
-- report, and what they free.
use libmq.Base.{
  ℕ, suc, ◌+◌, ◌-◌, ◌≡◌, refl, inl, inr, Bool, false, List, [], ◌∷◌, none, some, ◌==◌, arith,
  if◌then◌else◌, Option-cases,
}
use libmq.Base.CString.{CString, same_iff}
use libmq.Libc.{Libc, after_free}
use libmq.World.{Slot}
use libmq.Registry.Slots.{passes, is_registered, clear_first, clear_all}
use libmq.Registry.Table.{lookup, drop_where, Distinct}

-- How many slots pass the test.
pub count : (Slot → Bool) → List Slot → ℕ
count test [] = 0
count test (e ∷ es) = (if test e then 1 else 0) + count test es

module _ (test : Slot → Bool) where
  pub clear_all-count :
      (n : ℕ) (libc : Libc) (es : List Slot) → (clear_all test n libc es).0 ≡ n + count test es
  unfolding clear_all count
  clear_all-count n libc [] = omega arith
  clear_all-count n libc (e ∷ es) = ground (
    arith,
    clear_all-count (if test e then suc n else n) (if test e then after_free libc else libc) es,
  )

  pub clear_all-blocks :
      (n : ℕ) (libc : Libc) (es : List Slot)
      → (clear_all test n libc es).1.blocks ≡ libc.blocks - count test es
  unfolding clear_all count after_free
  clear_all-blocks n libc [] = omega arith
  clear_all-blocks n libc (e ∷ es) = ground (
    arith,
    clear_all-blocks (if test e then suc n else n) (if test e then after_free libc else libc) es,
  )

pub lookup-clear_all :
    (test : CString → ℕ × ℕ → Bool) (t : CString) (n : ℕ) (libc : Libc) (es : List Slot)
    → Distinct es
    → lookup t (clear_all (passes test) n libc es).2 ≡ drop_where test (λ u. lookup u es) t
unfolding clear_all lookup
lookup-clear_all test t n libc [] d = refl
lookup-clear_all test t n libc (e ∷ es) d = elim (Option-cases e.scheme) [
  | inl gap ↦ ground (arith, lookup-clear_all test t n libc es d.1)
  | inr (u, named) ↦ ground (
    arith,
    same_iff u t,
    d.0 u named,
    lookup-clear_all test t (if passes test e then suc n else n)
        (if passes test e then after_free libc else libc) es d.1,
  )
]

module _ (s : CString) (handle : ℕ) where
  pub lookup-clear_first :
      (t : CString) (libc : Libc) (es : List Slot)
      → Distinct es
      → lookup t (clear_first (passes (is_registered s handle)) libc es).2
        ≡ drop_where (is_registered s handle) (λ u. lookup u es) t
  unfolding clear_first lookup
  lookup-clear_first t libc [] d = refl
  lookup-clear_first t libc (e ∷ es) d = elim (Option-cases e.scheme) [
    | inl gap ↦ ground (arith, lookup-clear_first t libc es d.1)
    | inr (u, named) ↦ ground (
      arith,
      same_iff u t,
      same_iff u s,
      same_iff t s,
      d.0 u named,
      lookup-clear_first t libc es d.1,
    )
  ]

  pub clear_first-found :
      (libc : Libc) (es : List Slot)
      → Distinct es
      → (clear_first (passes (is_registered s handle)) libc es).0
        ≡ elim (lookup s es) [ none ↦ false | some p ↦ p.1 == handle ]
  unfolding clear_first lookup
  clear_first-found libc [] d = refl
  clear_first-found libc (e ∷ es) d = elim (Option-cases e.scheme) [
    | inl gap ↦ ground (arith, clear_first-found libc es d.1)
    | inr (u, named) ↦ ground (arith, same_iff u s, d.0 u named, clear_first-found libc es d.1)
  ]
