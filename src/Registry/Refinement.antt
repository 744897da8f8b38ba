-- ===== src/Registry/Refinement.antt =====
-- engine.c refines the table: each function that changes the array changes the table as
-- `Registry.Table` says.
use mathlib.Core.Path.{fun_ext}
use libmq.Base.{
  ℕ, ◌<◌, ◌≡◌, refl, ◌⊎◌, inl, inr, none, some, true, ◌==◌, if◌then◌else◌, length, ℤ, pos,
  minus_one, arith,
}
use libmq.Base.CString.{CString}
use libmq.Libc.{exhausted, after_alloc}
use libmq.World.{World}
use libmq.Registry.{register, unregister, unregister_constructor, unregister_all}
use libmq.Registry.Slots.{size_max, passes, is_registered, has_construct, has_handle}
use libmq.Registry.Table.{table, bind, drop_where, Distinct}
use libmq.Registry.Scanning.{lookup-rebind, lookup-set, lookup-append}
use libmq.Registry.Register.{register_cases}
use libmq.Registry.Unregister.{
  count, clear_all-count, lookup-clear_all, lookup-clear_first, clear_first-found,
}

module _ {E : Type 0} (s : CString) (construct handle : ℕ) (w : World E) where
  abbrev pub Registers : ℤ × World E → Type 0
  Registers (r, w') =
      ((r ≡ pos 0) × (table w' ≡ bind s construct handle (table w)))
      ⊎ ((r ≡ minus_one)
          × (w'.engines ≡ w.engines)
          × ((exhausted w.libc ≡ true) ⊎ (exhausted (after_alloc w.libc) ≡ true)))

  -- With fewer than SIZE_MAX slots, mq_register either returns 0 and binds the scheme, and only it,
  -- to the constructor and the handle, or returns -1 with the array of slots unchanged, and then
  -- the first or the second request to the allocator was refused.
  pub register-bind : length w.engines < size_max → Registers (register s construct handle w)
  register-bind small =
      register_cases s construct handle w Registers small
        (λ k at. inl (refl, fun_ext λ t. lookup-rebind s w.engines construct handle t at))
        (λ full. inr (refl, refl, inl full))
        (λ missing k gap.
          inl (refl, fun_ext λ t. lookup-set s w.engines construct handle t missing gap))
        (λ full. inr (refl, refl, inr full))
        (λ missing. inl (refl, fun_ext λ t. lookup-append s w.engines construct handle t missing))

module _ {E : Type 0} (w : World E) (d : Distinct w.engines) where
  -- With distinct schemes, mq_unregister removes the entry of the scheme if its handle is the given
  -- one and no other entry, and returns 1 if there was such an entry and 0 if not.
  pub unregister-drop_where :
      (s : CString) (handle : ℕ)
      → let (r, w') = unregister s handle w in
        (table w' ≡ drop_where (is_registered s handle) (table w))
        × (r
            ≡ (elim (table w s) [ none ↦ pos 0 | some p ↦ if p.1 == handle then pos 1 else pos 0 ]))
  unfolding unregister
  unregister-drop_where s handle = (
    fun_ext λ t. lookup-clear_first s handle t w.libc w.engines d,
    ground (arith, clear_first-found s handle w.libc w.engines d),
  )

  -- With distinct schemes, mq_unregister_constructor removes the entries with the constructor and
  -- no other, and returns the number of slots in use that had it.
  pub unregister_constructor-drop_where :
      (construct : ℕ)
      → let (r, w') = unregister_constructor construct w in
        (table w' ≡ drop_where (has_construct construct) (table w))
        × (r ≡ pos (count (passes (has_construct construct)) w.engines))
  unfolding unregister_constructor
  unregister_constructor-drop_where construct = (
    fun_ext λ t. lookup-clear_all (has_construct construct) t 0 w.libc w.engines d,
    ground (arith, clear_all-count (passes (has_construct construct)) 0 w.libc w.engines),
  )

  -- With distinct schemes, mq_unregister_all removes the entries with the handle and no other, and
  -- returns the number of slots in use that had it.
  pub unregister_all-drop_where :
      (handle : ℕ)
      → let (r, w') = unregister_all handle w in
        (table w' ≡ drop_where (has_handle handle) (table w))
        × (r ≡ pos (count (passes (has_handle handle)) w.engines))
  unfolding unregister_all
  unregister_all-drop_where handle = (
    fun_ext λ t. lookup-clear_all (has_handle handle) t 0 w.libc w.engines d,
    ground (arith, clear_all-count (passes (has_handle handle)) 0 w.libc w.engines),
  )

  -- With distinct schemes, mq_unregister removes the entry of the scheme if its handle is the given
  -- one and no other entry, and returns 1 if there was such an entry and 0 if not;
  -- mq_unregister_constructor removes the entries with the constructor and no other,
  -- mq_unregister_all those with the handle and no other, and each returns the number of slots in
  -- use that had it.
  pub unregisters-drop_where :
      (s : CString) (handle construct : ℕ)
      → (let (r, w') = unregister s handle w in
          (table w' ≡ drop_where (is_registered s handle) (table w))
          × (r ≡ (elim (table w s) [
            | none ↦ pos 0
            | some p ↦ if p.1 == handle then pos 1 else pos 0
          ])))
        × (let (r, w') = unregister_constructor construct w in
            (table w' ≡ drop_where (has_construct construct) (table w))
            × (r ≡ pos (count (passes (has_construct construct)) w.engines)))
        × (let (r, w') = unregister_all handle w in
            (table w' ≡ drop_where (has_handle handle) (table w))
            × (r ≡ pos (count (passes (has_handle handle)) w.engines)))
  unregisters-drop_where s handle construct = (
    unregister-drop_where s handle,
    unregister_constructor-drop_where construct,
    unregister_all-drop_where handle,
  )
