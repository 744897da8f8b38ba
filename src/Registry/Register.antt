-- ===== src/Registry/Register.antt =====
-- The ways in which `mq_register` can end, each with the state that it leaves: the rule
-- `register_cases` is what the properties of registration are proved by.
use native.Mathlib.Nat.{le_trans}
use libmq.Base.{
  ℕ, ◌<◌, ◌≡◌, ◌∙◌, inl, inr, [], ◌∷◌, ◌++◌, none, some, true, false, arith, length, set, ℤ, pos,
  minus_one, Option-cases, Bool-cases,
}
use libmq.Base.CString.{CString}
use libmq.Libc.{exhausted, after_alloc}
use libmq.World.{World}
use libmq.Registry.{register, store, after_grow, lock_write, release_lock}
use libmq.Registry.Slots.{size_max, rebind}
use libmq.Registry.Scanning.{entry, first, last_vacant, last_vacant-lt, scan_lem}

module _ {E : Type 0} (s : CString) (construct handle : ℕ) (w : World E) where
  -- The scheme has a slot, whose constructor and handle are replaced.
  abbrev pub rebound : ℕ → World E
  rebound k = release_lock (record (lock_write w) { engines = rebind k construct handle w.engines })

  -- `strdup` fails.
  abbrev pub no_name : World E
  no_name = release_lock (record (lock_write w) { libc = after_alloc w.libc })

  -- A vacant slot is used again.
  abbrev pub reused : ℕ → World E
  reused k = release_lock (record (lock_write w) {
    libc = after_alloc w.libc;
    engines = set w.engines k (entry s construct handle);
  })

  -- `realloc` fails; the copy of the scheme stays allocated.
  abbrev pub no_slot : World E
  no_slot =
      release_lock (record (lock_write w) { libc = after_grow w.engines (after_alloc w.libc) })

  -- The array grows by one slot.
  abbrev pub grown : World E
  grown = release_lock (record (lock_write w) {
    libc = after_grow w.engines (after_alloc w.libc);
    engines = w.engines ++ entry s construct handle ∷ [];
  })

  register_found :
      {k : ℕ} → first s w.engines ≡ some k → register s construct handle w ≡ (pos 0, rebound k)
  unfolding register
  register_found {k} at = ground (arith, scan_lem s w.engines 0 size_max)

  register_refused :
      first s w.engines ≡ none
      → exhausted w.libc ≡ true
      → register s construct handle w ≡ (minus_one, no_name)
  unfolding register
  register_refused missing full = ground (arith, scan_lem s w.engines 0 size_max)

  register_stores :
      first s w.engines ≡ none
      → exhausted w.libc ≡ false
      → register s construct handle w
        ≡ store s construct handle
            (elim (last_vacant w.engines) [ none ↦ size_max | some k ↦ k ])
            (record (lock_write w) { libc = after_alloc w.libc })
  unfolding register
  register_stores missing room = ground (arith, scan_lem s w.engines 0 size_max)

  store_reuses :
      {k : ℕ}
      → k < size_max
      → store s construct handle k (record (lock_write w) { libc = after_alloc w.libc })
        ≡ (pos 0, reused k)
  unfolding store
  store_reuses small = ground arith

  store_refused :
      exhausted (after_alloc w.libc) ≡ true
      → store s construct handle size_max (record (lock_write w) { libc = after_alloc w.libc })
        ≡ (minus_one, no_slot)
  unfolding store
  store_refused full = ground arith

  store_grows :
      exhausted (after_alloc w.libc) ≡ false
      → store s construct handle size_max (record (lock_write w) { libc = after_alloc w.libc })
        ≡ (pos 0, grown)
  unfolding store
  store_grows room = ground arith

  module _ (P : ℤ × World E → Type 0) where
    store_cases :
        length w.engines < size_max
        → ((k : ℕ) → last_vacant w.engines ≡ some k → P (pos 0, reused k))
        → (exhausted (after_alloc w.libc) ≡ true → P (minus_one, no_slot))
        → (exhausted (after_alloc w.libc) ≡ false → P (pos 0, grown))
        → P (
            store s construct handle
              (elim (last_vacant w.engines) [ none ↦ size_max | some k ↦ k ])
              (record (lock_write w) { libc = after_alloc w.libc }))
    store_cases small reuses refused grows = elim (Option-cases (last_vacant w.engines)) [
      | inr (k, gap) ↦
          rw (gap, store_reuses (le_trans (last_vacant-lt w.engines gap) (omega arith)))
            (reuses k gap)
      | inl dense ↦ rw dense (elim (Bool-cases (exhausted (after_alloc w.libc))) [
        | inl full ↦ rw (store_refused full) (refused full)
        | inr room ↦ rw (store_grows room) (grows room)
      ])
    ]

    pub register_cases :
        length w.engines < size_max
        → ((k : ℕ) → first s w.engines ≡ some k → P (pos 0, rebound k))
        → (exhausted w.libc ≡ true → P (minus_one, no_name))
        → (first s w.engines ≡ none
            → (k : ℕ) → last_vacant w.engines ≡ some k
            → P (pos 0, reused k))
        → (exhausted (after_alloc w.libc) ≡ true → P (minus_one, no_slot))
        → (first s w.engines ≡ none → P (pos 0, grown))
        → P (register s construct handle w)
    register_cases small finds refused reuses stops grows =
        elim (Option-cases (first s w.engines)) [
          | inr (k, at) ↦ rw (register_found at) (finds k at)
          | inl missing ↦ elim (Bool-cases (exhausted w.libc)) [
            | inl full ↦ rw (register_refused missing full) (refused full)
            | inr room ↦
                rw (register_stores missing room)
                  (store_cases small (reuses missing) stops (λ _. grows missing))
          ]
        ]

  pub register-no_slot :
      first s w.engines ≡ none
      → last_vacant w.engines ≡ none
      → exhausted w.libc ≡ false
      → exhausted (after_alloc w.libc) ≡ true
      → register s construct handle w ≡ (minus_one, no_slot)
  register-no_slot missing dense room full =
      register_stores missing room ∙ rw dense (store_refused full)
