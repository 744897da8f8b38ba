-- ===== src/Registry/History.antt =====
-- Any sequence of calls that change the array of engines: what holds after all of them.
use libmq.Base.{
  ℕ, zero, suc, ◌+◌, ◌≤◌, ◌<◌, ◌≡◌, refl, ◌∙◌, ap, inl, inr, List, [], ◌∷◌, Bool, arith,
  if◌then◌else◌, false, length, length-set, length-append, ℤ, pos,
}
use libmq.Base.CString.{CString}
use libmq.Libc.{Libc, after_alloc, after_realloc, after_free}
use libmq.World.{World, Slot}
use libmq.World.Locks.{idle, wrlock, unlock}
use libmq.Registry.{
  register, unregister, unregister_where, after_grow, unregister_constructor, unregister_all,
}
use libmq.Registry.Slots.{
  size_max, rebind, passes, is_registered, has_construct, has_handle, clear_first, clear_all,
}
use libmq.Registry.Table.{Table, table, bind, drop_where, Distinct}
use libmq.Registry.Scanning.{entry}
use libmq.Registry.Register.{register_cases}
use libmq.Registry.Distinctness.{
  rebind-Distinct, set-Distinct, append-Distinct, clear_first-Distinct, clear_all-Distinct,
}
use libmq.Registry.Refinement.{
  register-bind, unregister-drop_where, unregister_constructor-drop_where,
  unregister_all-drop_where,
}

pub data Call : Type 0 where
  registers : CString → (construct handle : ℕ) → Call
  unregisters : CString → (handle : ℕ) → Call
  unregisters_constructor : (construct : ℕ) → Call
  unregisters_all : (handle : ℕ) → Call

module _ {E : Type 0} where
  unfoldable pub step : Call → World E → ℤ × World E
  step (registers s construct handle) w = register s construct handle w
  step (unregisters s handle) w = unregister s handle w
  step (unregisters_constructor construct) w = unregister_constructor construct w
  step (unregisters_all handle) w = unregister_all handle w

  unfoldable pub run : List Call → World E → World E
  run [] w = w
  run (c ∷ cs) w = run cs (step c w).1

-- What a call promises of the table.
unfoldable pub meaning : Call → Table → Table
meaning (registers s construct handle) t = bind s construct handle t
meaning (unregisters s handle) t = drop_where (is_registered s handle) t
meaning (unregisters_constructor construct) t = drop_where (has_construct construct) t
meaning (unregisters_all handle) t = drop_where (has_handle handle) t

unfoldable pub meanings : List Call → Table → Table
meanings [] t = t
meanings (c ∷ cs) t = meanings cs (meaning c t)

-- Between two calls: nobody holds the lock, and no scheme has two slots.
pub record Inv {E : Type 0} (w : World E) : Type 0 where
  pub unlocked : w.enginelock ≡ idle
  pub distinct : Distinct w.engines

-- What a call keeps. The array grows by one slot at most, and the allocator is not tampered with.
pub record Keeps {E : Type 0} (w w' : World E) : Type 0 where
  pub inv : Inv w'
  pub size : length w'.engines ≤ suc (length w.engines)
  pub refuses : w'.libc.refuses ≡ w.libc.refuses

length-rebind :
    (k construct handle : ℕ) (es : List Slot) → length (rebind k construct handle es) ≡ length es
unfolding rebind
length-rebind k construct handle [] = refl
length-rebind zero construct handle (e ∷ es) = refl
length-rebind (suc k) construct handle (e ∷ es) = ap suc (length-rebind k construct handle es)

clear_first_keeps :
    (test : Slot → Bool) (libc : Libc) (es : List Slot)
    → let (_, libc', es') = clear_first test libc es in
      (length es' ≡ length es) × (libc'.refuses ≡ libc.refuses)
unfolding clear_first after_free
clear_first_keeps test libc [] = (refl, refl)
clear_first_keeps test libc (e ∷ es) = ground (arith, clear_first_keeps test libc es)

clear_all_keeps :
    (test : Slot → Bool) (n : ℕ) (libc : Libc) (es : List Slot)
    → let (_, libc', es') = clear_all test n libc es in
      (length es' ≡ length es) × (libc'.refuses ≡ libc.refuses)
unfolding clear_all after_free
clear_all_keeps test n libc [] = (refl, refl)
clear_all_keeps test n libc (e ∷ es) = ground (
  arith,
  clear_all_keeps test (if test e then suc n else n) (if test e then after_free libc else libc) es,
)

after_alloc-refuses : (c : Libc) → (after_alloc c).refuses ≡ c.refuses
unfolding after_alloc
after_alloc-refuses c = ground arith

after_grow-refuses : (es : List Slot) (c : Libc) → (after_grow es c).refuses ≡ c.refuses
unfolding after_grow after_alloc after_realloc
after_grow-refuses [] c = ground arith
after_grow-refuses (e ∷ es) c = ground arith

module _ {E : Type 0} (w : World E) (v : Inv w) where
  released : unlock (wrlock w.enginelock) ≡ idle
  unfolding unlock wrlock
  released = rw v.unlocked

  register-Keeps :
      (s : CString) (construct handle : ℕ)
      → length w.engines < size_max
      → Keeps w (register s construct handle w).1
  register-Keeps s construct handle small =
      register_cases s construct handle w (λ r. Keeps w r.1) small
        (λ k at. record {
          inv = record {
            unlocked = released;
            distinct = rebind-Distinct k construct handle w.engines v.distinct;
          };
          size = omega (arith, length-rebind k construct handle w.engines);
          refuses = refl;
        })
        (λ _. record {
          inv = record { unlocked = released; distinct = v.distinct };
          size = omega arith;
          refuses = after_alloc-refuses w.libc;
        })
        (λ missing k gap. record {
          inv = record {
            unlocked = released;
            distinct = set-Distinct s w.engines construct handle missing gap v.distinct;
          };
          size = omega (arith, length-set {0} w.engines k (entry s construct handle));
          refuses = after_alloc-refuses w.libc;
        })
        (λ _. record {
          inv = record { unlocked = released; distinct = v.distinct };
          size = omega arith;
          refuses = after_grow-refuses w.engines (after_alloc w.libc) ∙ after_alloc-refuses w.libc;
        })
        (λ missing. record {
          inv = record {
            unlocked = released;
            distinct = append-Distinct s w.engines construct handle missing v.distinct;
          };
          size = omega (arith, length-append {0} w.engines (entry s construct handle ∷ []));
          refuses = after_grow-refuses w.engines (after_alloc w.libc) ∙ after_alloc-refuses w.libc;
        })

  unregister-Keeps : (s : CString) (handle : ℕ) → Keeps w (unregister s handle w).1
  unfolding unregister
  unregister-Keeps s handle =
      let test = passes (is_registered s handle) in
      record {
        inv = record {
          unlocked = released;
          distinct = clear_first-Distinct test w.libc w.engines v.distinct;
        };
        size = omega (arith, (clear_first_keeps test w.libc w.engines).0);
        refuses = (clear_first_keeps test w.libc w.engines).1;
      }

  unregister_where-Keeps : (test : Slot → Bool) → Keeps w (unregister_where test w).1
  unfolding unregister_where
  unregister_where-Keeps test = record {
    inv = record {
      unlocked = released;
      distinct = clear_all-Distinct test 0 w.libc w.engines v.distinct;
    };
    size = omega (arith, (clear_all_keeps test 0 w.libc w.engines).0);
    refuses = (clear_all_keeps test 0 w.libc w.engines).1;
  }

  pub step-Keeps : (c : Call) → length w.engines < size_max → Keeps w (step c w).1
  unfolding step unregister_constructor unregister_all
  step-Keeps (registers s construct handle) small = register-Keeps s construct handle small
  step-Keeps (unregisters s handle) small = unregister-Keeps s handle
  step-Keeps (unregisters_constructor construct) small =
      unregister_where-Keeps (passes (has_construct construct))
  step-Keeps (unregisters_all handle) small = unregister_where-Keeps (passes (has_handle handle))

module _ {E : Type 0} where
  -- Any list of calls of mq_register and the three functions that unregister, whatever the
  -- allocator answers, leaves the lock free and no scheme in two slots, if both held before and the
  -- array stays below SIZE_MAX slots; the array grows by one slot for each call at most.
  pub run-Inv :
      (cs : List Call) (w : World E)
      → Inv w
      → length w.engines + length cs < size_max
      → Inv (run cs w) × (length (run cs w).engines ≤ length w.engines + length cs)
  unfolding run
  run-Inv [] w v small = (v, omega arith)
  run-Inv (c ∷ cs) w v small =
      let k = step-Keeps w v c (omega arith) in
      let rest = run-Inv cs (step c w).1 k.inv (omega (arith, k.size)) in
      (rest.0, omega (arith, rest.1, k.size))

  -- A registration succeeds if the allocator refuses nothing.
  pub register_succeeds :
      (s : CString) (construct handle : ℕ) (w : World E)
      → ((n : ℕ) → w.libc.refuses n ≡ false)
      → length w.engines < size_max
      → let (r, w') = register s construct handle w in
        (r ≡ pos 0) × (table w' ≡ bind s construct handle (table w))
  register_succeeds s construct handle w room small =
      elim (register-bind s construct handle w small) [
        | inl h ↦ h
        | inr (_, _, inl full) ↦ cc (room w.libc.requests)
        | inr (_, _, inr full) ↦
            let refused = (rw after_alloc-refuses at full) in
            cc (room (after_alloc w.libc).requests)
      ]

  pub step-meaning :
      (c : Call) (w : World E)
      → Inv w
      → ((n : ℕ) → w.libc.refuses n ≡ false)
      → length w.engines < size_max
      → table (step c w).1 ≡ meaning c (table w)
  unfolding step meaning
  step-meaning (registers s construct handle) w v room small =
      (register_succeeds s construct handle w room small).1
  step-meaning (unregisters s handle) w v room small =
      (unregister-drop_where w v.distinct s handle).0
  step-meaning (unregisters_constructor construct) w v room small =
      (unregister_constructor-drop_where w v.distinct construct).0
  step-meaning (unregisters_all handle) w v room small =
      (unregister_all-drop_where w v.distinct handle).0

  -- Any list of calls of mq_register and the three functions that unregister refines the same list
  -- on a partial function from schemes to constructor and handle: on a process whose lock is free
  -- and whose schemes are distinct, with an allocator that refuses nothing and an array that stays
  -- below SIZE_MAX slots, the table after the calls is the one that `bind` and `drop_where`
  -- describe.
  pub run-meanings :
      (cs : List Call) (w : World E)
      → Inv w
      → ((n : ℕ) → w.libc.refuses n ≡ false)
      → length w.engines + length cs < size_max
      → table (run cs w) ≡ meanings cs (table w)
  unfolding run meanings
  run-meanings [] w v room small = refl
  run-meanings (c ∷ cs) w v room small =
      let k = step-Keeps w v c (omega arith) in
      run-meanings cs (step c w).1 k.inv (λ n. rw k.refuses (room n)) (omega (arith, k.size))
      ∙ ap (meanings cs) (step-meaning c w v room (omega arith))
