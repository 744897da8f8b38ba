-- ===== src/Startup/Tables.antt =====
-- What the initialisation of engine.c does to the table of engines.
use libmq.Base.{
  ℕ, suc, ◌+◌, ◌<◌, ◌≡◌, refl, sym, ◌∙◌, ap, inl, inr, false, List, [], ◌∷◌, Option, none, some,
  arith, length, ℤ, pos, Option-cases, Bool-cases,
}
use libmq.Base.CString.{CString, codes, same, same_self, eq_of_same}
use libmq.World.{Slot, World}
use libmq.Registry.{Build, builtins, register, register_locked, store}
use libmq.Registry.Slots.{size_max}
use libmq.Registry.Table.{Table, lookup, table, bind}
use libmq.Registry.Dispatch.{Colonless, AllColonless}
use libmq.Registry.History.{Inv, registers, step, step-Keeps, register_succeeds}

-- The schemes of the engines that are compiled in.
abbrev pub builtin_table : (proton : Option ℕ) → Table → Table
builtin_table none t = t
builtin_table (some construct) t =
    bind (codes "amqps") construct 0 (bind (codes "amqp") construct 0 t)

module _ {E : Type 0} where
  -- The allocator never refuses, and the array has room.
  pub record Ready (n : ℕ) (w : World E) : Type 0 where
    pub inv : Inv w
    pub room : (n : ℕ) → w.libc.refuses n ≡ false
    pub small : length w.engines + n < size_max

  register_others :
      (s : CString) (construct handle : ℕ) (w : World E)
      → let w' = (register s construct handle w).1 in
        (w'.heap ≡ w.heap) × (w'.initialised ≡ w.initialised)
  unfolding register register_locked store
  register_others s construct handle w = ground arith

  -- What a registration leaves of a process that is ready for one.
  pub record Registered (n : ℕ) (s : CString) (construct handle : ℕ) (w : World E) (r : ℤ × World E)
      : Type 0 where
    pub result : r.0 ≡ pos 0
    pub ready : Ready n r.1
    pub entry : table r.1 ≡ bind s construct handle (table w)
    pub heap : r.1.heap ≡ w.heap

  pub register-Registered :
      (n : ℕ) (s : CString) (construct handle : ℕ) (w : World E)
      → Ready (suc n) w
      → Registered n s construct handle w (register s construct handle w)
  unfolding step
  register-Registered n s construct handle w v =
      let small : length w.engines < size_max = omega (arith, v.small) in
      let k = step-Keeps w v.inv (registers s construct handle) small in
      let (result, entry) = register_succeeds s construct handle w v.room small in
      record {
        result = result;
        ready = record {
          inv = k.inv;
          room = λ m. rw k.refuses (v.room m);
          small = omega (arith, k.size, v.small);
        };
        entry = entry;
        heap = (register_others s construct handle w).0;
      }

  -- The engines that are compiled in, at most two.
  pub record Built (proton : Option ℕ) (w w' : World E) : Type 0 where
    pub ready : Ready 1 w'
    pub entries : table w' ≡ builtin_table proton (table w)
    pub heap : w'.heap ≡ w.heap

module _ {E Mq : Type 0} (b : Build E Mq) where
  pub builtins-Built : (w : World E) → Ready 3 w → Built b.proton w (builtins b w)
  builtins-Built w v = elim (Option-cases b.proton) [
    | inl without ↦ rw without (record {
      ready = record { inv = v.inv; room = v.room; small = omega (arith, v.small) };
      entries = refl;
      heap = refl;
    })
    | inr (k, with) ↦
        let first = register-Registered 2 (codes "amqp") k 0 w v in
        let second =
          register-Registered 1 (codes "amqps") k 0 (register (codes "amqp") k 0 w).1 first.ready in
        rw with (record {
          ready = second.ready;
          entries = second.entry ∙ ap (bind (codes "amqps") k 0) first.entry;
          heap = second.heap ∙ first.heap;
        })
  ]

-- A table in which every scheme is free of colons is one in which every slot is.
pub AllColonless-of_table :
    (es : List Slot)
    → ((s : CString) (p : ℕ × ℕ) → lookup s es ≡ some p → Colonless s)
    → AllColonless es
unfolding lookup
AllColonless-of_table [] h = tt
AllColonless-of_table (e ∷ es) h = (
  (λ s named. h s (e.construct, e.handle) (rw (named, lookup) (rw (same_self s)))),
  AllColonless-of_table es (λ s p found. elim (Option-cases e.scheme) [
    | inl gap ↦ h s p (rw (gap, lookup) found)
    | inr (u, named) ↦ elim (Bool-cases (same u s)) [
      | inl it ↦ h s (e.construct, e.handle) (rw (named, lookup) (rw it))
      | inr other ↦ h s p (rw (named, lookup) (rw other found))
    ]
  ]),
)

-- Binding a scheme without a colon keeps a table free of colons.
pub bind-Colonless :
    (s : CString) (construct handle : ℕ) (t : Table)
    → Colonless s
    → ((u : CString) (p : ℕ × ℕ) → t u ≡ some p → Colonless u)
    → (u : CString) (p : ℕ × ℕ) → bind s construct handle t u ≡ some p
    → Colonless u
bind-Colonless s construct handle t plain h u p found = elim (Bool-cases (same s u)) [
  | inl it ↦ rw (sym (eq_of_same s u it)) plain
  | inr other ↦ h u p (rw other at found)
]
