-- ===== src/Registry/Table.antt =====
-- The table of engines seen as a partial function from schemes to constructor and handle: what
-- the functions of engine.c promise, with the order of the slots and the vacant ones forgotten.
use libmq.Base.{ℕ, ◌≡◌, Bool, true, false, List, [], ◌∷◌, Option, none, some, if◌then◌else◌}
use libmq.Base.CString.{CString, same}
use libmq.World.{Slot, World}

abbrev pub Table : Type 0
Table = CString → Option (ℕ × ℕ)

-- The constructor and the handle of the first slot with the scheme.
unfoldable pub lookup : CString → List Slot → Option (ℕ × ℕ)
lookup s [] = none
lookup s (e ∷ es) = elim e.scheme [
  | none ↦ lookup s es
  | some t ↦ elim (same t s) [ true ↦ some (e.construct, e.handle) | false ↦ lookup s es ]
]

abbrev pub table : {E : Type 0} → World E → Table
table w s = lookup s w.engines

-- What registration promises.
abbrev pub bind : CString → (construct handle : ℕ) → Table → Table
bind s construct handle t s' = if same s s' then some (construct, handle) else t s'

-- What the three ways to unregister promise: the entries that pass a test go.

abbrev pub drop_where : (CString → ℕ × ℕ → Bool) → Table → Table
drop_where test t s = elim (t s) [ none ↦ none | some p ↦ if test s p then none else some p ]

-- No scheme stands in two slots.
abbrev pub Distinct : List Slot → Type 0
Distinct [] = Unit {0}
Distinct (e ∷ es) = ((s : CString) → e.scheme ≡ some s → lookup s es ≡ none) × Distinct es
