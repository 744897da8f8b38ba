-- ===== src/Cmd.antt =====
-- Commands on a state, with `none` for undefined behaviour, such as a read through a pointer to
-- a freed object.
pub mod Ends
use libmq.Base.{◌≡◌, ◌∙◌, sym, inl, inr, Option, none, some, Option-cases}

abbrev pub Cmd : Type 0 → Type 0 → Type 0
Cmd W A = W → Option (A × W)

module _ {W : Type 0} where
  abbrev pub pure : {A : Type 0} → A → Cmd W A
  pure a w = some (a, w)

  infixl 5 ◌>>=◌ ◌>>◌
  abbrev pub ◌>>=◌ : {A B : Type 0} → Cmd W A → (A → Cmd W B) → Cmd W B
  ◌>>=◌ m f w = elim (m w) [ none ↦ none | some (a, w') ↦ f a w' ]

  abbrev pub ◌>>◌ : {A B : Type 0} → Cmd W A → Cmd W B → Cmd W B
  m >> k = m >>= λ _. k

-- A command runs the rest on what its first step returns.
pub >>=-some :
    {W A B : Type 0} (m : Cmd W A) (k : A → Cmd W B) {w w' : W} {a : A}
    → m w ≡ some (a, w')
    → (m >>= k) w ≡ k a w'
>>=-some m k e = rw (e, ◌>>=◌)

-- So does one whose first step ends alike in two states.
pub >>=-same :
    {W A B : Type 0} (m : Cmd W A) (k : A → Cmd W B) {v w : W}
    → m v ≡ m w
    → (m >>= k) v ≡ (m >>= k) w
>>=-same m k e = rw (e, ◌>>=◌)
