-- ===== src/Base/Cells.antt =====
-- A store of objects by address, as a function, and writes to it.
use mathlib.Core.Path.{fun_ext}
use Prim.Native.Nat.{ℕ}
use mathlib.Core.Path.{◌≡◌}
use mathlib.Core.Option.{Option, none, some}
use native.Mathlib.Omega.{arith}
use libmq.Base.Tests.{◌==◌, if◌then◌else◌}

abbrev pub put : {A : Type 0} → ℕ → A → (ℕ → A) → ℕ → A
put p v f q = if p == q then v else f q

module _ {A : Type 0} (p : ℕ) where
  pub put_self : (f : ℕ → Option A) {a : A} → f p ≡ some a → put p (some a) f ≡ f
  put_self f h = fun_ext λ q. ground arith

  pub put_twice : (a b : Option A) (f : ℕ → Option A) → put p b (put p a f) ≡ put p b f
  put_twice a b f = fun_ext λ q. ground arith

  -- Taking back a cell that was empty.
  pub put_none : (a : Option A) (f : ℕ → Option A) → f p ≡ none → put p none (put p a f) ≡ f
  put_none a f h = fun_ext λ q. ground arith

  pub get_put : (a : Option A) (f : ℕ → Option A) → put p a f p ≡ a
  get_put a f = ground arith
