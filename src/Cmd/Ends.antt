-- ===== src/Cmd/Ends.antt =====
-- Commands that have a result, and what holds of it: one rule for each way to build a command.
use libmq.Base.{◌≡◌, refl, sym, ◌∙◌, Bool, true, false, Option, some, if◌then◌else◌}
use libmq.Cmd.{Cmd, pure, ◌>>=◌, >>=-some}

-- The outcome of a command is a result and a state, of which `Q` holds.
pub record Ends {ℓ} {W A : Type 0} (x : Option (A × W)) (Q : A → W → Type ℓ) : Type ℓ where
  pub result : A
  pub after : W
  pub run : x ≡ some (result, after)
  pub holds : Q result after

module _ {ℓ} {W A : Type 0} where
  pub Ends-eq : {x y : Option (A × W)} {Q : A → W → Type ℓ} → x ≡ y → Ends y Q → Ends x Q
  Ends-eq same e = record {
    result = e.result;
    after = e.after;
    run = same ∙ e.run;
    holds = e.holds;
  }

  pub Ends-pure : (a : A) (w : W) {Q : A → W → Type ℓ} → Q a w → Ends (pure a w) Q
  Ends-pure a w h = record { result = a; after = w; run = refl; holds = h }

  pub Ends-if :
      (b : Bool) (m n : Cmd W A) (w : W) {Q : A → W → Type ℓ}
      → (b ≡ true → Ends (m w) Q)
      → (b ≡ false → Ends (n w) Q)
      → Ends ((if b then m else n) w) Q
  Ends-if true m n w hm hn = hm refl
  Ends-if false m n w hm hn = hn refl

module _ {ℓ κ} {W A B : Type 0} where
  pub Ends-bind :
      (m : Cmd W A) (k : A → Cmd W B) {w : W} {P : A → W → Type ℓ} {Q : B → W → Type κ}
      → Ends (m w) P
      → ((a : A) (w₁ : W) → P a w₁ → Ends (k a w₁) Q)
      → Ends ((m >>= k) w) Q
  Ends-bind m k first rest =
      let e = rest first.result first.after first.holds in
      record {
        result = e.result;
        after = e.after;
        run = >>=-some m k first.run ∙ e.run;
        holds = e.holds;
      }

module _ {ℓ κ} {W A : Type 0} where
  -- What follows from what holds.
  pub Ends-weaken :
      {x : Option (A × W)} {P : A → W → Type ℓ} {Q : A → W → Type κ}
      → ((a : A) (w : W) → P a w → Q a w)
      → Ends x P
      → Ends x Q
  Ends-weaken h e = record {
    result = e.result;
    after = e.after;
    run = e.run;
    holds = h e.result e.after e.holds;
  }

module _ {ℓ} {W A : Type 0} where
  -- What holds of the result holds of the one that is known.
  pub Ends-at :
      {x : Option (A × W)} {Q : A → W → Type ℓ} {a : A} {w : W} → Ends x Q → x ≡ some (a, w) → Q a w
  Ends-at {x} {Q} {a} {w} e known =
      let same : ◌≡◌ {A = Option (A × W)} (some (a, w)) (some (e.result, e.after)) =
        sym known ∙ e.run in
      let r : a ≡ e.result = cc in let s : w ≡ e.after = cc in rw (r, s) e.holds
