-- ===== src/Prelude/Effects.antt =====
-- Code with effects: what happens outside the program is asked of the environment, which answers by
-- the number of answers it gave before (so it may answer differently each time), and what the program
-- does is written into a trace, the latest event first.
use Prim.Native.Nat.{ℕ, ◌+◌}
use mathlib.Core.List.{List, ◌∷◌}

pub record World {ℓ} (E : Type ℓ) : Type ℓ where
  pub tick : ℕ
  pub trace : List E

abbrev pub Effect {ℓ κ} : Type ℓ → Type κ → Type (ℓ ⊔ κ)
Effect E A = World E → A × World E

module _ {ℓ κ} {E : Type ℓ} {A : Type κ} where
  abbrev pub pure : A → Effect E A
  pure a w = (a, w)

  -- A question that leaves no event.
  abbrev pub ask : (ℕ → A) → Effect E A
  ask answer w = (answer w.tick, record w { tick = w.tick + 1 })

  -- A call: the event says what was asked and what came back.
  abbrev pub call : (ℕ → A) → (A → E) → Effect E A
  call answer event w =
      (answer w.tick, record { tick = w.tick + 1; trace = event (answer w.tick) ∷ w.trace })

module _ {ℓ} {E : Type ℓ} where
  -- An event with no answer.
  abbrev pub emit : E → Effect E (Unit {0})
  emit e w = (tt, record w { trace = e ∷ w.trace })

module _ {ℓ κ μ} {E : Type ℓ} {A : Type κ} {B : Type μ} where
  infixl 5 ◌>>=◌ ◌>>◌
  abbrev pub ◌>>=◌ : Effect E A → (A → Effect E B) → Effect E B
  ◌>>=◌ m f w = let (a, w') = m w in f a w'

  abbrev pub ◌>>◌ : Effect E A → Effect E B → Effect E B
  ◌>>◌ m k w = let (_, w') = m w in k w'
