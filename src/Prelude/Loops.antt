-- ===== src/Prelude/Loops.antt =====
-- Loops with no bound of their own, with fuel: the body says whether to go on, and with what.
use Prim.Native.Nat.{ℕ, zero, suc, ◌<◌}
use mathlib.Core.Path.{◌≡◌, refl, ◌∙◌, sym, ap}
use mathlib.Core.Logic.{◌⊎◌, inl, inr}
use mathlib.Core.Option.{Option, none, some}
use native.Mathlib.Omega.{arith}
use variable_star_classifica.Prelude.Effects.{World, Effect}

pub data Iteration {ℓ κ} (S : Type ℓ) (A : Type κ) : Type (ℓ ⊔ κ) where
  again : S → Iteration S A
  stop : A → Iteration S A

module _ {ℓ κ μ} {E : Type ℓ} {S : Type κ} {A : Type μ} (body : S → Effect E (Iteration S A)) where
  -- The iterations from what the body has just said; `none` when the fuel ends first.
  unfoldable pub repeat_from : ℕ → Iteration S A × World E → Option A × World E
  repeat_from fuel (stop a, w) = (some a, w)
  repeat_from zero (again s, w) = (none, w)
  repeat_from (suc fuel) (again s, w) = repeat_from fuel (body s w)

  unfoldable pub repeat : ℕ → S → Effect E (Option A)
  unfolding repeat_from
  repeat fuel s w = repeat_from fuel (again s, w)

  -- The body reaches the state t in the world v after k iterations.
  pub data Reaches : ℕ → S → World E → S → World E → Type (ℓ ⊔ κ ⊔ μ) where
    here : {s : S} {w : World E} → Reaches 0 s w s w
    there :
        {k : ℕ} {s t u : S} {w v x : World E}
        → body s w ≡ (again u, x)
        → Reaches k u x t v
        → Reaches (suc k) s w t v

  -- An iteration and the loop's fuel after it.
  split_iteration :
      (r : Iteration S A × World E)
      → ((a : A) × (x : World E) × (r ≡ (stop a, x)))
        ⊎ ((s : S) × (x : World E) × (r ≡ (again s, x)))
  split_iteration (stop a, x) = inl (a, x, refl)
  split_iteration (again s, x) = inr (s, x, refl)

  -- Enough fuel: the loop stops where its body does, however much more fuel there is.
  pub repeat_complete :
      (fuel : ℕ) {k : ℕ} {s t : S} {w v x : World E} {a : A}
      → Reaches k s w t v
      → body t v ≡ (stop a, x)
      → k < fuel
      → repeat fuel s w ≡ (some a, x)
  unfolding repeat repeat_from
  repeat_complete zero r e h = absurd (omega arith)
  repeat_complete (suc fuel) here e h = ap (repeat_from fuel) e
  repeat_complete (suc fuel) (there f r) e h =
      ap (repeat_from fuel) f ∙ repeat_complete fuel r e (omega arith)

  -- What the loop returns is what its body said in a state that it reaches within the fuel.
  pub repeat_sound :
      (fuel : ℕ) (s : S) (w x : World E) (a : A)
      → repeat fuel s w ≡ (some a, x)
      → (k : ℕ) × (t : S) × (v : World E) × (k < fuel)
        × Reaches k s w t v
        × (body t v ≡ (stop a, x))
  unfolding repeat repeat_from
  repeat_sound zero s w x a h = absurd (cc h)
  repeat_sound (suc fuel) s w x a h = elim (split_iteration (body s w)) [
    | inl (b, y, e) ↦ (0, s, w, omega arith, here, e ∙ cc (h, e))
    | inr (u, y, e) ↦
        let (k, t, v, l, r, f) = repeat_sound fuel u y x a (sym (ap (repeat_from fuel) e) ∙ h) in
        (suc k, t, v, omega arith, there e r, f)
  ]

  -- What every iteration that goes on keeps holds in every state that the loop reaches.
  pub Reaches-invariant {ν} :
      (P : S → World E → Type ν)
      → ((s u : S) (w x : World E) → body s w ≡ (again u, x) → P s w → P u x)
      → {k : ℕ} {s t : S} {w v : World E} → Reaches k s w t v
      → P s w
      → P t v
  Reaches-invariant P keep here p = p
  Reaches-invariant P keep (there {s = s} {u = u} {w = w} {x = x} e r) p =
      Reaches-invariant P keep r (keep s u w x e p)
