-- ===== src/Prelude/Keys.antt =====
-- Go maps as association lists, and sets (maps to struct{}) as lists, over keys that can be compared.
use mathlib.Core.Path.{◌≡◌, refl}
use mathlib.Core.Logic.{◌↔◌}
use mathlib.Core.Bool.{Bool, true, false, not, ◌&&◌, ◌||◌}
use mathlib.Core.Option.{Option, none, some}
use mathlib.Core.List.{List, [], ◌∷◌}
use native.Mathlib.Omega.{arith}
use variable_star_classifica.Prelude.Tests.{if◌then◌else◌}
use variable_star_classifica.Prelude.Int.{ℤ, eqb_ℤ, eqb_ℤ_iff}
use variable_star_classifica.Prelude.Bytes.{Text, eqb_text, eqb_text_iff}

-- Go's == at a comparable type.
pub record Eq {ℓ} (A : Type ℓ) : Type ℓ where
  pub beq : A → A → Bool
  pub beq_iff : (a b : A) → (beq a b ≡ true) ↔ (a ≡ b)

instance abbrev pub int_eq : Eq ℤ
int_eq = record { beq = eqb_ℤ; beq_iff = eqb_ℤ_iff }

instance abbrev pub text_eq : Eq Text
text_eq = record { beq = eqb_text; beq_iff = eqb_text_iff }

module _ {ℓ} {K : Type ℓ} ⦃e : Eq K⦄ where
  -- _, ok := set[a]
  abbrev pub contains : K → List K → Bool
  contains a [] = false
  contains a (x ∷ xs) = e.beq x a || contains a xs

  -- delete(set, a)
  abbrev pub delete : K → List K → List K
  delete a [] = []
  delete a (x ∷ xs) = if e.beq x a then delete a xs else x ∷ delete a xs

  pub contains-delete :
      (a b : K) (xs : List K) → contains b (delete a xs) ≡ (not (e.beq a b) && contains b xs)
  contains-delete a b [] = ground arith
  contains-delete a b (x ∷ xs) =
      ground (arith, contains-delete a b xs, e.beq_iff x a, e.beq_iff x b, e.beq_iff a b)

module _ {ℓ κ} {K : Type ℓ} {V : Type κ} ⦃e : Eq K⦄ where
  -- v, ok := m[k]
  abbrev pub lookup : K → List (K × V) → Option V
  lookup k [] = none
  lookup k ((j, v) ∷ m) = if e.beq j k then some v else lookup k m

  -- m[k] = v
  abbrev pub insert : K → V → List (K × V) → List (K × V)
  insert k v [] = (k, v) ∷ []
  insert k v ((j, w) ∷ m) = if e.beq j k then (k, v) ∷ m else (j, w) ∷ insert k v m

  pub lookup-insert :
      (k j : K) (v : V) (m : List (K × V))
      → lookup j (insert k v m) ≡ (if e.beq k j then some v else lookup j m)
  lookup-insert k j v [] = refl
  lookup-insert k j v ((i, w) ∷ m) =
      ground (arith, e.beq_iff k j, e.beq_iff i k, e.beq_iff i j, lookup-insert k j v m)
