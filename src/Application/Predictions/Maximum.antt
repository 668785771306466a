-- ===== src/Application/Predictions/Maximum.antt =====
-- internal/application/classification_run_builder.go: firstMaximumIndex finds the first maximum, and the
-- predicted classes are classes.
use variable_star_classifica.Prelude.{
  ℕ, zero, suc, ◌+◌, ◌-◌, ◌≤◌, ◌<◌, ◌≡◌, ◌∙◌, sym, refl, inl, inr, Bool-cases, Bool, true, false,
  List, [], ◌∷◌, Option, none, some, ◌==◌, ltb, ℤ, ◌<ℤ◌, ◌≤ℤ◌, length, get_elem?, arith, All,
}
use variable_star_classifica.Application.LightCurves.{order32}
use variable_star_classifica.Application.Predictions.{
  is_nan32, greater32, first_maximum_from, first_maximum_index, predicted_coarse_class,
  predicted_leaf_class, class_at, coarse_class_by_probability_index,
  leaf_class_by_probability_index,
}
use variable_star_classifica.Domain.Classification.{
  Float32, coarse_class_valid, leaf_class_valid, coarse_probability_count, leaf_probability_count,
}

-- The index i holds the value v, which is above all that stand before it and not below any.
pub record IsFirstMaximum (values : List Float32) (i : ℕ) (v : Float32) : Type 0 where
  pub holds : get_elem? values i ≡ some v
  pub above : (j : ℕ) (u : Float32) → j < i → get_elem? values j ≡ some u → order32 u <ℤ order32 v
  pub greatest : (j : ℕ) (u : Float32) → get_elem? values j ≡ some u → order32 u ≤ℤ order32 v

-- The loop's invariant: the first `index` values have their first maximum where the loop says.
pub record Scanned (values : List Float32) (index : ℕ) (best : Float32) (at : ℕ) : Type 0 where
  within : at < index
  holds : get_elem? values at ≡ some best
  above : (j : ℕ) (u : Float32) → j < at → get_elem? values j ≡ some u → order32 u <ℤ order32 best
  greatest :
      (j : ℕ) (u : Float32) → j < index → get_elem? values j ≡ some u → order32 u ≤ℤ order32 best

AreNumbers : List Float32 → Type 0
AreNumbers values = (j : ℕ) (u : Float32) → get_elem? values j ≡ some u → is_nan32 u ≡ false

le-lt : (a b c : ℤ) → a ≤ℤ b → b <ℤ c → a <ℤ c
le-lt a b c h k = omega arith

lt-le : (a b : ℤ) → a <ℤ b → a ≤ℤ b
lt-le a b h = omega arith

greater32-lt : (v best : Float32) → greater32 v best ≡ true → order32 best <ℤ order32 v
greater32-lt v best h = ground arith

same_value : {A : Type 0} {x y : A} → ◌≡◌ {A = Option A} (some x) (some y) → x ≡ y
same_value h = cc h

module _ (values : List Float32) (clean : AreNumbers values) where
  keep :
      (index : ℕ) (best v : Float32) (at : ℕ)
      → Scanned values index best at
      → get_elem? values index ≡ some v
      → greater32 v best ≡ false
      → Scanned values (index + 1) best at
  unfolding AreNumbers
  keep index best v at s here smaller = record {
    within = omega (arith, s.within);
    holds = s.holds;
    above = s.above;
    greatest = λ j u l e. elim (Bool-cases (j == index)) [
      | inl same ↦
          let at_index : j ≡ index = ground arith in
          let u_is_v : u ≡ v = same_value (sym e ∙ (rw at_index here)) in
          rw u_is_v (ground (arith, clean index v here, clean at best s.holds))
      | inr other ↦ s.greatest j u (ground arith) e
    ];
  }

  move :
      (index : ℕ) (best v : Float32) (at : ℕ)
      → Scanned values index best at
      → get_elem? values index ≡ some v
      → greater32 v best ≡ true
      → Scanned values (index + 1) v index
  move index best v at s here larger = record {
    within = omega arith;
    holds = here;
    above = λ j u l e.
        le-lt (order32 u) (order32 best) (order32 v) (s.greatest j u l e)
          (greater32-lt v best larger);
    greatest = λ j u l e. elim (Bool-cases (j == index)) [
      | inl same ↦
          let at_index : j ≡ index = ground arith in
          let u_is_v : u ≡ v = same_value (sym e ∙ (rw at_index here)) in rw u_is_v (omega arith)
      | inr other ↦ lt-le (order32 u) (order32 v) (
          le-lt (order32 u) (order32 best) (order32 v) (s.greatest j u (ground arith) e)
            (greater32-lt v best larger))
    ];
  }

  -- The values from an index on.
  record From (index : ℕ) (rest : List Float32) : Type 0 where
    each : (i : ℕ) → get_elem? values (index + i) ≡ get_elem? rest i

  From-next :
      (index : ℕ) (v : Float32) (rest : List Float32)
      → From index (v ∷ rest)
      → From (index + 1) rest
  From-next index v rest f = record {
    each =
        λ i. let shift : (index + 1) + i ≡ index + suc i = omega arith in rw shift (f.each (suc i));
  }

  From-here :
      (index : ℕ) (v : Float32) (rest : List Float32)
      → From index (v ∷ rest)
      → get_elem? values index ≡ some v
  From-here index v rest f =
      let zero_off : index + 0 ≡ index = omega arith in rw zero_off at (f.each 0)

  None-after : (index j : ℕ) → From index [] → index ≤ j → get_elem? values j ≡ none
  None-after index j f h =
      let off : index + (j - index) ≡ j = omega arith in rw off at (f.each (j - index))

  Scanned-IsFirstMaximum :
      (index : ℕ) (best : Float32) (at : ℕ)
      → From index []
      → Scanned values index best at
      → IsFirstMaximum values at best
  Scanned-IsFirstMaximum index best at f s = record {
    holds = s.holds;
    above = s.above;
    greatest = λ j u e. elim (Bool-cases (ltb j index)) [
      | inl before ↦ s.greatest j u (ground arith) e
      | inr after ↦ absurd (cc (None-after index j f (ground arith), e))
    ];
  }

  scan :
      (rest : List Float32) (index : ℕ) (best : Float32) (at : ℕ)
      → From index rest
      → Scanned values index best at
      → (v : Float32) × IsFirstMaximum values (first_maximum_from best at index rest) v
  unfolding first_maximum_from
  scan [] index best at f s = (best, Scanned-IsFirstMaximum index best at f s)
  scan (v ∷ rest) index best at f s = elim (Bool-cases (greater32 v best)) [
    | inl larger ↦ rw larger (
        scan rest (index + 1) v index (From-next index v rest f)
          (move index best v at s (From-here index v rest f) larger))
    | inr smaller ↦ rw smaller (
        scan rest (index + 1) best at (From-next index v rest f)
          (keep index best v at s (From-here index v rest f) smaller))
  ]

-- On values of which none is a NaN, firstMaximumIndex gives the index of a value that is greater than
-- every value before it and at least as great as every value after it.
pub first_maximum_index-IsFirstMaximum :
    (p : Float32) (ps : List Float32)
    → ((j : ℕ) (u : Float32) → get_elem? (p ∷ ps) j ≡ some u → is_nan32 u ≡ false)
    → (v : Float32) × IsFirstMaximum (p ∷ ps) (first_maximum_index (p ∷ ps)) v
unfolding first_maximum_index
first_maximum_index-IsFirstMaximum p ps clean =
    scan (p ∷ ps) (numbers_lem clean) ps 1 p 0
      (record { each = λ i. let next : 1 + i ≡ suc i = omega arith in rw next })
      (record {
        within = omega arith;
        holds = refl;
        above = λ j u l e. absurd (omega arith);
        greatest = λ j u l e.
            let first : j ≡ 0 = omega arith in
            let same : u ≡ p = same_value (sym e ∙ (rw first refl)) in rw same (omega arith);
      })
  where
    numbers_lem :
        ((j : ℕ) (u : Float32) → get_elem? (p ∷ ps) j ≡ some u → is_nan32 u ≡ false)
        → AreNumbers (p ∷ ps)
    numbers_lem h = unfold AreNumbers in h

first_maximum_from-lt :
    (rest : List Float32) (index : ℕ) (best : Float32) (at : ℕ)
    → at < index
    → first_maximum_from best at index rest < index + length rest
unfolding first_maximum_from
first_maximum_from-lt [] index best at h = omega arith
first_maximum_from-lt (v ∷ rest) index best at h = elim (Bool-cases (greater32 v best)) [
  | inl larger ↦
      rw larger (omega (arith, first_maximum_from-lt rest (index + 1) v index (omega arith)))
  | inr smaller ↦
      rw smaller (omega (arith, first_maximum_from-lt rest (index + 1) best at (omega arith)))
]

-- The index that firstMaximumIndex gives for a non-empty array lies in the array, NaN or not.
pub first_maximum_index-lt :
    (values : List Float32) → 0 < length values → first_maximum_index values < length values
unfolding first_maximum_index
first_maximum_index-lt [] h = absurd (omega arith)
first_maximum_index-lt (v ∷ vs) h = omega (arith, first_maximum_from-lt vs 1 v 0 (omega arith))

-- The classes that stand in a table.
AllValid : (ℤ → Bool) → List ℤ → Type 0
AllValid valid table = All (λ c. valid c ≡ true) table

class_at-AllValid :
    (valid : ℤ → Bool) (table : List ℤ) (i : ℕ)
    → AllValid valid table
    → i < length table
    → valid (class_at (get_elem? table i)) ≡ true
unfolding AllValid
class_at-AllValid valid [] i h l = absurd (omega arith)
class_at-AllValid valid (c ∷ cs) zero h l = h.0
class_at-AllValid valid (c ∷ cs) (suc i) h l = class_at-AllValid valid cs i h.1 (omega arith)

pub predicted_coarse_class-valid :
    (ps : List Float32)
    → length ps ≡ coarse_probability_count
    → coarse_class_valid (predicted_coarse_class ps) ≡ true
unfolding predicted_coarse_class AllValid
predicted_coarse_class-valid ps h =
    class_at-AllValid coarse_class_valid coarse_class_by_probability_index (first_maximum_index ps)
      (unfold coarse_class_valid in (refl, (refl, (refl, (refl, (refl, (refl, (refl, tt))))))))
      (omega (arith, first_maximum_index-lt ps (omega arith)))

pub predicted_leaf_class-valid :
    (ps : List Float32)
    → length ps ≡ leaf_probability_count
    → leaf_class_valid (predicted_leaf_class ps) ≡ true
unfolding predicted_leaf_class AllValid
predicted_leaf_class-valid ps h =
    class_at-AllValid leaf_class_valid leaf_class_by_probability_index (first_maximum_index ps)
      (unfold leaf_class_valid in
        (
          refl,
          (
            refl,
            (refl, (refl, (refl, (refl, (refl, (refl, (refl, (refl, (refl, (refl, tt)))))))))),
          ),
        ))
      (omega (arith, first_maximum_index-lt ps (omega arith)))
