-- ===== src/Application/Predictions.antt =====
-- internal/application/classification_run_builder.go: the predicted classes. A probability is the bit
-- pattern of a float32, compared as Go compares floats: nothing is greater than a NaN.
pub mod Maximum
use variable_star_classifica.Prelude.{
  ℕ, ◌+◌, ◌-◌, ◌/◌, ◌%◌, ◌^◌, Bool, not, ◌&&◌, List, [], ◌∷◌, Option, none, some, ◌==◌,
  if◌then◌else◌, ℤ, pos, ltb_ℤ, get_elem?,
}
use variable_star_classifica.Application.LightCurves.{order32}
use variable_star_classifica.Domain.Classification.{Float32}

abbrev pub is_nan32 : Float32 → Bool
is_nan32 b = ((b / 2 ^ 23) % 2 ^ 8) == (2 ^ 8 - 1) && not ((b % 2 ^ 23) == 0)

-- a > b on float32
abbrev pub greater32 : Float32 → Float32 → Bool
greater32 a b = not (is_nan32 a) && (not (is_nan32 b) && ltb_ℤ (order32 b) (order32 a))

-- The loop from an index on, with the greatest value so far and its index.
unfoldable pub first_maximum_from : Float32 → ℕ → ℕ → List Float32 → ℕ
first_maximum_from best maximum_index index [] = maximum_index
first_maximum_from best maximum_index index (v ∷ vs) =
    first_maximum_from (if greater32 v best then v else best)
      (if greater32 v best then index else maximum_index) (index + 1) vs

unfoldable pub first_maximum_index : List Float32 → ℕ
unfolding first_maximum_from
first_maximum_index [] = 0
first_maximum_index (v ∷ vs) = first_maximum_from v 0 1 vs

abbrev pub coarse_class_by_probability_index : List ℤ
coarse_class_by_probability_index =
    pos 50 ∷ pos 30 ∷ pos 60 ∷ pos 20 ∷ pos 10 ∷ pos 40 ∷ pos 70 ∷ []

abbrev pub leaf_class_by_probability_index : List ℤ
leaf_class_by_probability_index =
    pos 6001
    ∷ pos 6002
    ∷ pos 5001
    ∷ pos 5002
    ∷ pos 4001
    ∷ pos 4002
    ∷ pos 2001
    ∷ pos 2002
    ∷ pos 1001
    ∷ pos 1002
    ∷ pos 30
    ∷ pos 70
    ∷ []

-- An array access. The index of a maximum is in range, since the tables are as long as the arrays.
abbrev pub class_at : Option ℤ → ℤ
class_at none = pos 0
class_at (some c) = c

unfoldable pub predicted_coarse_class : List Float32 → ℤ
predicted_coarse_class probabilities =
    class_at (get_elem? coarse_class_by_probability_index (first_maximum_index probabilities))

unfoldable pub predicted_leaf_class : List Float32 → ℤ
predicted_leaf_class probabilities =
    class_at (get_elem? leaf_class_by_probability_index (first_maximum_index probabilities))
