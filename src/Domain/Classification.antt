-- ===== src/Domain/Classification.antt =====
-- internal/domain/classification.go: the classes and the record of a classification run. A float32 is
-- its bit pattern; a Go array is a list, whose length is said where it matters.
use variable_star_classifica.Prelude.{
  ℕ, Bool, false, ◌||◌, List, [], ◌∷◌, Option, Text, ◌==◌, ℤ, pos, eqb_ℤ, length, ◌≡◌,
}
use variable_star_classifica.Domain.Identity.{ExecutionMode}
use variable_star_classifica.Application.Messaging.{Time}

abbrev pub Float32 : Type 0
Float32 = ℕ

abbrev pub coarse_probability_count : ℕ
coarse_probability_count = 7

abbrev pub conditional_fine_probability_count : ℕ
conditional_fine_probability_count = 10

abbrev pub leaf_probability_count : ℕ
leaf_probability_count = 12

-- CoarseSourceType, a uint8
abbrev pub coarse_source_computed_current : ℕ
coarse_source_computed_current = 1

abbrev pub coarse_source_reused_previous : ℕ
coarse_source_reused_previous = 2

abbrev pub coarse_source_computed_bootstrap : ℕ
coarse_source_computed_bootstrap = 3

abbrev one_of : ℤ → List ℕ → Bool
one_of z [] = false
one_of z (n ∷ ns) = eqb_ℤ z (pos n) || one_of z ns

-- CoarseClass.IsValid
unfoldable pub coarse_class_valid : ℤ → Bool
coarse_class_valid c = one_of c (10 ∷ 20 ∷ 30 ∷ 40 ∷ 50 ∷ 60 ∷ 70 ∷ [])

-- LeafClass.IsValid
unfoldable pub leaf_class_valid : ℤ → Bool
leaf_class_valid c =
    one_of c (30 ∷ 70 ∷ 1001 ∷ 1002 ∷ 2001 ∷ 2002 ∷ 4001 ∷ 4002 ∷ 5001 ∷ 5002 ∷ 6001 ∷ 6002 ∷ [])

-- CoarseSourceType.IsValid
unfoldable pub coarse_source_valid : ℕ → Bool
coarse_source_valid t =
    t == coarse_source_computed_current
    || t == coarse_source_reused_previous
    || t == coarse_source_computed_bootstrap

pub record ClassificationRun : Type 0 where
  pub run_id : Text
  pub job_id : Text
  pub object_id : Text
  pub candidate_revision : ℤ
  pub light_curve_revision : ℤ
  pub effective_epoch_count : ℕ  -- uint32
  pub execution_mode : ExecutionMode
  pub coarse_source_type : ℕ
  pub coarse_source_run_id : Option Text
  pub coarse_source_light_curve_revision : ℤ
  pub coarse_source_epoch_count : ℕ  -- uint32
  pub xgboost_executed : Bool
  pub model_bundle_version : Text
  pub coarse_probabilities : List Float32
  pub fine_conditional_probabilities : List Float32
  pub leaf_probabilities : List Float32
  pub predicted_coarse_class : ℤ
  pub predicted_leaf_class : ℤ
  pub completed_at : Time
  pub persisted_at : Time

-- The lengths of the run's arrays.
pub record HasArrays (run : ClassificationRun) : Type 0 where
  pub coarse : length run.coarse_probabilities ≡ coarse_probability_count
  pub fine : length run.fine_conditional_probabilities ≡ conditional_fine_probability_count
  pub leaf : length run.leaf_probabilities ≡ leaf_probability_count
