-- ===== src/Application/ResultRules.antt =====
-- internal/application/classification_result_decode.go: what the result writer demands of a run.
use variable_star_classifica.Prelude.{
  Bool, false, not, ◌||◌, [], String, eqb_text, ltb, leb, ◌==◌, if◌then◌else◌, pos, leb_ℤ, eqb_ℤ,
}
use variable_star_classifica.Errors.{GoError, message, result_error, Result, ◌>>◌, refuse_if}
use variable_star_classifica.Application.LightCurves.{
  minimum_light_curve_epoch_count, maximum_light_curve_epoch_count,
}
use variable_star_classifica.Application.CoarseMode.{maximum_compute_current_epoch_count}
use variable_star_classifica.Application.Commands.{is_present}
use variable_star_classifica.Application.Predictions.{predicted_coarse_class, predicted_leaf_class}
use variable_star_classifica.Application.Runs.{is_valid_run_execution_mode}
use variable_star_classifica.Domain.Classification.{
  ClassificationRun, coarse_class_valid, leaf_class_valid, coarse_source_valid,
  coarse_source_computed_current, coarse_source_reused_previous, coarse_source_computed_bootstrap,
}

abbrev pub invalid_result_field : String → GoError → GoError
invalid_result_field field e = result_error "RESULT_FIELD_INVALID" field e

abbrev pub refuse_field : Bool → String → String → Result (Unit {0})
refuse_field failed field text = refuse_if failed (invalid_result_field field (message text))

-- The relations of validateDecodedCoarseSource, refused or not.
unfoldable pub computed_relations_broken : ClassificationRun → Bool
computed_relations_broken run =
    is_present run.coarse_source_run_id
    || (not (eqb_ℤ run.coarse_source_light_curve_revision run.light_curve_revision)
        || (not (run.coarse_source_epoch_count == run.effective_epoch_count)
            || not run.xgboost_executed))

unfoldable pub reused_relations_broken : ClassificationRun → Bool
reused_relations_broken run =
    not (is_present run.coarse_source_run_id)
    || (leb_ℤ run.coarse_source_light_curve_revision (pos 0)
        || (leb_ℤ run.light_curve_revision run.coarse_source_light_curve_revision
            || (ltb run.coarse_source_epoch_count minimum_light_curve_epoch_count
                || (ltb maximum_light_curve_epoch_count run.coarse_source_epoch_count
                    || run.xgboost_executed))))

-- validateDecodedCoarseSource
unfoldable pub coarse_source_broken : ClassificationRun → Bool
unfolding computed_relations_broken reused_relations_broken
coarse_source_broken run =
    if run.coarse_source_type == coarse_source_computed_current
    then ltb maximum_compute_current_epoch_count run.effective_epoch_count
      || computed_relations_broken run
    else if run.coarse_source_type == coarse_source_reused_previous
    then leb run.effective_epoch_count maximum_compute_current_epoch_count
      || reused_relations_broken run
    else if run.coarse_source_type == coarse_source_computed_bootstrap
    then leb run.effective_epoch_count maximum_compute_current_epoch_count
      || computed_relations_broken run
    else false

-- validateDecodedClassificationRun
unfoldable pub validate_decoded_classification_run : ClassificationRun → Result (Unit {0})
unfolding coarse_source_broken
validate_decoded_classification_run run = do
  refuse_field (eqb_text run.object_id []) "object_id" "must not be empty"
  refuse_field (leb_ℤ run.candidate_revision (pos 0)) "candidate_revision"
      "must be greater than zero"
  refuse_field (leb_ℤ run.light_curve_revision (pos 0)) "light_curve_revision"
      "must be greater than zero"
  refuse_field
      (ltb run.effective_epoch_count minimum_light_curve_epoch_count
        || ltb maximum_light_curve_epoch_count run.effective_epoch_count)
      "effective_epoch_count" "must be within"
  refuse_field (not (is_valid_run_execution_mode run.execution_mode)) "execution_mode"
      "unsupported value"
  refuse_field (not (coarse_source_valid run.coarse_source_type)) "coarse_source_type"
      "unsupported value"
  refuse_field (eqb_text run.model_bundle_version []) "model_bundle_version" "must not be empty"
  refuse_field (not (coarse_class_valid run.predicted_coarse_class)) "predicted_coarse_class"
      "unsupported value"
  refuse_field (not (leaf_class_valid run.predicted_leaf_class)) "predicted_leaf_class"
      "unsupported value"
  refuse_field (eqb_ℤ run.completed_at (pos 0)) "completed_at" "must not be zero"
  refuse_field
      (not (eqb_ℤ run.predicted_coarse_class (predicted_coarse_class run.coarse_probabilities)))
      "predicted_coarse_class" "does not match deterministic argmax"
  refuse_field (not (eqb_ℤ run.predicted_leaf_class (predicted_leaf_class run.leaf_probabilities)))
      "predicted_leaf_class" "does not match deterministic argmax"
  refuse_field (coarse_source_broken run) "coarse_source" "invalid source relationship"
