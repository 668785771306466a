-- ===== src/Application/Runs.antt =====
-- internal/application/classification_run_builder.go: the record of a successful run.
pub mod Validity
pub mod Fitting
use variable_star_classifica.Prelude.{
  ℕ, ◌%◌, ◌^◌, Bool, true, false, not, ◌||◌, [], Option, none, some, Text, eqb_text, trim_space,
  contains_nul, ltb, leb, ◌==◌, if◌then◌else◌, ℤ, pos, leb_ℤ, eqb_ℤ, length,
}
use variable_star_classifica.Errors.{
  GoError, because, invalid_classification_run_build, invalid_coarse_source_mapping, Result, ok,
  err, ◌>>=◌, ◌>>◌, check, refuse_if,
}
use variable_star_classifica.Application.Messaging.{Time}
use variable_star_classifica.Application.LightCurves.{
  minimum_light_curve_epoch_count, maximum_light_curve_epoch_count,
}
use variable_star_classifica.Application.CoarseMode.{
  CoarseMode, unspecified_mode, compute_current, reuse_previous, compute_bootstrap,
  maximum_compute_current_epoch_count,
}
use variable_star_classifica.Application.Predictions.{predicted_coarse_class, predicted_leaf_class}
use variable_star_classifica.Application.Commands.{is_present}
use variable_star_classifica.Application.Inputs.{PreparedClassificationInput, ClassificationOutput}
use variable_star_classifica.Domain.Identity.{
  ExecutionMode, execution_mode_production, execution_mode_shadow, execution_mode_reprocess,
  UuidLibrary, generate_run_id,
}
use variable_star_classifica.Domain.Classification.{
  ClassificationRun, coarse_source_computed_current, coarse_source_reused_previous,
  coarse_source_computed_bootstrap,
}
use variable_star_classifica.Storage.Repository.{CompatibleCoarseResult}

unfoldable pub is_valid_run_execution_mode : ExecutionMode → Bool
is_valid_run_execution_mode mode =
    mode == execution_mode_production
    || (mode == execution_mode_shadow || mode == execution_mode_reprocess)

unfoldable pub validate_run_build_string : Text → Option GoError
validate_run_build_string value =
    if eqb_text value []
    then some (because invalid_classification_run_build "must not be empty")
    else if not (eqb_text (trim_space value) value)
    then some
        (because invalid_classification_run_build "must not contain leading or trailing whitespace")
    else if contains_nul value
    then some (because invalid_classification_run_build "must not contain NUL")
    else none

-- validateServingBundleForRun, on the version that was prepared and the one that is served.
unfoldable pub validate_serving_bundle_for_run : Text → Text → Result (Unit {0})
unfolding validate_run_build_string
validate_serving_bundle_for_run prepared serving = do
  check (validate_run_build_string prepared)
  refuse_if (not (eqb_text serving prepared))
      (because invalid_classification_run_build "model_bundle_version")
  check (validate_run_build_string serving)

abbrev same_mode : CoarseMode → CoarseMode → Bool
same_mode unspecified_mode unspecified_mode = true
same_mode compute_current compute_current = true
same_mode reuse_previous reuse_previous = true
same_mode compute_bootstrap compute_bootstrap = true
same_mode _ _ = false

unfoldable pub validate_prepared_classification_for_run : PreparedClassificationInput → Result ℕ
unfolding validate_run_build_string
validate_prepared_classification_for_run prepared = do
  check (validate_run_build_string prepared.revision.object_id)
  refuse_if (leb_ℤ prepared.revision.revision (pos 0))
      (because invalid_classification_run_build "light curve revision")
  let actual = length prepared.revision.epochs
  refuse_if
      (ltb actual minimum_light_curve_epoch_count || ltb maximum_light_curve_epoch_count actual)
      (because invalid_classification_run_build "effective epoch count")
  refuse_if (not (prepared.revision.eligible_epoch_count == (actual % 2 ^ 32)))
      (because invalid_classification_run_build "revision epoch count metadata")
  refuse_if
      (not (length prepared.input.time_mjd == actual)
        || (not (length prepared.input.magnitude == actual)
            || not (length prepared.input.magnitude_error == actual)))
      (because invalid_classification_run_build "classification input lengths")
  refuse_if (not (same_mode prepared.input.coarse_mode prepared.selection.mode))
      (because invalid_classification_run_build "input coarse mode")
  ok (actual % 2 ^ 32)

-- classificationCoarseSource
pub record CoarseSource : Type 0 where
  pub source_type : ℕ
  pub source_run_id : Option Text
  pub light_curve_revision : ℤ
  pub epoch_count : ℕ  -- uint32

abbrev unmapped : GoError
unmapped = because invalid_coarse_source_mapping "coarse mode"

-- The two modes that compute: no reused source, and xgboost has run.
unfoldable pub computed_source : ℕ → Bool → Bool → Bool → ℤ → ℕ → Result CoarseSource
computed_source source_type reused probabilities executed current count = do
  refuse_if reused unmapped
  refuse_if probabilities unmapped
  refuse_if (not executed) unmapped
  ok (record {
    source_type = source_type;
    source_run_id = none;
    light_curve_revision = current;
    epoch_count = count;
  })

-- The mode that reuses, without its first test.
unfoldable pub reused_source : Option CompatibleCoarseResult → Bool → Bool → ℤ → Result CoarseSource
reused_source none probabilities executed current = err unmapped
reused_source (some reused) probabilities executed current = do
  refuse_if (not probabilities) unmapped
  refuse_if executed unmapped
  refuse_if (eqb_text reused.source_run_id []) unmapped
  refuse_if
      (leb_ℤ reused.source_light_curve_revision (pos 0)
        || leb_ℤ current reused.source_light_curve_revision)
      unmapped
  refuse_if
      (ltb reused.source_epoch_count minimum_light_curve_epoch_count
        || ltb maximum_light_curve_epoch_count reused.source_epoch_count)
      unmapped
  ok (record {
    source_type = coarse_source_reused_previous;
    source_run_id = some reused.source_run_id;
    light_curve_revision = reused.source_light_curve_revision;
    epoch_count = reused.source_epoch_count;
  })

-- The switch of mapClassificationCoarseSource.
unfoldable pub source_for_mode :
    CoarseMode → Option CompatibleCoarseResult → Bool → Bool → ℤ → ℕ → Result CoarseSource
unfolding computed_source reused_source
source_for_mode unspecified_mode reused probabilities executed current count = err unmapped
source_for_mode compute_current reused probabilities executed current count = do
  refuse_if (ltb maximum_compute_current_epoch_count count) unmapped
  computed_source coarse_source_computed_current (is_present reused) probabilities executed current
      count
source_for_mode reuse_previous reused probabilities executed current count = do
  refuse_if (leb count maximum_compute_current_epoch_count) unmapped
  reused_source reused probabilities executed current
source_for_mode compute_bootstrap reused probabilities executed current count = do
  refuse_if (leb count maximum_compute_current_epoch_count) unmapped
  computed_source coarse_source_computed_bootstrap (is_present reused) probabilities executed
      current count

-- mapClassificationCoarseSource
unfoldable pub map_classification_coarse_source :
    PreparedClassificationInput → Bool → ℕ → Result CoarseSource
unfolding source_for_mode
map_classification_coarse_source prepared executed count =
    source_for_mode prepared.selection.mode prepared.selection.reused_coarse
      (is_present prepared.input.reused_coarse_probabilities) executed prepared.revision.revision
      count

pub record ClassificationRunBuildRequest : Type 0 where
  pub job_id : Text
  pub candidate_revision : ℤ
  pub execution_mode : ExecutionMode
  pub prepared : PreparedClassificationInput
  pub serving_bundle : Text  -- its model bundle version
  pub output : ClassificationOutput
  pub completed_at : Time

abbrev built_or_error : Result Text → Result Text
built_or_error (ok run) = ok run
built_or_error (err e) = err (because invalid_classification_run_build "generate run ID")

abbrev pub run_from : ClassificationRunBuildRequest → Text → ℕ → CoarseSource → ClassificationRun
run_from request run_id count source = record {
  run_id = run_id;
  job_id = request.job_id;
  object_id = request.prepared.revision.object_id;
  candidate_revision = request.candidate_revision;
  light_curve_revision = request.prepared.revision.revision;
  effective_epoch_count = count;
  execution_mode = request.execution_mode;
  coarse_source_type = source.source_type;
  coarse_source_run_id = source.source_run_id;
  coarse_source_light_curve_revision = source.light_curve_revision;
  coarse_source_epoch_count = source.epoch_count;
  xgboost_executed = request.output.xgboost_executed;
  model_bundle_version = request.serving_bundle;
  coarse_probabilities = request.output.coarse_probabilities;
  fine_conditional_probabilities = request.output.conditional_fine_probabilities;
  leaf_probabilities = request.output.leaf_probabilities;
  predicted_coarse_class = predicted_coarse_class request.output.coarse_probabilities;
  predicted_leaf_class = predicted_leaf_class request.output.leaf_probabilities;
  completed_at = request.completed_at;
  persisted_at = pos 0;
}

-- BuildClassificationRun
unfoldable pub build_classification_run :
    UuidLibrary → ClassificationRunBuildRequest → Result ClassificationRun
build_classification_run lib request = do
  run_id ← built_or_error (generate_run_id lib request.job_id)
  refuse_if (leb_ℤ request.candidate_revision (pos 0))
      (because invalid_classification_run_build "candidate revision")
  refuse_if (not (is_valid_run_execution_mode request.execution_mode))
      (because invalid_classification_run_build "invalid execution mode")
  refuse_if (eqb_ℤ request.completed_at (pos 0))
      (because invalid_classification_run_build "completed_at must not be zero")
  count ← validate_prepared_classification_for_run request.prepared
  validate_serving_bundle_for_run request.prepared.selection.model_bundle.model_bundle_version
      request.serving_bundle
  source ← map_classification_coarse_source request.prepared request.output.xgboost_executed count
  ok (run_from request run_id count source)
