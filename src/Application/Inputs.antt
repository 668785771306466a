-- ===== src/Application/Inputs.antt =====
-- internal/application/classifier.go, light_curve_reader.go, classification_input_builder.go and
-- classification_input_preparer.go: from a command to what the classifier is given. The source of light
-- curves, the ports of the selector and the context are parameters; copies are the values.
pub mod Preparation
use variable_star_classifica.Prelude.{
  ℕ, Bool, not, ◌%◌, ◌^◌, ◌||◌, List, [], map, Option, none, some, Text, eqb_text, ℤ, pos, leb_ℤ,
  eqb_ℤ, length,
}
use variable_star_classifica.Errors.{
  GoError, message, because, light_curve_revision_identity_mismatch, invalid_coarse_mode_selection,
  Result, ok, err, ◌>>=◌, ◌>>◌, check, context, refuse_if,
}
use variable_star_classifica.Application.LightCurves.{
  LightCurveEpoch, LightCurveRevision, prepare_light_curve_revision,
}
use variable_star_classifica.Application.CoarseMode.{
  CoarseMode, unspecified_mode, compute_current, reuse_previous, compute_bootstrap, Ports,
  CoarseModeSelection, select,
}
use variable_star_classifica.Domain.Classification.{Float32}
use variable_star_classifica.Storage.Repository.{CompatibleCoarseResult}

pub record ClassificationInput : Type 0 where
  pub time_mjd : List ℕ  -- float64
  pub magnitude : List Float32
  pub magnitude_error : List Float32
  pub coarse_mode : CoarseMode
  pub reused_coarse_probabilities : Option (List Float32)

pub record ClassificationOutput : Type 0 where
  pub coarse_probabilities : List Float32
  pub conditional_fine_probabilities : List Float32
  pub leaf_probabilities : List Float32
  pub xgboost_executed : Bool

-- What the light curve source and the context answer; the selector has ports of its own.
pub record Sources : Type 0 where
  pub before : Option GoError
  pub before_read : Option GoError
  pub get_revision : Text → ℤ → Result LightCurveRevision
  pub after_read : Option GoError
  pub ports : Ports

-- LightCurveRevisionReader.ReadRevision
unfoldable pub read_revision : Sources → Text → ℤ → Result LightCurveRevision
read_revision sources object revision = do
  check sources.before_read
  light_curve ← sources.get_revision object revision
  check sources.after_read
  refuse_if
      (not (eqb_text light_curve.object_id object) || not (eqb_ℤ light_curve.revision revision))
      (because light_curve_revision_identity_mismatch "requested, returned")
  ok light_curve

-- The switch over the mode, CoarseMode.IsValid with it: whether the reused probabilities fit.
unfoldable pub check_selection : CoarseMode → Option CompatibleCoarseResult → Result (Unit {0})
check_selection unspecified_mode reused =
    err (because invalid_coarse_mode_selection "unknown coarse mode")
check_selection compute_current none = ok tt
check_selection compute_current (some r) =
    err (because invalid_coarse_mode_selection "must not contain reused coarse probabilities")
check_selection compute_bootstrap none = ok tt
check_selection compute_bootstrap (some r) =
    err (because invalid_coarse_mode_selection "must not contain reused coarse probabilities")
check_selection reuse_previous none =
    err (because invalid_coarse_mode_selection "requires compatible coarse probabilities")
check_selection reuse_previous (some r) = ok tt

abbrev pub reused_probabilities : CoarseMode → Option CompatibleCoarseResult → Option (List Float32)
reused_probabilities reuse_previous (some r) = some r.probabilities
reused_probabilities _ _ = none

-- BuildClassificationInput
unfoldable pub build_classification_input :
    LightCurveRevision → CoarseModeSelection → Result ClassificationInput
unfolding check_selection
build_classification_input prepared selection = do
  check_selection selection.mode selection.reused_coarse
  ok (record {
    time_mjd = map (λ (e : LightCurveEpoch). e.observation_time) prepared.epochs;
    magnitude = map (λ (e : LightCurveEpoch). e.magnitude) prepared.epochs;
    magnitude_error = map (λ (e : LightCurveEpoch). e.magnitude_error) prepared.epochs;
    coarse_mode = selection.mode;
    reused_coarse_probabilities = reused_probabilities selection.mode selection.reused_coarse;
  })

pub record ClassificationInputPreparationRequest : Type 0 where
  pub object_id : Text
  pub light_curve_revision : ℤ
  pub declared_eligible_epoch_count : ℕ  -- uint32
  pub model_bundle_version : Text

pub record PreparedClassificationInput : Type 0 where
  pub revision : LightCurveRevision
  pub selection : CoarseModeSelection
  pub input : ClassificationInput

-- ClassificationInputPreparer.Prepare
unfoldable pub prepare :
    Sources → ClassificationInputPreparationRequest → Result PreparedClassificationInput
prepare sources request = do
  check sources.before
  refuse_if (eqb_text request.object_id [])
      (message "prepare classification input: object ID must not be empty")
  refuse_if (leb_ℤ request.light_curve_revision (pos 0))
      (message "prepare classification input: light curve revision must be greater than zero")
  refuse_if (eqb_text request.model_bundle_version [])
      (message "prepare classification input: model bundle version must not be empty")
  revision ←
      context "read fixed light curve revision"
        (read_revision sources request.object_id request.light_curve_revision)
  prepared ←
      context "prepare fixed light curve revision"
        (prepare_light_curve_revision revision request.declared_eligible_epoch_count)
  selection ← context "select coarse classification mode" (
      select sources.ports request.object_id request.light_curve_revision
        (length prepared.epochs % 2 ^ 32) request.model_bundle_version)
  input ← context "build classification input" (build_classification_input prepared selection)
  ok (record { revision = prepared; selection = selection; input = input })
