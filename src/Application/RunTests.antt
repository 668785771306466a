-- ===== src/Application/RunTests.antt =====
-- internal/application: the theorems on a run that reuses coarse probabilities, and on its predicted
-- classes.
use variable_star_classifica.Domain.Classification.{HasArrays}
use variable_star_classifica.Prelude.{
  get_elem?, suc, zero, ℕ, ◌≡◌, refl, false, List, [], ◌∷◌, Option, none, some, codes, trim_space,
  pos, map,
}
use variable_star_classifica.Errors.{ok}
use variable_star_classifica.Application.Candidates.{no_trace}
use variable_star_classifica.Domain.Identity.{
  execution_mode_production, generate_job_id, generate_run_id, validate_job_identity,
  validate_identity_string, validate_execution_mode,
}
use variable_star_classifica.Application.Predictions.{
  predicted_coarse_class, predicted_leaf_class, first_maximum_index, first_maximum_from,
}
use variable_star_classifica.Application.Runs.{is_valid_run_execution_mode}
use variable_star_classifica.Application.Results.{decode_classification_result_message}
use variable_star_classifica.Application.LightCurves.{LightCurveEpoch, LightCurveRevision}
use variable_star_classifica.Application.CoarseMode.{reuse_previous}
use variable_star_classifica.Application.Inputs.{PreparedClassificationInput}
use variable_star_classifica.Application.Predictions.{is_nan32}
use variable_star_classifica.Application.Predictions.Maximum.{
  IsFirstMaximum, first_maximum_index-IsFirstMaximum,
}
use variable_star_classifica.Application.Runs.{
  ClassificationRunBuildRequest, build_classification_run, validate_prepared_classification_for_run,
  validate_run_build_string, validate_serving_bundle_for_run, map_classification_coarse_source,
  source_for_mode, reused_source,
}
use variable_star_classifica.Application.Runs.Fitting.{
  identity_of_request, build_classification_run-decode_result,
}
use variable_star_classifica.Storage.Repository.{CompatibleCoarseResult}
use variable_star_classifica.Application.Results.RoundTrip.{IsCanonicalUuid}
use variable_star_classifica.Application.Fixtures.{
  earlier_uuid, result_is_built, as_read-Delivers, result_message, plain_protobuf, as_read, half,
  result_topic, the_output, the_run, known_uuids,
}

abbrev pub epoch_at : ℕ → LightCurveEpoch
epoch_at time = record {
  observation_time = time;
  magnitude = 0x3f800000;
  magnitude_error = 0x3f800000;
}

abbrev pub times : List ℕ
times =
    0x3ff0000000000000 ∷ 0x3ff0000000000001 ∷ 0x3ff0000000000002 ∷ 0x3ff0000000000003
    ∷ 0x3ff0000000000004 ∷ 0x3ff0000000000005 ∷ 0x3ff0000000000006 ∷ 0x3ff0000000000007
    ∷ 0x3ff0000000000008 ∷ 0x3ff0000000000009 ∷ 0x3ff000000000000a ∷ 0x3ff000000000000b
    ∷ 0x3ff000000000000c ∷ 0x3ff000000000000d ∷ 0x3ff000000000000e ∷ 0x3ff000000000000f
    ∷ 0x3ff0000000000010 ∷ 0x3ff0000000000011 ∷ 0x3ff0000000000012 ∷ 0x3ff0000000000013
    ∷ 0x3ff0000000000014 ∷ []

abbrev pub light_curve : LightCurveRevision
light_curve = record {
  object_id = codes "ZTF18";
  revision = pos 4;
  eligible_epoch_count = 21;
  quality_policy_version = none;
  epochs = map epoch_at times;
}

-- The earlier run whose coarse probabilities are reused.
abbrev pub earlier_run : CompatibleCoarseResult
earlier_run = record {
  source_run_id = codes "run-0";
  source_light_curve_revision = pos 3;
  source_epoch_count = 12;
  probabilities = the_output.coarse_probabilities;
}

abbrev ones : List ℕ
ones = map (λ (t : ℕ). 0x3f800000) times

abbrev prepared : PreparedClassificationInput
prepared = record {
  revision = light_curve;
  selection = record {
    mode = reuse_previous;
    model_bundle = record { model_bundle_version = codes "bundle-1" };
    reused_coarse = some earlier_run;
  };
  input = record {
    time_mjd = times;
    magnitude = ones;
    magnitude_error = ones;
    coarse_mode = reuse_previous;
    reused_coarse_probabilities = some earlier_run.probabilities;
  };
}

abbrev build_request : ClassificationRunBuildRequest
build_request = record {
  job_id = codes "job-1";
  candidate_revision = pos 1;
  execution_mode = execution_mode_production;
  prepared = prepared;
  serving_bundle = codes "bundle-1";
  output = the_output;
  completed_at = pos 2000;
}

run_is_built : build_classification_run known_uuids build_request ≡ ok the_run
unfolding build_classification_run generate_run_id is_valid_run_execution_mode
    validate_prepared_classification_for_run validate_run_build_string
    validate_serving_bundle_for_run map_classification_coarse_source source_for_mode reused_source
    predicted_coarse_class predicted_leaf_class first_maximum_index first_maximum_from trim_space
run_is_built = refl

the_run-HasArrays : HasArrays the_run
the_run-HasArrays = record { coarse = refl; fine = refl; leaf = refl }

request_is_identified :
    generate_job_id known_uuids (identity_of_request build_request) ≡ ok build_request.job_id
unfolding generate_job_id validate_job_identity validate_identity_string validate_execution_mode
    trim_space
request_is_identified = refl

known_source :
    (r : CompatibleCoarseResult)
    → build_request.prepared.selection.reused_coarse ≡ some r
    → IsCanonicalUuid known_uuids r.source_run_id
known_source r h = (earlier_uuid, cc h, refl)

build_classification_run-decode_result_example :
    decode_classification_result_message known_uuids plain_protobuf result_topic
      (as_read result_message)
    ≡ ok (record { run = the_run; trace_context = no_trace })
build_classification_run-decode_result_example =
    build_classification_run-decode_result known_uuids plain_protobuf build_request the_run no_trace
      result_topic [] result_message (as_read result_message) run_is_built the_run-HasArrays
      request_is_identified known_source refl (λ e. absurd (cc e)) result_is_built
      (as_read-Delivers result_message)

-- The first and the third value are the greatest.
abbrev twice_half : List ℕ
twice_half = 0 ∷ half ∷ []

numbers : (j : ℕ) (u : ℕ) → get_elem? (half ∷ twice_half) j ≡ some u → is_nan32 u ≡ false
numbers zero u h = rw (value h) refl
  where
    value : ◌≡◌ {A = Option ℕ} (some half) (some u) → u ≡ half
    value e = cc e
numbers (suc zero) u h = rw (value h) refl
  where
    value : ◌≡◌ {A = Option ℕ} (some 0) (some u) → u ≡ 0
    value e = cc e
numbers (suc (suc zero)) u h = rw (value h) refl
  where
    value : ◌≡◌ {A = Option ℕ} (some half) (some u) → u ≡ half
    value e = cc e
numbers (suc (suc (suc j))) u h = absurd (cc h)

first_maximum_index-IsFirstMaximum_example :
    (v : ℕ) × IsFirstMaximum (half ∷ twice_half) (first_maximum_index (half ∷ twice_half)) v
first_maximum_index-IsFirstMaximum_example =
    first_maximum_index-IsFirstMaximum half twice_half numbers
