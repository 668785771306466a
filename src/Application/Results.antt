-- ===== src/Application/Results.antt =====
-- internal/application/classification_result.go and classification_result_decode.go: the result message
-- of a run, and how the result writer reads it.
pub mod RoundTrip
use variable_star_classifica.Prelude.{
  ℕ, ◌-◌, ◌%◌, ◌^◌, Bool, true, false, not, ◌&&◌, ◌||◌, List, [], ◌∷◌, Option, none, some, String,
  Text, eqb_text, ltb, leb, ◌==◌, if◌then◌else◌, ℤ, pos, negsuc, leb_ℤ, eqb_ℤ, length, get_elem?,
}
use variable_star_classifica.Errors.{
  GoError, message, result_error, Result, ok, err, ◌>>=◌, ◌>>◌, context, refuse_if,
}
use variable_star_classifica.Application.Messaging.{
  Time, MessageHeader, OutboundMessage, InboundMessage,
}
use variable_star_classifica.Application.Proto.{
  TraceContext, ClassificationResult, CoarseProbabilities, FineConditionalProbabilities,
  LeafProbabilities, Codec, Protobuf,
}
use variable_star_classifica.Application.LightCurves.{
  minimum_light_curve_epoch_count, maximum_light_curve_epoch_count,
}
use variable_star_classifica.Application.CoarseMode.{maximum_compute_current_epoch_count}
use variable_star_classifica.Application.Candidates.{trace_or_empty}
use variable_star_classifica.Application.Commands.{classification_command_trace_context, is_present}
use variable_star_classifica.Application.Predictions.{predicted_coarse_class, predicted_leaf_class}
use variable_star_classifica.Application.Runs.{is_valid_run_execution_mode}
use variable_star_classifica.Application.Probabilities.{
  map_coarse_probabilities, map_fine_probabilities, map_leaf_probabilities,
  decode_result_coarse_probabilities, decode_result_fine_probabilities,
  decode_result_leaf_probabilities,
}
use variable_star_classifica.Application.ResultRules.{
  invalid_result_field, refuse_field, validate_decoded_classification_run,
}
use variable_star_classifica.Domain.Identity.{
  JobIdentity, UuidLibrary, generate_job_id, generate_run_id,
}
use variable_star_classifica.Domain.Classification.{
  ClassificationRun, Float32, coarse_class_valid, leaf_class_valid, coarse_source_valid,
  coarse_source_computed_current, coarse_source_reused_previous, coarse_source_computed_bootstrap,
}

-- The conversion of an int32 enum to a uint8.
abbrev pub uint8_of : ℤ → ℕ
uint8_of (pos n) = n % 2 ^ 8
uint8_of (negsuc n) = 2 ^ 8 - 1 - n % 2 ^ 8

-- What must be present in a message.
abbrev pub required {ℓ} : {A : Type ℓ} → String → Option A → Result A
required field none = err (invalid_result_field field (message "must be present"))
required field (some a) = ok a

abbrev field_checked : String → Option GoError → Result (Unit {0})
field_checked field none = ok tt
field_checked field (some e) = err (invalid_result_field field e)

abbrev unreadable_result : GoError → GoError
unreadable_result e = result_error "RESULT_MESSAGE_MALFORMED" "value" e

abbrev identity_or_field : String → Result Text → Result Text
identity_or_field field (ok id) = ok id
identity_or_field field (err e) = err (invalid_result_field field e)

-- ClassificationResultInput
pub record ClassificationResultInput : Type 0 where
  pub run : ClassificationRun
  pub trace_context : TraceContext

module _ (lib : UuidLibrary) where
  open lib use {Uuid, to_string, parse, is_nil}

  abbrev is_canonical : Text → Option Uuid → Bool
  is_canonical value none = false
  is_canonical value (some u) = not (is_nil u) && eqb_text (to_string u) value

  -- decodeClassificationResultSourceRunID
  unfoldable pub decode_classification_result_source_run_id : Option Text → Result (Option Text)
  decode_classification_result_source_run_id none = ok none
  decode_classification_result_source_run_id (some value) =
      if is_canonical value (parse value)
      then ok (some value)
      else err
          (invalid_result_field "coarse_source_run_id" (message "must be a canonical non-nil UUID"))

  -- The end of DecodeClassificationResultMessage: the key, the ids and the relations of the run.
  unfoldable pub validate_identity : Text → ClassificationRun → Result (Unit {0})
  validate_identity key run = do
    refuse_if (not (eqb_text key run.object_id))
        (result_error "RESULT_KEY_MISMATCH" "key" (message "kafka key does not match object_id"))
    job ← identity_or_field "job_identity" (
        generate_job_id lib (record {
          object_id = run.object_id;
          light_curve_revision = run.light_curve_revision;
          model_bundle_version = run.model_bundle_version;
          execution_mode = run.execution_mode;
        }))
    refuse_if (not (eqb_text run.job_id job))
        (result_error "RESULT_JOB_ID_MISMATCH" "job_id" (message "got, want"))
    run_id ← identity_or_field "run_id" (generate_run_id lib job)
    refuse_if (not (eqb_text run.run_id run_id))
        (result_error "RESULT_RUN_ID_MISMATCH" "run_id" (message "got, want"))
    validate_decoded_classification_run run

  module _ (pb : Protobuf) where
    open pb use {Timestamp, new_timestamp, check_valid, as_time, results}

    abbrev pub built_result : ClassificationRun → TraceContext → ClassificationResult Timestamp
    built_result run trace = record {
      run_id = run.run_id;
      job_id = run.job_id;
      object_id = run.object_id;
      candidate_revision = run.candidate_revision;
      light_curve_revision = run.light_curve_revision;
      effective_epoch_count = run.effective_epoch_count;
      coarse_source_type = pos run.coarse_source_type;
      coarse_source_run_id = run.coarse_source_run_id;
      coarse_source_light_curve_revision = run.coarse_source_light_curve_revision;
      coarse_source_epoch_count = run.coarse_source_epoch_count;
      xgboost_executed = run.xgboost_executed;
      versions = some run.model_bundle_version;
      coarse_probabilities = some (map_coarse_probabilities run.coarse_probabilities);
      fine_conditional_probabilities =
          some (map_fine_probabilities run.fine_conditional_probabilities);
      leaf_probabilities = some (map_leaf_probabilities run.leaf_probabilities);
      predicted_coarse_class = run.predicted_coarse_class;
      predicted_leaf_class = run.predicted_leaf_class;
      completed_at = some (new_timestamp run.completed_at);
      trace_context = classification_command_trace_context trace;
      execution_mode = pos run.execution_mode;
    }

    -- BuildClassificationResultMessage
    unfoldable pub build_classification_result_message :
        Text → ClassificationRun → TraceContext → List MessageHeader → Result OutboundMessage
    build_classification_result_message topic run trace headers = do
      value ← context "marshal ClassificationResult" (results.marshal (built_result run trace))
      ok (record {
        topic = topic;
        key = run.object_id;
        value = value;
        headers = headers;
        timestamp = run.completed_at;
      })

    -- mapClassificationResult, with the trace context apart.
    unfoldable pub map_classification_result :
        ClassificationResult Timestamp → Result ClassificationRun
    unfolding decode_classification_result_source_run_id
    map_classification_result result = do
      version ← required "versions" result.versions
      coarse ← required "coarse_probabilities" result.coarse_probabilities
      fine ← required "fine_conditional_probabilities" result.fine_conditional_probabilities
      leaf ← required "leaf_probabilities" result.leaf_probabilities
      stamp ← required "completed_at" result.completed_at
      field_checked "completed_at" (check_valid stamp)
      source ← decode_classification_result_source_run_id result.coarse_source_run_id
      ok (record {
        run_id = result.run_id;
        job_id = result.job_id;
        object_id = result.object_id;
        candidate_revision = result.candidate_revision;
        light_curve_revision = result.light_curve_revision;
        effective_epoch_count = result.effective_epoch_count;
        execution_mode = uint8_of result.execution_mode;
        coarse_source_type = uint8_of result.coarse_source_type;
        coarse_source_run_id = source;
        coarse_source_light_curve_revision = result.coarse_source_light_curve_revision;
        coarse_source_epoch_count = result.coarse_source_epoch_count;
        xgboost_executed = result.xgboost_executed;
        model_bundle_version = version;
        coarse_probabilities = decode_result_coarse_probabilities coarse;
        fine_conditional_probabilities = decode_result_fine_probabilities fine;
        leaf_probabilities = decode_result_leaf_probabilities leaf;
        predicted_coarse_class = result.predicted_coarse_class;
        predicted_leaf_class = result.predicted_leaf_class;
        completed_at = as_time stamp;
        persisted_at = pos 0;
      })

    abbrev result_unmarshalled :
        Result (ClassificationResult Timestamp) → Result (ClassificationResult Timestamp)
    result_unmarshalled (ok result) = ok result
    result_unmarshalled (err e) = err (unreadable_result e)

    -- DecodeClassificationResultMessage
    unfoldable pub decode_classification_result_message :
        Text → InboundMessage → Result ClassificationResultInput
    unfolding map_classification_result validate_identity
    decode_classification_result_message expected m = do
      refuse_if (eqb_text expected [])
          (message "expected classification result topic must not be empty")
      refuse_if (not (eqb_text m.topic expected))
          (result_error "RESULT_TOPIC_UNEXPECTED" "topic" (message "got, want"))
      refuse_field (eqb_text m.key []) "key" "must not be empty"
      refuse_if (eqb_text m.value []) (unreadable_result (message "must not be empty"))
      result ← result_unmarshalled (results.unmarshal m.value)
      run ← map_classification_result result
      validate_identity m.key run
      ok (record { run = run; trace_context = trace_or_empty result.trace_context })
