-- ===== src/Application/WorkerTests.antt =====
-- internal/application: the theorems on the worker, and on the writer that reads what it published.
use variable_star_classifica.Application.Commands.{
  classification_command_input_execution_mode, classification_command_input_priority, created_time,
  input_from_command,
}
use variable_star_classifica.Prelude.{true, ℕ, ◌≡◌, sym, refl, [], ◌∷◌, none, trim_space, pos}
use variable_star_classifica.Prelude.Effects.{World}
use variable_star_classifica.Errors.{Result, ok}
use variable_star_classifica.Application.Messaging.{InboundMessage}
use variable_star_classifica.Application.Candidates.{validate_required_string}
use variable_star_classifica.Application.Commands.{
  classification_command_trace_context, decode_classification_command_message, input_from_command,
  created_time,
}
use variable_star_classifica.Application.Handlers.{Event, published}
use variable_star_classifica.Application.Inputs.{ClassificationOutput}
use variable_star_classifica.Domain.Identity.{
  generate_job_id, generate_run_id, validate_job_identity, validate_identity_string,
  validate_execution_mode,
}
use variable_star_classifica.Application.Predictions.{
  predicted_coarse_class, predicted_leaf_class, first_maximum_index, first_maximum_from,
}
use variable_star_classifica.Application.Runs.{is_valid_run_execution_mode}
use variable_star_classifica.Application.Results.{build_classification_result_message}
use variable_star_classifica.Application.LightCurves.{
  prepare_light_curve_revision, check_epochs, check_epoch, sort_epochs, insert_epoch, has_duplicate,
}
use variable_star_classifica.Application.CoarseMode.{
  select, select_found, validate_compatible_coarse_result, validate_model_bundle_metadata,
}
use variable_star_classifica.Application.Inputs.{
  Sources, prepare, read_revision, build_classification_input, check_selection,
}
use variable_star_classifica.Application.Runs.{
  build_classification_run, validate_prepared_classification_for_run, validate_run_build_string,
  validate_serving_bundle_for_run, map_classification_coarse_source, source_for_mode, reused_source,
}
use variable_star_classifica.Application.Handlers.{
  decode_stage, prepare_input_stage, resolve_bundle_stage, triton_stage, build_run_stage,
  build_result_stage, publish_result_stage, command_started, command_finished, stage_finished,
}
use variable_star_classifica.Application.Handlers.Worker.{
  WorkerEnvironment, finish_stage, after_run_publish, publish_run, build_run_result, build_run_at,
  unless_ended, after_inference, classify_prepared, resolve_bundle_of, prepare_command, work,
  work_unless, worker_handle,
}
use variable_star_classifica.Application.Pipeline.{IsStored, worker_handle-writer_handle}
use variable_star_classifica.Storage.Repository.{SaveRunResult, CompatibleCoarseResult}
use variable_star_classifica.Application.Results.RoundTrip.{IsCanonicalUuid}
use variable_star_classifica.Domain.Classification.{ClassificationRun}
use variable_star_classifica.Application.Handlers.Worker.Decoding.{IsReliable}
use variable_star_classifica.Application.Handlers.Worker.Publishing.{
  ResultPublished, worker_handle-ResultPublished,
}
use variable_star_classifica.Application.Fixtures.{
  earlier_uuid, result_is_marshalled, result_message, plain_protobuf, as_read, at_start, calm,
  command_message, command_topic, result_topic, the_output, known_uuids,
}
use variable_star_classifica.Application.RunTests.{light_curve, earlier_run}

abbrev sources : Sources
sources = record {
  before = none;
  before_read = none;
  get_revision = λ object revision. ok light_curve;
  after_read = none;
  ports = record {
    before = none;
    resolve = λ version. ok (record { model_bundle_version = version });
    after_resolve = none;
    find = λ q. ok earlier_run;
    after_find = none;
  };
}

abbrev worker : WorkerEnvironment
worker = record {
  outside = calm;
  sources = λ t. sources;
  resolve_serving_bundle = λ version t. ok version;
  run_classifier = λ job input t. ok the_output;
  now = λ t. pos 2000;
}

-- The vectors of the only output.
only_output :
    (out : ClassificationOutput)
    → ◌≡◌ {A = Result ClassificationOutput} (ok the_output) (ok out)
    → the_output ≡ out
only_output out h = cc h

-- The id that the repository found is an earlier run's UUID.
earlier-IsCanonicalUuid :
    (r : CompatibleCoarseResult)
    → ◌≡◌ {A = Result CompatibleCoarseResult} (ok earlier_run) (ok r)
    → IsCanonicalUuid known_uuids r.source_run_id
earlier-IsCanonicalUuid r h = (earlier_uuid, cc h, refl)

worker-IsReliable : IsReliable worker plain_protobuf known_uuids
worker-IsReliable = record {
  coarse = λ job input t out h. rw (sym (only_output out h)) refl;
  fine = λ job input t out h. rw (sym (only_output out h)) refl;
  leaf = λ job input t out h. rw (sym (only_output out h)) refl;
  clock = λ t. refl;
  source = λ t query r h. earlier-IsCanonicalUuid r h;
}

abbrev worker_end : World Event
worker_end = record {
  tick = 7;
  trace =
      command_finished
      ∷ stage_finished publish_result_stage
      ∷ published result_message none
      ∷ stage_finished build_result_stage
      ∷ stage_finished build_run_stage
      ∷ stage_finished triton_stage
      ∷ stage_finished resolve_bundle_stage
      ∷ stage_finished prepare_input_stage
      ∷ stage_finished decode_stage
      ∷ command_started
      ∷ [];
}

abbrev command : InboundMessage
command = as_read command_message

worker_publishes :
    worker_handle worker plain_protobuf known_uuids command_topic result_topic command at_start
    ≡ (none, worker_end)
unfolding worker_handle work_unless work prepare_command resolve_bundle_of classify_prepared
    after_inference unless_ended build_run_at build_run_result publish_run after_run_publish
    finish_stage decode_classification_command_message input_from_command created_time
    validate_required_string classification_command_input_execution_mode
    classification_command_input_priority generate_job_id validate_job_identity
    validate_identity_string validate_execution_mode trim_space prepare read_revision
    prepare_light_curve_revision check_epochs check_epoch sort_epochs insert_epoch has_duplicate
    select select_found validate_compatible_coarse_result validate_model_bundle_metadata
    build_classification_input check_selection build_classification_run generate_run_id
    is_valid_run_execution_mode validate_prepared_classification_for_run validate_run_build_string
    validate_serving_bundle_for_run map_classification_coarse_source source_for_mode reused_source
    predicted_coarse_class predicted_leaf_class first_maximum_index first_maximum_from
    build_classification_result_message classification_command_trace_context
worker_publishes = rw result_is_marshalled refl

worker_handle-ResultPublished_example :
    ResultPublished worker plain_protobuf known_uuids command_topic result_topic command
      worker_end.trace
worker_handle-ResultPublished_example =
    worker_handle-ResultPublished worker plain_protobuf known_uuids command_topic result_topic
      command (λ e. absurd (cc e)) worker-IsReliable at_start worker_end worker_publishes

-- A repository that stores every run.
abbrev every_run : ClassificationRun → ℕ → Result SaveRunResult
every_run run t = ok (record { run_inserted = true; current_advanced = true })

worker_handle-writer_handle_example :
    IsStored worker plain_protobuf known_uuids command_topic result_topic command calm every_run
      worker_end.trace
      (pos 2)
      (pos 7)
      (pos 5)
      at_start
worker_handle-writer_handle_example =
    worker_handle-writer_handle worker plain_protobuf known_uuids command_topic result_topic command
      calm every_run (λ e. absurd (cc e)) worker-IsReliable at_start worker_end worker_publishes
      (pos 2) (pos 7) (pos 5) at_start refl refl
      (λ run t. (record { run_inserted = true; current_advanced = true }, refl))
