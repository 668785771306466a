-- ===== src/Application/Handlers/Worker.antt =====
-- internal/application/classification_worker.go: ClassificationWorkerHandler.Handle. The ports answer by
-- tick; durations and logging are left out. The request ID of the classifier's context is an argument.
pub mod Decoding
pub mod Publishing
use variable_star_classifica.Prelude.{ℕ, List, Option, none, some, Text}
use variable_star_classifica.Prelude.Effects.{World, Effect, pure, ask, call, emit, ◌>>=◌, ◌>>◌}
use variable_star_classifica.Errors.{
  Operation, decode_command, prepare_input, resolve_bundle, classify, build_run, build_result,
  publish_result, GoError, Result, ok, err,
}
use variable_star_classifica.Application.Messaging.{Time, OutboundMessage, InboundMessage}
use variable_star_classifica.Application.WorkerErrors.{wrap_worker_error}
use variable_star_classifica.Application.Proto.{Protobuf}
use variable_star_classifica.Application.Commands.{
  ClassificationCommandInput, decode_classification_command_message,
}
use variable_star_classifica.Application.Inputs.{
  Sources, ClassificationInput, ClassificationOutput, ClassificationInputPreparationRequest,
  PreparedClassificationInput, prepare,
}
use variable_star_classifica.Application.Runs.{
  ClassificationRunBuildRequest, build_classification_run,
}
use variable_star_classifica.Application.Results.{build_classification_result_message}
use variable_star_classifica.Application.Handlers.{
  Stage, decode_stage, prepare_input_stage, resolve_bundle_stage, triton_stage, build_run_stage,
  build_result_stage, publish_result_stage, Event, published, command_started, command_finished,
  stage_finished, Environment, Handler,
}
use variable_star_classifica.Domain.Identity.{UuidLibrary}
use variable_star_classifica.Domain.Classification.{ClassificationRun}

-- The ports of the worker; a serving bundle is its model bundle version.
pub record WorkerEnvironment : Type 0 where
  pub outside : Environment
  pub sources : ℕ → Sources
  pub resolve_serving_bundle : Text → ℕ → Result Text
  pub run_classifier : Text → ClassificationInput → ℕ → Result ClassificationOutput
  pub now : ℕ → Time

-- The end of a stage: the observer is told, and an error is wrapped with the operation and returned.
module _ {A : Type 0} where
  unfoldable pub finish_stage :
      Stage
      → Operation
      → Result A
      → (A → Effect Event (Option GoError))
      → Effect Event (Option GoError)
  finish_stage stage operation (err e) rest =
      emit (stage_finished stage) >> pure (some (wrap_worker_error operation e))
  finish_stage stage operation (ok a) rest = emit (stage_finished stage) >> rest a

abbrev pub preparation_request : ClassificationCommandInput → ClassificationInputPreparationRequest
preparation_request command = record {
  object_id = command.object_id;
  light_curve_revision = command.light_curve_revision;
  declared_eligible_epoch_count = command.declared_eligible_epoch_count;
  model_bundle_version = command.model_bundle_version;
}

abbrev pub run_build_request :
    ClassificationCommandInput
    → PreparedClassificationInput
    → Text
    → ClassificationOutput
    → Time
    → ClassificationRunBuildRequest
run_build_request command prepared bundle output completed_at = record {
  job_id = command.job_id;
  candidate_revision = command.candidate_revision;
  execution_mode = command.execution_mode;
  prepared = prepared;
  serving_bundle = bundle;
  output = output;
  completed_at = completed_at;
}

module _ (env : WorkerEnvironment) (pb : Protobuf) (lib : UuidLibrary) (command_topic : Text)
    (result_topic : Text) (m : InboundMessage) where
  unfoldable pub after_run_publish : Option GoError → Effect Event (Option GoError)
  after_run_publish (some e) =
      emit (stage_finished publish_result_stage) >> pure (some (wrap_worker_error publish_result e))
  after_run_publish none = emit (stage_finished publish_result_stage) >> pure none

  unfoldable pub publish_run : OutboundMessage → Effect Event (Option GoError)
  unfolding after_run_publish
  publish_run o = call (env.outside.publish o) (published o) >>= after_run_publish

  unfoldable pub build_run_result :
      ClassificationCommandInput → ClassificationRun → Effect Event (Option GoError)
  unfolding finish_stage publish_run
  build_run_result command run =
      finish_stage build_result_stage build_result
        (build_classification_result_message lib pb result_topic run command.trace_context
          m.headers)
        publish_run

  unfoldable pub build_run_at :
      ClassificationCommandInput
      → PreparedClassificationInput
      → Text
      → ClassificationOutput
      → Time
      → Effect Event (Option GoError)
  unfolding finish_stage build_run_result
  build_run_at command prepared bundle output completed_at =
      finish_stage build_run_stage build_run
        (build_classification_run lib
          (run_build_request command prepared bundle output completed_at))
        (build_run_result command)

  -- After the inference: no result is built if the context has ended.
  unfoldable pub unless_ended :
      ClassificationCommandInput
      → PreparedClassificationInput
      → Text
      → ClassificationOutput
      → Option GoError
      → Effect Event (Option GoError)
  unfolding build_run_at
  unless_ended command prepared bundle output (some e) = pure (some (wrap_worker_error classify e))
  unless_ended command prepared bundle output none =
      ask env.now >>= build_run_at command prepared bundle output

  unfoldable pub after_inference :
      ClassificationCommandInput
      → PreparedClassificationInput
      → Text
      → ClassificationOutput
      → Effect Event (Option GoError)
  unfolding unless_ended
  after_inference command prepared bundle output =
      ask env.outside.context_error >>= unless_ended command prepared bundle output

  unfoldable pub classify_prepared :
      ClassificationCommandInput
      → PreparedClassificationInput
      → Text
      → Effect Event (Option GoError)
  unfolding finish_stage after_inference
  classify_prepared command prepared bundle = do
    output ← ask (env.run_classifier command.job_id prepared.input)
    finish_stage triton_stage classify output (after_inference command prepared bundle)

  unfoldable pub resolve_bundle_of :
      ClassificationCommandInput → PreparedClassificationInput → Effect Event (Option GoError)
  unfolding finish_stage classify_prepared
  resolve_bundle_of command prepared = do
    bundle ← ask (env.resolve_serving_bundle command.model_bundle_version)
    finish_stage resolve_bundle_stage resolve_bundle bundle (classify_prepared command prepared)

  unfoldable pub prepare_command : ClassificationCommandInput → Effect Event (Option GoError)
  unfolding finish_stage resolve_bundle_of
  prepare_command command = do
    sources ← ask env.sources
    finish_stage prepare_input_stage prepare_input (prepare sources (preparation_request command))
        (resolve_bundle_of command)

  unfoldable pub work : Effect Event (Option GoError)
  unfolding finish_stage prepare_command
  work =
      finish_stage decode_stage decode_command
        (decode_classification_command_message pb lib command_topic m) prepare_command

  -- CommandStarted, and CommandFinished in the deferred call.
  unfoldable pub work_unless : Option GoError → Effect Event (Option GoError)
  unfolding work
  work_unless (some over) = pure (some over)
  work_unless none = do emit command_started; result ← work; emit command_finished; pure result

-- ClassificationWorkerHandler.Handle
unfoldable pub worker_handle : WorkerEnvironment → Protobuf → UuidLibrary → Text → Text → Handler
unfolding work_unless
worker_handle env pb lib command_topic result_topic m =
    ask env.outside.context_error >>= work_unless env pb lib command_topic result_topic m
