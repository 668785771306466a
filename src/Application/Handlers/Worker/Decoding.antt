-- ===== src/Application/Handlers/Worker/Decoding.antt =====
-- internal/application/classification_worker.go: the result writer decodes the result that the worker
-- builds.
use variable_star_classifica.Prelude.{ℕ, ◌≡◌, ◌≢◌, sym, subst, [], none, some, Text, ℤ, length}
use variable_star_classifica.Errors.{ok}
use variable_star_classifica.Application.Messaging.{
  Time, OutboundMessage, InboundMessage, delivered, delivered-Delivers,
}
use variable_star_classifica.Application.Proto.{Protobuf}
use variable_star_classifica.Application.CoarseMode.{
  CoarseMode, unspecified_mode, compute_current, reuse_previous, compute_bootstrap, Ports, FitsMode,
}
use variable_star_classifica.Application.Commands.{
  ClassificationCommandInput, decode_classification_command_message,
}
use variable_star_classifica.Application.Commands.Job.{decode_command-job}
use variable_star_classifica.Application.Inputs.{
  ClassificationInput, ClassificationOutput, PreparedClassificationInput, prepare,
}
use variable_star_classifica.Application.Inputs.Preparation.{IsRequested, prepare-IsRequested}
use variable_star_classifica.Application.Runs.{
  ClassificationRunBuildRequest, build_classification_run,
}
use variable_star_classifica.Application.Runs.Validity.{IsBuilt, build-IsBuilt}
use variable_star_classifica.Application.Runs.Fitting.{
  identity_of_request, build_classification_run-decode_result,
}
use variable_star_classifica.Application.Results.{
  build_classification_result_message, decode_classification_result_message,
}
use variable_star_classifica.Application.Results.RoundTrip.{IsCanonicalUuid}
use variable_star_classifica.Application.Handlers.Worker.{
  WorkerEnvironment, preparation_request, run_build_request,
}
use variable_star_classifica.Domain.Identity.{UuidLibrary, generate_job_id}
use variable_star_classifica.Domain.Classification.{
  ClassificationRun, HasArrays, coarse_probability_count, conditional_fine_probability_count,
  leaf_probability_count,
}
use variable_star_classifica.Storage.Repository.{CompatibleCoarseQuery, CompatibleCoarseResult}

-- What the worker relies on: the classifier returns vectors of the model's sizes, the clock times that
-- a Timestamp can hold, and the repository source ids that are canonical texts of UUIDs other than nil.
pub record IsReliable (env : WorkerEnvironment) (pb : Protobuf) (lib : UuidLibrary) : Type 0 where
  pub coarse :
      (job : Text) (input : ClassificationInput) (t : ℕ) (out : ClassificationOutput)
      → env.run_classifier job input t ≡ ok out
      → length out.coarse_probabilities ≡ coarse_probability_count
  pub fine :
      (job : Text) (input : ClassificationInput) (t : ℕ) (out : ClassificationOutput)
      → env.run_classifier job input t ≡ ok out
      → length out.conditional_fine_probabilities ≡ conditional_fine_probability_count
  pub leaf :
      (job : Text) (input : ClassificationInput) (t : ℕ) (out : ClassificationOutput)
      → env.run_classifier job input t ≡ ok out
      → length out.leaf_probabilities ≡ leaf_probability_count
  pub clock : (t : ℕ) → pb.check_valid (pb.new_timestamp (env.now t)) ≡ none
  pub source :
      (t : ℕ) (query : CompatibleCoarseQuery) (r : CompatibleCoarseResult)
      → (env.sources t).ports.find query ≡ ok r
      → IsCanonicalUuid lib r.source_run_id

-- A reused source is one that the repository found.
reused-found :
    (ports : Ports) (object : Text) (target : ℤ) (count : ℕ) (version : Text) (mode : CoarseMode)
    (r : CompatibleCoarseResult)
    → FitsMode ports object target count version mode (some r)
    → (query : CompatibleCoarseQuery) × (ports.find query ≡ ok r)
reused-found ports object target count version unspecified_mode r f = absurd f
reused-found ports object target count version compute_current r f = absurd f
reused-found ports object target count version compute_bootstrap r f = absurd f
reused-found ports object target count version reuse_previous r (_, f) = (_, f.found)

module _ (env : WorkerEnvironment) (pb : Protobuf) (lib : UuidLibrary) (command_topic : Text)
    (result_topic : Text) (m : InboundMessage) where
  module _ (named : result_topic ≢ []) (reliable : IsReliable env pb lib)
      (command : ClassificationCommandInput)
      (decoded : decode_classification_command_message pb lib command_topic m ≡ ok command)
      (prepared : PreparedClassificationInput) (bundle : Text) (output : ClassificationOutput)
      (t0 t1 t2 : ℕ)
      (prepares : prepare (env.sources t0) (preparation_request command) ≡ ok prepared)
      (classifies : env.run_classifier command.job_id prepared.input t1 ≡ ok output)
      (run : ClassificationRun)
      (builds : build_classification_run lib
          (run_build_request command prepared bundle output (env.now t2))
        ≡ ok run) where
    abbrev pub build_request : ClassificationRunBuildRequest
    build_request = run_build_request command prepared bundle output (env.now t2)

    pub requested : IsRequested (env.sources t0) (preparation_request command) prepared
    requested = prepare-IsRequested (env.sources t0) (preparation_request command) prepared prepares

    pub built : IsBuilt lib build_request run
    built = build-IsBuilt lib build_request run builds

    has_arrays : HasArrays run
    has_arrays = subst HasArrays (sym built.is_run) (record {
      coarse = reliable.coarse command.job_id prepared.input t1 output classifies;
      fine = reliable.fine command.job_id prepared.input t1 output classifies;
      leaf = reliable.leaf command.job_id prepared.input t1 output classifies;
    })

    known :
        (r : CompatibleCoarseResult)
        → prepared.selection.reused_coarse ≡ some r
        → IsCanonicalUuid lib r.source_run_id
    known r h =
        let (query, found) =
          reused-found (env.sources t0).ports command.object_id command.light_curve_revision _
            command.model_bundle_version prepared.selection.mode r
            (subst
              (FitsMode (env.sources t0).ports command.object_id command.light_curve_revision _
                command.model_bundle_version prepared.selection.mode)
              h requested.selected.fits) in
        reliable.source t0 query r found

    with_job : generate_job_id lib (identity_of_request build_request) ≡ ok command.job_id
    with_job =
        rw (requested.object, requested.revision, requested.selected.same_version)
          (decode_command-job pb lib command_topic m command decoded)

    pub decodes :
        (o : OutboundMessage)
        → build_classification_result_message lib pb result_topic run command.trace_context
            m.headers
          ≡ ok o
        → (partition offset : ℤ) (timestamp : Time)
        → decode_classification_result_message lib pb result_topic
            (delivered o partition offset timestamp)
          ≡ ok (record { run = run; trace_context = command.trace_context })
    decodes o message partition offset timestamp =
        build_classification_run-decode_result lib pb build_request run command.trace_context
          result_topic m.headers o (delivered o partition offset timestamp) builds has_arrays
          with_job known (reliable.clock t2) named message
          (delivered-Delivers o partition offset timestamp)
