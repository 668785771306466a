-- ===== src/Application/Runs/Fitting.antt =====
-- internal/application/classification_run_builder.go: the result writer decodes a run that was built.
use variable_star_classifica.Prelude.{
  ℕ, ◌<◌, ◌≡◌, ◌≢◌, ◌∙◌, ◌^◌, refl, sym, subst, ap, true, Bool, List, [], Option, none, some, Text,
  eqb_text_iff, ℤ, arith,
}
use variable_star_classifica.Errors.{ok, ◌>>◌}
use variable_star_classifica.Application.CoarseMode.{
  CoarseMode, unspecified_mode, compute_current, reuse_previous, compute_bootstrap,
}
use variable_star_classifica.Application.Commands.{is_present}
use variable_star_classifica.Application.Runs.{
  CoarseSource, ClassificationRunBuildRequest, is_valid_run_execution_mode,
  validate_serving_bundle_for_run, source_for_mode, build_classification_run,
  map_classification_coarse_source, run_from,
}
use variable_star_classifica.Application.ResultRules.{validate_decoded_classification_run}
use variable_star_classifica.Application.Runs.Validity.{
  IsBuilt, prepared-IsCounted, build-IsBuilt, build-validated,
}
use variable_star_classifica.Application.Messaging.{
  MessageHeader, OutboundMessage, InboundMessage, Delivers,
}
use variable_star_classifica.Application.Proto.{TraceContext, Protobuf}
use variable_star_classifica.Application.Results.{
  validate_identity, build_classification_result_message, decode_classification_result_message,
}
use variable_star_classifica.Application.Results.RoundTrip.{
  FitsMessage, IsCanonicalUuid, decode-build_result,
}
use variable_star_classifica.Domain.Identity.{UuidLibrary, JobIdentity, generate_job_id}
use variable_star_classifica.Domain.Classification.{ClassificationRun, HasArrays}
use variable_star_classifica.Storage.Repository.{CompatibleCoarseResult}

-- The id of a mapped source, if it has one, is canonical.
source-canonical :
    (lib : UuidLibrary) (mode : CoarseMode) (reused : Option CompatibleCoarseResult)
    (probabilities executed : Bool) (current : ℤ) (count : ℕ) (source : CoarseSource)
    → ((r : CompatibleCoarseResult) → reused ≡ some r → IsCanonicalUuid lib r.source_run_id)
    → source_for_mode mode reused probabilities executed current count ≡ ok source
    → ((s : Text) → source.source_run_id ≡ some s → IsCanonicalUuid lib s)
      × (source.source_type < 2 ^ 8)
unfolding source_for_mode
source-canonical lib unspecified_mode reused probabilities executed current count source known h =
    absurd (cc h)
source-canonical lib compute_current reused probabilities executed current count source known h =
    (λ s e. absurd (ground arith), ground arith)
source-canonical lib reuse_previous none probabilities executed current count source known h =
    absurd (ground arith)
source-canonical lib reuse_previous (some r) probabilities executed current count source known h =
    let same : source.source_run_id ≡ some r.source_run_id = ground arith in
    (λ s e. subst (IsCanonicalUuid lib) (cc (same, e)) (known r refl), ground arith)
source-canonical lib compute_bootstrap reused probabilities executed current count source known h =
    (λ s e. absurd (ground arith), ground arith)

-- The identity of a run to build.
abbrev pub identity_of_request : ClassificationRunBuildRequest → JobIdentity
identity_of_request request = record {
  object_id = request.prepared.revision.object_id;
  light_curve_revision = request.prepared.revision.revision;
  model_bundle_version = request.prepared.selection.model_bundle.model_bundle_version;
  execution_mode = request.execution_mode;
}

module _ (lib : UuidLibrary) (request : ClassificationRunBuildRequest) (run : ClassificationRun)
    (b : IsBuilt lib request run) (arrays : HasArrays run) where
  abbrev made : ClassificationRun
  made = run_from request b.run_id b.count b.source

  serving-same :
      (prepared serving : Text)
      → validate_serving_bundle_for_run prepared serving ≡ ok tt
      → serving ≡ prepared
  unfolding validate_serving_bundle_for_run
  serving-same prepared serving h =
      ground (arith, eqb_text_iff serving prepared, eqb_text_iff prepared serving)

  module _ (job : generate_job_id lib (identity_of_request request) ≡ ok request.job_id) where
    with_version : Text → JobIdentity
    with_version version = record (identity_of_request request) { model_bundle_version = version }

    made-job : generate_job_id lib (with_version request.serving_bundle) ≡ ok request.job_id
    unfolding with_version
    made-job =
        ap (λ v. generate_job_id lib (with_version v))
          (serving-same _ request.serving_bundle b.bundle)
        ∙ job

    made-identity : validate_identity lib made.object_id made ≡ ok tt
    unfolding validate_identity with_version
    made-identity =
        rw
          (
            (eqb_text_iff made.object_id made.object_id).1 refl,
            made-job,
            (eqb_text_iff request.job_id request.job_id).1 refl,
            b.with_id,
            (eqb_text_iff b.run_id b.run_id).1 refl,
          )
          (subst (λ r. validate_decoded_classification_run r ≡ ok tt) b.is_run
            (build-validated lib request run b arrays))

    build-identity : validate_identity lib run.object_id run ≡ ok tt
    build-identity =
        subst (λ r. validate_identity lib r.object_id r ≡ ok tt) (sym b.is_run) made-identity

  module _
      (known : (r : CompatibleCoarseResult)
        → request.prepared.selection.reused_coarse ≡ some r
        → IsCanonicalUuid lib r.source_run_id) where
    mode-fits : (mode : ℕ) → is_valid_run_execution_mode mode ≡ true → mode < 2 ^ 8
    unfolding is_valid_run_execution_mode
    mode-fits mode h = ground arith

    sourced :
        ((s : Text) → b.source.source_run_id ≡ some s → IsCanonicalUuid lib s)
        × (b.source.source_type < 2 ^ 8)
    unfolding map_classification_coarse_source
    sourced =
        source-canonical lib request.prepared.selection.mode
          request.prepared.selection.reused_coarse
          (is_present request.prepared.input.reused_coarse_probabilities)
          request.output.xgboost_executed request.prepared.revision.revision b.count b.source known
          b.mapped

    made-FitsMessage : FitsMessage lib made
    made-FitsMessage = record {
      arrays = subst HasArrays b.is_run arrays;
      mode = mode-fits request.execution_mode b.mode;
      source_type = sourced.1;
      source = sourced.0;
      not_stored = refl;
      object = λ e. absurd (
          cc (
            (prepared-IsCounted request.prepared b.count b.prepared).object,
            (eqb_text_iff made.object_id []).1 e,
          ));
    }

    -- A run that was built fits into a result message.
    build-FitsMessage : FitsMessage lib run
    build-FitsMessage = subst (FitsMessage lib) (sym b.is_run) made-FitsMessage

-- If BuildClassificationRun returned a run for the job of its object, revision, bundle and mode,
-- with arrays of the model's sizes, a completion time that a Timestamp can hold, and a reused
-- source, if any, whose id is the canonical text of a UUID other than nil, then the result writer
-- decodes the run and the trace context unchanged from its delivered result message: every check of
-- the decoder passes, those of the key, the job ID, the run ID, the predicted classes and the
-- relations of the coarse source among them.
pub build_classification_run-decode_result :
    (lib : UuidLibrary) (pb : Protobuf) (request : ClassificationRunBuildRequest)
    (run : ClassificationRun) (trace : TraceContext) (topic : Text) (headers : List MessageHeader)
    (o : OutboundMessage) (m : InboundMessage)
    → build_classification_run lib request ≡ ok run
    → HasArrays run
    → generate_job_id lib (identity_of_request request) ≡ ok request.job_id
    → ((r : CompatibleCoarseResult)
        → request.prepared.selection.reused_coarse ≡ some r
        → IsCanonicalUuid lib r.source_run_id)
    → pb.check_valid (pb.new_timestamp request.completed_at) ≡ none
    → topic ≢ []
    → build_classification_result_message lib pb topic run trace headers ≡ ok o
    → Delivers o m
    → decode_classification_result_message lib pb topic m
      ≡ ok (record { run = run; trace_context = trace })
build_classification_run-decode_result lib pb request run trace topic headers o m h arrays job known
      valid named message d =
    let b = build-IsBuilt lib request run h in
    decode-build_result lib pb run trace (build-FitsMessage lib request run b arrays known)
      (subst (λ (r : ClassificationRun). pb.check_valid (pb.new_timestamp r.completed_at) ≡ none)
        (sym b.is_run) valid)
      topic headers o m named message d
    ∙ ap (λ checked. checked >> ok (record { run = run; trace_context = trace }))
        (build-identity lib request run b arrays job)
