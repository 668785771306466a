-- ===== src/Application/Handlers/Worker/Publishing.antt =====
-- internal/application/classification_worker.go: what the worker's nil means for the result writer.
use variable_star_classifica.Prelude.{
  ℕ, ◌≡◌, ◌≢◌, refl, subst, List, [], ◌∷◌, Option, none, some, Text, ℤ,
}
use variable_star_classifica.Prelude.Effects.{World}
use variable_star_classifica.Errors.{
  GoError, Operation, decode_command, prepare_input, resolve_bundle, classify, build_run,
  build_result, Result, ok, err,
}
use variable_star_classifica.Application.Messaging.{
  Time, OutboundMessage, InboundMessage, delivered,
}
use variable_star_classifica.Application.Proto.{Protobuf}
use variable_star_classifica.Application.Commands.{
  ClassificationCommandInput, decode_classification_command_message,
}
use variable_star_classifica.Application.Inputs.{
  ClassificationOutput, PreparedClassificationInput, prepare,
}
use variable_star_classifica.Application.Runs.{build_classification_run}
use variable_star_classifica.Application.Results.{
  build_classification_result_message, decode_classification_result_message,
}
use variable_star_classifica.Application.Handlers.{
  Stage, decode_stage, prepare_input_stage, resolve_bundle_stage, triton_stage, build_run_stage,
  build_result_stage, publish_result_stage, Event, published, command_finished, stage_finished,
}
use variable_star_classifica.Application.Handlers.Worker.{
  WorkerEnvironment, finish_stage, preparation_request, run_build_request, after_run_publish,
  publish_run, build_run_result, unless_ended, after_inference, classify_prepared,
  resolve_bundle_of, prepare_command, work, work_unless, worker_handle,
}
use variable_star_classifica.Domain.Identity.{UuidLibrary}
use variable_star_classifica.Domain.Classification.{ClassificationRun}
use variable_star_classifica.Application.Handlers.Worker.Decoding.{
  IsReliable, built, requested, decodes,
}

module _ (env : WorkerEnvironment) (pb : Protobuf) (lib : UuidLibrary) (command_topic : Text)
    (result_topic : Text) (m : InboundMessage) where
  -- The last events: the result of the command's run was published, and the writer decodes it to that
  -- run wherever it is delivered.
  pub data ResultPublished : List Event → Type 0 where
    by_result :
        {past : List Event} {o : OutboundMessage} (command : ClassificationCommandInput)
        (run : ClassificationRun)
        → decode_classification_command_message pb lib command_topic m ≡ ok command
        → run.job_id ≡ command.job_id
        → run.object_id ≡ command.object_id
        → run.light_curve_revision ≡ command.light_curve_revision
        → ((partition offset : ℤ) (timestamp : Time)
            → decode_classification_result_message lib pb result_topic
                (delivered o partition offset timestamp)
              ≡ ok (record { run = run; trace_context = command.trace_context }))
        → ResultPublished
            (command_finished ∷ stage_finished publish_result_stage ∷ published o none ∷ past)

  -- A nil of the work after CommandStarted.
  IfNil : Option GoError × World Event → Type 0
  IfNil (none, x) = ResultPublished (command_finished ∷ x.trace)
  IfNil (some e, x) = Unit

  -- A stage that fails returns an error.
  finish-IfNil :
      {A : Type 0} (stage : Stage) (operation : Operation) (result : Result A)
      (rest : A → World Event → Option GoError × World Event) (w : World Event)
      → ((a : A) (v : World Event) → result ≡ ok a → IfNil (rest a v))
      → IfNil (finish_stage stage operation result rest w)
  unfolding finish_stage IfNil
  finish-IfNil stage operation (err e) rest w h = tt
  finish-IfNil stage operation (ok a) rest w h = h a _ refl

  module _ (named : result_topic ≢ []) (reliable : IsReliable env pb lib)
      (command : ClassificationCommandInput)
      (decoded : decode_classification_command_message pb lib command_topic m ≡ ok command)
      (prepared : PreparedClassificationInput) (bundle : Text) (output : ClassificationOutput)
      (t0 t1 t2 : ℕ)
      (prepares : prepare (env.sources t0) (preparation_request command) ≡ ok prepared)
      (classifies : env.run_classifier command.job_id prepared.input t1 ≡ ok output)
      (run : ClassificationRun)
      (builds : build_classification_run lib
          (run_build_request command prepared bundle output (env.now t2))
        ≡ ok run) where
    published-IfNil :
        (o : OutboundMessage) (w : World Event)
        → build_classification_result_message lib pb result_topic run command.trace_context
            m.headers
          ≡ ok o
        → IfNil (publish_run env pb lib command_topic result_topic m o w)
    unfolding publish_run IfNil
    published-IfNil o w message = after-IfNil (env.outside.publish o w.tick) _
      where
        after-IfNil :
            (result : Option GoError) (v : World Event)
            → IfNil (
                after_run_publish env pb lib command_topic result_topic m result
                  (record v { trace = published o result ∷ v.trace }))
        after-IfNil (some e) v = tt
        after-IfNil none v =
            by_result command run decoded
              (rw
                (built env pb lib command_topic result_topic m named reliable command decoded
                  prepared bundle output t0 t1 t2 prepares classifies run builds).is_run
                refl)
              (rw
                (built env pb lib command_topic result_topic m named reliable command decoded
                  prepared bundle output t0 t1 t2 prepares classifies run builds).is_run
                (requested env pb lib command_topic result_topic m named reliable command decoded
                  prepared bundle output t0 t1 t2 prepares classifies run builds).object)
              (rw
                (built env pb lib command_topic result_topic m named reliable command decoded
                  prepared bundle output t0 t1 t2 prepares classifies run builds).is_run
                (requested env pb lib command_topic result_topic m named reliable command decoded
                  prepared bundle output t0 t1 t2 prepares classifies run builds).revision)
              (decodes env pb lib command_topic result_topic m named reliable command decoded
                prepared bundle output t0 t1 t2 prepares classifies run builds o message)

  -- The stages, from the last one to the first.
  module _ (named : result_topic ≢ []) (reliable : IsReliable env pb lib)
      (command : ClassificationCommandInput)
      (decoded : decode_classification_command_message pb lib command_topic m ≡ ok command) where
    module _ (prepared : PreparedClassificationInput) (t0 : ℕ)
        (prepares : prepare (env.sources t0) (preparation_request command) ≡ ok prepared)
        (bundle : Text) where
      classified-IfNil :
          (output : ClassificationOutput) (t1 : ℕ) (w : World Event)
          → env.run_classifier command.job_id prepared.input t1 ≡ ok output
          → IfNil (
              after_inference env pb lib command_topic result_topic m command prepared bundle output
                w)
      unfolding after_inference IfNil
      classified-IfNil output t1 w classifies = ended-IfNil (env.outside.context_error w.tick) _
        where
          ended-IfNil :
              (over : Option GoError) (v : World Event)
              → IfNil (
                  unless_ended env pb lib command_topic result_topic m command prepared bundle
                    output over v)
          ended-IfNil (some e) v = tt
          ended-IfNil none v =
              finish-IfNil build_run_stage build_run
                (build_classification_run lib
                  (run_build_request command prepared bundle output (env.now v.tick)))
                (build_run_result env pb lib command_topic result_topic m command) _
                (λ run v1 builds.
                  finish-IfNil build_result_stage build_result
                    (build_classification_result_message lib pb result_topic run
                      command.trace_context m.headers)
                    (publish_run env pb lib command_topic result_topic m) v1
                    (λ o v2 message.
                      published-IfNil named reliable command decoded prepared bundle output t0 t1
                        v.tick prepares classifies run builds o v2 message))

      classify-IfNil :
          (w : World Event)
          → IfNil
              (classify_prepared env pb lib command_topic result_topic m command prepared bundle w)
      unfolding classify_prepared
      classify-IfNil w =
          finish-IfNil triton_stage classify
            (env.run_classifier command.job_id prepared.input w.tick)
            (after_inference env pb lib command_topic result_topic m command prepared bundle) _
            (λ output v classifies. classified-IfNil output w.tick v classifies)

    prepare-IfNil :
        (w : World Event)
        → IfNil (prepare_command env pb lib command_topic result_topic m command w)
    unfolding prepare_command
    prepare-IfNil w =
        finish-IfNil prepare_input_stage prepare_input
          (prepare (env.sources w.tick) (preparation_request command))
          (resolve_bundle_of env pb lib command_topic result_topic m command) _
          (λ prepared v prepares.
            finish-IfNil resolve_bundle_stage resolve_bundle
              (env.resolve_serving_bundle command.model_bundle_version v.tick)
              (classify_prepared env pb lib command_topic result_topic m command prepared) _
              (λ bundle v1 resolves. classify-IfNil prepared w.tick prepares bundle v1))

  module _ (named : result_topic ≢ []) (reliable : IsReliable env pb lib) where
    work-IfNil : (w : World Event) → IfNil (work env pb lib command_topic result_topic m w)
    unfolding work
    work-IfNil w =
        finish-IfNil decode_stage decode_command
          (decode_classification_command_message pb lib command_topic m)
          (prepare_command env pb lib command_topic result_topic m) w
          (λ command v decoded. prepare-IfNil named reliable command decoded v)

    Done : Option GoError × World Event → Type 0
    Done (none, x) = ResultPublished x.trace
    Done (some e, x) = Unit

    finished-Done :
        (r : Option GoError × World Event)
        → IfNil r
        → Done (r.0, record r.1 { trace = command_finished ∷ r.1.trace })
    unfolding IfNil Done
    finished-Done (none, x) h = h
    finished-Done (some e, x) h = tt

    unless-Done :
        (over : Option GoError) (w : World Event)
        → Done (work_unless env pb lib command_topic result_topic m over w)
    unfolding work_unless
    unless-Done (some e) w = unfold Done in tt
    unless-Done none w = finished-Done _ (work-IfNil _)

    -- If the classifier returns vectors of the model's sizes, the clock times that a Timestamp can
    -- hold and the repository source ids that are canonical texts of UUIDs other than nil, then the
    -- worker returns nil only when the result of the command's run has just been published: the run
    -- has the job, the object and the revision of the command, and the result writer decodes the
    -- message, wherever it is delivered, to exactly that run and the command's trace context, so
    -- that no acknowledged command yields a result that the writer refuses.
    pub worker_handle-ResultPublished :
        (w x : World Event)
        → worker_handle env pb lib command_topic result_topic m w ≡ (none, x)
        → ResultPublished x.trace
    unfolding worker_handle Done
    worker_handle-ResultPublished w x h =
        subst Done h (unless-Done (env.outside.context_error w.tick) _)
