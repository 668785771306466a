-- ===== src/Application/Handlers/Writer/Saving.antt =====
-- internal/application/classification_result_writer.go: what the writer's nil means.
use variable_star_classifica.Prelude.{
  ℕ, ◌≡◌, ◌∙◌, refl, sym, subst, ap, inl, inr, List, ◌∷◌, Option, none, some, Text, eqb_text_iff,
  arith,
}
use variable_star_classifica.Prelude.Effects.{World}
use variable_star_classifica.Errors.{GoError, Result, Result-cases, ok, err}
use variable_star_classifica.Application.Messaging.{InboundMessage}
use variable_star_classifica.Application.Proto.{Protobuf}
use variable_star_classifica.Application.ResultRules.{validate_decoded_classification_run}
use variable_star_classifica.Application.Results.{
  ClassificationResultInput, validate_identity, decode_classification_result_message,
}
use variable_star_classifica.Application.Handlers.{Event, saved, Environment}
use variable_star_classifica.Application.Handlers.Writer.{
  error_of, saver, timeout_saver, save_unless, after_save, save_decoded, write_unless,
  writer_handle,
}
use variable_star_classifica.Domain.Identity.{
  UuidLibrary, JobIdentity, generate_job_id, generate_run_id,
}
use variable_star_classifica.Domain.Classification.{ClassificationRun}
use variable_star_classifica.Storage.Repository.{SaveRunResult}

-- The identity that a run carries.
abbrev pub identity_of : ClassificationRun → JobIdentity
identity_of run = record {
  object_id = run.object_id;
  light_curve_revision = run.light_curve_revision;
  model_bundle_version = run.model_bundle_version;
  execution_mode = run.execution_mode;
}

-- A run whose ids are the ones of its content, which names the object of the key, and whose relations
-- hold.
pub record IsIdentified (lib : UuidLibrary) (key : Text) (run : ClassificationRun) : Type 0 where
  pub same_key : key ≡ run.object_id
  pub job : generate_job_id lib (identity_of run) ≡ ok run.job_id
  pub id : generate_run_id lib run.job_id ≡ ok run.run_id
  pub relations : validate_decoded_classification_run run ≡ ok tt

module _ (lib : UuidLibrary) (key : Text) (run : ClassificationRun) where
  pub validate_identity-IsIdentified :
      validate_identity lib key run ≡ ok tt → IsIdentified lib key run
  unfolding validate_identity
  validate_identity-IsIdentified h = elim (Result-cases (generate_job_id lib (identity_of run))) [
    | inr (e, p) ↦ absurd (ground arith)
    | inl (job, p) ↦
        let same : run.job_id ≡ job = ground (arith, eqb_text_iff run.job_id job) in
        elim (Result-cases (generate_run_id lib job)) [
          | inr (e, q) ↦ absurd (ground arith)
          | inl (id, q) ↦ record {
            same_key = ground (arith, eqb_text_iff key run.object_id);
            job = p ∙ ap ok (sym same);
            id =
                ap (generate_run_id lib) same
                ∙ q
                ∙ ap ok (sym (ground (arith, eqb_text_iff run.run_id id)));
            relations = ground arith;
          }
        ]
  ]

module _ (lib : UuidLibrary) (pb : Protobuf) (topic : Text) (m : InboundMessage)
    (input : ClassificationResultInput) where
  pub decode-IsIdentified :
      decode_classification_result_message lib pb topic m ≡ ok input
      → IsIdentified lib m.key input.run
  unfolding decode_classification_result_message
  decode-IsIdentified h = validate_identity-IsIdentified lib m.key input.run (ground arith)

module _ (env : Environment) (answers : ClassificationRun → ℕ → Result SaveRunResult)
    (pb : Protobuf) (lib : UuidLibrary) (topic : Text) (m : InboundMessage) where
  -- The last event is that the run of the message was saved.
  pub record IsSaved (trace : List Event) : Type 0 where
    pub input : ClassificationResultInput
    pub past : List Event
    pub decoded : decode_classification_result_message lib pb topic m ≡ ok input
    pub identified : IsIdentified lib m.key input.run
    pub last : trace ≡ saved input.run none ∷ past

  IfNil : Option GoError × World Event → Type 0
  IfNil (none, x) = IsSaved x.trace
  IfNil (some e, x) = Unit

  save-IfNil :
      (decoded : Result ClassificationResultInput) (w : World Event)
      → decode_classification_result_message lib pb topic m ≡ decoded
      → IfNil (save_decoded (timeout_saver env (saver answers)) decoded w)
  unfolding save_decoded timeout_saver IfNil
  save-IfNil (err e) w h = tt
  save-IfNil (ok input) w h = unless-IfNil (env.context_error w.tick) _
    where
      answered-IfNil :
          (result : Result SaveRunResult) (v : World Event)
          → IfNil
              (after_save result (record v { trace = saved input.run (error_of result) ∷ v.trace }))
      answered-IfNil (err e) v = tt
      answered-IfNil (ok result) v = record {
        input = input;
        past = v.trace;
        decoded = h;
        identified = decode-IsIdentified lib pb topic m input h;
        last = refl;
      }

      unless-IfNil :
          (over : Option GoError) (v : World Event)
          → IfNil (
              let (result, v') = save_unless (saver answers) input.run over v in
              after_save result v')
      unless-IfNil (some over) v = tt
      unless-IfNil none v = answered-IfNil (answers input.run v.tick) _

  unless-IfNil :
      (over : Option GoError) (w : World Event)
      → IfNil (write_unless (timeout_saver env (saver answers)) pb lib topic m over w)
  unfolding write_unless IfNil
  unless-IfNil (some over) w = tt
  unless-IfNil none w = save-IfNil (decode_classification_result_message lib pb topic m) w refl

  -- The result writer returns nil only when the repository has just saved the run that the message
  -- decodes to; and the ids of that run are the ones that its content determines, it belongs to the
  -- object of the message's key, and its relations hold.
  pub writer_handle-IsSaved :
      (w x : World Event)
      → writer_handle env (timeout_saver env (saver answers)) pb lib topic m w ≡ (none, x)
      → IsSaved x.trace
  unfolding writer_handle IfNil
  writer_handle-IsSaved w x h = subst IfNil h (unless-IfNil (env.context_error w.tick) _)
