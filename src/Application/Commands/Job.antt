-- ===== src/Application/Commands/Job.antt =====
-- internal/application/classification_command_decode.go: the job of a decoded command.
use variable_star_classifica.Prelude.{◌≡◌, ◌∙◌, sym, ap, inl, inr, Text, arith}
use variable_star_classifica.Errors.{Result-cases, ok}
use variable_star_classifica.Application.Messaging.{InboundMessage}
use variable_star_classifica.Application.Proto.{ClassificationCommand, Protobuf}
use variable_star_classifica.Application.Commands.{
  ClassificationCommandInput, classification_command_input_execution_mode, input_from_command,
  command_identity, decode_classification_command_message,
}
use variable_star_classifica.Domain.Identity.{UuidLibrary, JobIdentity, generate_job_id}

-- The identity that a decoded command carries.
abbrev pub identity_of_command : ClassificationCommandInput → JobIdentity
identity_of_command c = record {
  object_id = c.object_id;
  light_curve_revision = c.light_curve_revision;
  model_bundle_version = c.model_bundle_version;
  execution_mode = c.execution_mode;
}

module _ (pb : Protobuf) (lib : UuidLibrary) where
  open pb use {Timestamp, commands}

  input-job :
      (key : Text) (command : ClassificationCommand Timestamp) (c : ClassificationCommandInput)
      → input_from_command pb lib key command ≡ ok c
      → generate_job_id lib (identity_of_command c) ≡ ok c.job_id
  unfolding input_from_command
  input-job key command c h =
      elim (Result-cases (classification_command_input_execution_mode command.execution_mode)) [
        | inr (e, q) ↦ absurd (ground arith)
        | inl (mode, q) ↦
            elim (Result-cases (generate_job_id lib (command_identity pb lib command mode))) [
              | inr (e, r) ↦ absurd (ground arith)
              | inl (job, r) ↦
                  let same_job : c.job_id ≡ job = ground arith in
                  let same_identity : identity_of_command c ≡ command_identity pb lib command mode =
                    ground arith in
                  ap (generate_job_id lib) same_identity ∙ r ∙ ap ok (sym same_job)
            ]
      ]

  pub decode_command-job :
      (topic : Text) (m : InboundMessage) (c : ClassificationCommandInput)
      → decode_classification_command_message pb lib topic m ≡ ok c
      → generate_job_id lib (identity_of_command c) ≡ ok c.job_id
  unfolding decode_classification_command_message
  decode_command-job topic m c h = elim (Result-cases (commands.unmarshal m.value)) [
    | inr (e, q) ↦ absurd (ground arith)
    | inl (command, q) ↦ input-job m.key command c (ground arith)
  ]
