-- ===== src/Application/Commands.antt =====
-- internal/application/classification_command.go and classification_command_decode.go: the command
-- message that a candidate becomes, and how the worker reads it. Cloned headers are the headers.
pub mod RoundTrip
pub mod Job
use variable_star_classifica.Prelude.{
  ℕ, Bool, true, false, not, ◌&&◌, [], Option, none, some, String, Text, eqb_text, ltb, ◌==◌,
  if◌then◌else◌, ℤ, pos, leb_ℤ, eqb_ℤ, List,
}
use variable_star_classifica.Errors.{
  GoError, message, wrap, command_error, Result, ok, err, ◌>>=◌, ◌>>◌, check, context, refuse_if,
}
use variable_star_classifica.Application.Messaging.{
  Time, MessageHeader, OutboundMessage, InboundMessage,
}
use variable_star_classifica.Application.Proto.{
  TraceContext, ClassificationCommand, Codec, Protobuf,
}
use variable_star_classifica.Application.Candidates.{
  CandidateEventInput, ClassificationPriority, unspecified_priority, realtime,
  ClassificationPolicyDecision, minimum_eligible_epoch_count, is_supported_type, trace_or_empty,
  validate_required_string,
}
use variable_star_classifica.Domain.Identity.{
  JobIdentity, ExecutionMode, execution_mode_production, execution_mode_shadow,
  execution_mode_reprocess, UuidLibrary, generate_job_id,
}

unfoldable pub classification_command_execution_mode : ExecutionMode → Result ℤ
classification_command_execution_mode mode =
    if mode == execution_mode_production
    then ok (pos 1)
    else if mode == execution_mode_shadow
    then ok (pos 2)
    else if mode == execution_mode_reprocess
    then ok (pos 3)
    else err (message "unsupported execution mode")

unfoldable pub classification_command_priority : ClassificationPriority → Result ℤ
classification_command_priority realtime = ok (pos 1)
classification_command_priority unspecified_priority =
    err (message "unsupported classification priority")

-- The empty trace context is left out.
unfoldable pub classification_command_trace_context : TraceContext → Option TraceContext
classification_command_trace_context trace =
    if eqb_text trace.trace_id []
      && (eqb_text trace.correlation_id [] && eqb_text trace.causation_id [])
    then none
    else some trace

-- A pointer that is not nil.
abbrev pub is_present {ℓ} : {A : Type ℓ} → Option A → Bool
is_present none = false
is_present (some a) = true

abbrev pub input_identity : CandidateEventInput → ClassificationPolicyDecision → JobIdentity
input_identity input decision = record {
  object_id = input.object_id;
  light_curve_revision = input.light_curve_revision;
  model_bundle_version = decision.model_bundle_version;
  execution_mode = decision.execution_mode;
}

pub record ClassificationCommandInput : Type 0 where
  pub job_id : Text
  pub object_id : Text
  pub candidate_revision : ℤ
  pub light_curve_revision : ℤ
  pub declared_eligible_epoch_count : ℕ  -- uint32
  pub model_bundle_version : Text
  pub execution_mode : ExecutionMode
  pub priority : ClassificationPriority
  pub created_at : Time
  pub trace_context : TraceContext

abbrev pub invalid_command_field : String → GoError → GoError
invalid_command_field field e = command_error "COMMAND_FIELD_INVALID" field e

-- if err := ...; err != nil { return invalidClassificationCommandField(field, err) }
abbrev pub check_command_field : String → Option GoError → Result (Unit {0})
check_command_field field none = ok tt
check_command_field field (some e) = err (invalid_command_field field e)

unfoldable pub classification_command_input_execution_mode : ℤ → Result ExecutionMode
classification_command_input_execution_mode mode =
    if eqb_ℤ mode (pos 1)
    then ok execution_mode_production
    else if eqb_ℤ mode (pos 2)
    then ok execution_mode_shadow
    else if eqb_ℤ mode (pos 3)
    then ok execution_mode_reprocess
    else err (
        command_error "COMMAND_EXECUTION_MODE_UNSUPPORTED" "execution_mode"
          (message "value is not supported"))

unfoldable pub classification_command_input_priority : ℤ → Result ClassificationPriority
classification_command_input_priority priority =
    if eqb_ℤ priority (pos 1)
    then ok realtime
    else err
        (command_error "COMMAND_PRIORITY_UNSUPPORTED" "priority" (message "value is not supported"))

abbrev unreadable_command : GoError → GoError
unreadable_command e = command_error "COMMAND_PROTO_MALFORMED" "value" e

abbrev identity_checked : Result Text → Result Text
identity_checked (ok j) = ok j
identity_checked (err e) = err (invalid_command_field "identity" e)

module _ (pb : Protobuf) (lib : UuidLibrary) where
  open pb use {Timestamp, new_timestamp, check_valid, as_time, commands}

  abbrev pub built_command :
      CandidateEventInput
      → ClassificationPolicyDecision
      → Text
      → ℤ
      → ℤ
      → ClassificationCommand Timestamp
  built_command input decision job mode priority = record {
    job_id = job;
    object_id = input.object_id;
    candidate_revision = input.candidate_revision;
    light_curve_revision = input.light_curve_revision;
    declared_eligible_epoch_count = input.eligible_epoch_count;
    model_bundle_version = decision.model_bundle_version;
    execution_mode = mode;
    priority = priority;
    created_at = some (new_timestamp input.occurred_at);
    deadline_at = none;
    trace_context = classification_command_trace_context input.trace_context;
  }

  -- BuildClassificationCommandMessage
  unfoldable pub build_classification_command_message :
      Text
      → CandidateEventInput
      → ClassificationPolicyDecision
      → List MessageHeader
      → Result OutboundMessage
  build_classification_command_message topic input decision headers = do
    refuse_if (eqb_text topic []) (message "classification command topic must not be empty")
    refuse_if (not decision.should_classify)
        (message "classification policy decision does not require classification")
    refuse_if (not (is_supported_type input.event_type))
        (message "unsupported candidate event type")
    refuse_if (leb_ℤ input.candidate_revision (pos 0))
        (message "candidate revision must be greater than zero")
    refuse_if (ltb input.eligible_epoch_count minimum_eligible_epoch_count)
        (message "eligible epoch count must be at least")
    refuse_if (eqb_ℤ input.occurred_at (pos 0)) (message "candidate occurred_at must not be zero")
    refuse_if (is_present decision.deadline_at)
        (message "classification command deadline is not supported in policy v1")
    mode ← classification_command_execution_mode decision.execution_mode
    priority ← classification_command_priority decision.priority
    job ←
        context "generate classification job ID"
          (generate_job_id lib (input_identity input decision))
    context "invalid candidate occurred_at" (check (check_valid (new_timestamp input.occurred_at)))
    value ←
        context "marshal ClassificationCommand"
          (commands.marshal (built_command input decision job mode priority))
    ok (record {
      topic = topic;
      key = input.object_id;
      value = value;
      headers = headers;
      timestamp = pos 0;
    })

  abbrev command_unmarshalled :
      Result (ClassificationCommand Timestamp) → Result (ClassificationCommand Timestamp)
  command_unmarshalled (ok command) = ok command
  command_unmarshalled (err e) = err (unreadable_command e)

  -- created_at, present, valid and not zero.
  unfoldable pub created_time : Option Timestamp → Result Time
  created_time none = err (invalid_command_field "created_at" (message "must be present"))
  created_time (some stamp) = do
    check_command_field "created_at" (check_valid stamp)
    refuse_if (eqb_ℤ (as_time stamp) (pos 0))
        (invalid_command_field "created_at" (message "must not be zero"))
    ok (as_time stamp)

  abbrev pub command_identity : ClassificationCommand Timestamp → ExecutionMode → JobIdentity
  command_identity command mode = record {
    object_id = command.object_id;
    light_curve_revision = command.light_curve_revision;
    model_bundle_version = command.model_bundle_version;
    execution_mode = mode;
  }

  unfoldable pub input_from_command :
      Text → ClassificationCommand Timestamp → Result ClassificationCommandInput
  unfolding created_time
  input_from_command key command = do
    check_command_field "job_id" (validate_required_string command.job_id)
    check_command_field "object_id" (validate_required_string command.object_id)
    refuse_if (leb_ℤ command.candidate_revision (pos 0))
        (invalid_command_field "candidate_revision" (message "must be greater than zero"))
    refuse_if (leb_ℤ command.light_curve_revision (pos 0))
        (invalid_command_field "light_curve_revision" (message "must be greater than zero"))
    refuse_if (ltb command.declared_eligible_epoch_count minimum_eligible_epoch_count)
        (invalid_command_field "declared_eligible_epoch_count" (message "must be at least"))
    check_command_field "model_bundle_version"
        (validate_required_string command.model_bundle_version)
    mode ← classification_command_input_execution_mode command.execution_mode
    priority ← classification_command_input_priority command.priority
    created_at ← created_time command.created_at
    refuse_if (is_present command.deadline_at)
        (command_error "COMMAND_DEADLINE_UNSUPPORTED" "deadline_at" (message "is not supported"))
    refuse_if (not (eqb_text key command.object_id))
        (command_error "COMMAND_KEY_MISMATCH" "key" (message "kafka key does not match object_id"))
    expected ← identity_checked (generate_job_id lib (command_identity command mode))
    refuse_if (not (eqb_text command.job_id expected))
        (command_error "COMMAND_JOB_ID_MISMATCH" "job_id" (message "got, want deterministic value"))
    ok (record {
      job_id = expected;
      object_id = command.object_id;
      candidate_revision = command.candidate_revision;
      light_curve_revision = command.light_curve_revision;
      declared_eligible_epoch_count = command.declared_eligible_epoch_count;
      model_bundle_version = command.model_bundle_version;
      execution_mode = mode;
      priority = priority;
      created_at = created_at;
      trace_context = trace_or_empty command.trace_context;
    })

  -- DecodeClassificationCommandMessage
  unfoldable pub decode_classification_command_message :
      Text → InboundMessage → Result ClassificationCommandInput
  unfolding input_from_command
  decode_classification_command_message expected m = do
    refuse_if (eqb_text expected [])
        (message "expected classification command topic must not be empty")
    refuse_if (not (eqb_text m.topic expected))
        (command_error "COMMAND_TOPIC_UNEXPECTED" "topic" (message "got, want"))
    refuse_if (eqb_text m.key [])
        (command_error "COMMAND_KEY_MISSING" "key" (message "must not be empty"))
    refuse_if (eqb_text m.value []) (unreadable_command (message "must not be empty"))
    command ← command_unmarshalled (commands.unmarshal m.value)
    input_from_command m.key command
