-- ===== src/Application/Candidates.antt =====
-- internal/application/candidate.go and classification_policy.go: how a candidate event is read, and
-- whether it is to be classified.
use variable_star_classifica.Prelude.{
  ℕ, Bool, true, false, not, [], Option, none, some, String, Text, eqb_text, trim_space,
  contains_nul, ltb, if◌then◌else◌, ℤ, pos, leb_ℤ, eqb_ℤ,
}
use variable_star_classifica.Errors.{
  GoError, message, field_message, candidate_error, Result, ok, err, ◌>>=◌, ◌>>◌, refuse_if,
}
use variable_star_classifica.Application.Messaging.{Time, InboundMessage}
use variable_star_classifica.Application.Proto.{TraceContext, CandidateEvent, Protobuf}
use variable_star_classifica.Domain.Identity.{
  ExecutionMode, execution_mode_unspecified, execution_mode_production,
}

-- CandidateEventType
pub data CandidateEventType : Type 0 where
  unspecified_type created updated : CandidateEventType

-- ClassificationPriority
pub data ClassificationPriority : Type 0 where
  unspecified_priority realtime : ClassificationPriority

pub record CandidateEventInput : Type 0 where
  pub event_id : Text
  pub event_type : CandidateEventType
  pub object_id : Text
  pub candidate_revision : ℤ
  pub light_curve_revision : ℤ
  pub eligible_epoch_count : ℕ  -- uint32
  pub occurred_at : Time
  pub producer : Text
  pub upstream_pipeline_version : Text
  pub trace_context : TraceContext

abbrev pub minimum_eligible_epoch_count : ℕ
minimum_eligible_epoch_count = 3

abbrev pub no_trace : TraceContext
no_trace = record { trace_id = []; correlation_id = []; causation_id = [] }

-- The trace context of a message, if it has one.
abbrev pub trace_or_empty : Option TraceContext → TraceContext
trace_or_empty none = no_trace
trace_or_empty (some trace) = trace

-- validateRequiredCandidateString and validateRequiredClassificationCommandString
unfoldable pub validate_required_string : Text → Option GoError
validate_required_string value =
    if eqb_text value []
    then some (message "must not be empty")
    else if not (eqb_text (trim_space value) value)
    then some (message "must not contain leading or trailing whitespace")
    else if contains_nul value
    then some (message "must not contain NUL")
    else none

abbrev pub invalid_candidate_field : String → GoError → GoError
invalid_candidate_field field e = candidate_error "CANDIDATE_EVENT_INVALID" field e

-- if err := ...; err != nil { return invalidCandidateField(field, err) }
abbrev pub check_candidate_field : String → Option GoError → Result (Unit {0})
check_candidate_field field none = ok tt
check_candidate_field field (some e) = err (invalid_candidate_field field e)

unfoldable pub candidate_event_type_from_proto : ℤ → Result CandidateEventType
candidate_event_type_from_proto t =
    if eqb_ℤ t (pos 1)
    then ok created
    else if eqb_ℤ t (pos 2)
    then ok updated
    else err (
        candidate_error "CANDIDATE_EVENT_TYPE_UNSUPPORTED" "event_type"
          (message "value is not supported"))

abbrev unreadable_candidate : GoError → GoError
unreadable_candidate e = candidate_error "CANDIDATE_PROTO_MALFORMED" "value" e

module _ (pb : Protobuf) where
  open pb use {Timestamp, check_valid, as_time, unmarshal_event}

  abbrev unmarshalled : Result (CandidateEvent Timestamp) → Result (CandidateEvent Timestamp)
  unmarshalled (ok event) = ok event
  unmarshalled (err e) = err (unreadable_candidate e)

  -- occurred_at, present and valid.
  unfoldable pub occurred_time : Option Timestamp → Result Time
  occurred_time none = err (invalid_candidate_field "occurred_at" (message "must be present"))
  occurred_time (some stamp) = do
    check_candidate_field "occurred_at" (check_valid stamp)
    ok (as_time stamp)

  unfoldable pub candidate_from_event : Text → CandidateEvent Timestamp → Result CandidateEventInput
  unfolding candidate_event_type_from_proto occurred_time
  candidate_from_event key event = do
    event_type ← candidate_event_type_from_proto event.event_type
    check_candidate_field "event_id" (validate_required_string event.event_id)
    check_candidate_field "object_id" (validate_required_string event.object_id)
    refuse_if (leb_ℤ event.candidate_revision (pos 0))
        (invalid_candidate_field "candidate_revision" (message "must be greater than zero"))
    refuse_if (leb_ℤ event.light_curve_revision (pos 0))
        (invalid_candidate_field "light_curve_revision" (message "must be greater than zero"))
    refuse_if (ltb event.eligible_epoch_count minimum_eligible_epoch_count)
        (invalid_candidate_field "eligible_epoch_count" (message "must be at least"))
    refuse_if (not (eqb_text key event.object_id)) (
        candidate_error "CANDIDATE_KEY_MISMATCH" "key"
          (message "Kafka key does not match object_id"))
    occurred_at ← occurred_time event.occurred_at
    check_candidate_field "producer" (validate_required_string event.producer)
    check_candidate_field "upstream_pipeline_version"
        (validate_required_string event.upstream_pipeline_version)
    ok (record {
      event_id = event.event_id;
      event_type = event_type;
      object_id = event.object_id;
      candidate_revision = event.candidate_revision;
      light_curve_revision = event.light_curve_revision;
      eligible_epoch_count = event.eligible_epoch_count;
      occurred_at = occurred_at;
      producer = event.producer;
      upstream_pipeline_version = event.upstream_pipeline_version;
      trace_context = trace_or_empty event.trace_context;
    })

  -- DecodeCandidateEventMessage
  unfoldable pub decode_candidate_event_message : Text → InboundMessage → Result CandidateEventInput
  unfolding candidate_from_event
  decode_candidate_event_message expected m = do
    refuse_if (eqb_text expected []) (message "expected candidate topic must not be empty")
    refuse_if (not (eqb_text m.topic expected))
        (candidate_error "CANDIDATE_TOPIC_UNEXPECTED" "topic" (message "got, want"))
    refuse_if (eqb_text m.key [])
        (candidate_error "CANDIDATE_KEY_MISSING" "key" (message "must not be empty"))
    refuse_if (eqb_text m.value []) (unreadable_candidate (message "must not be empty"))
    event ← unmarshalled (unmarshal_event m.value)
    candidate_from_event m.key event

pub record ClassificationPolicyDecision : Type 0 where
  pub should_classify : Bool
  pub model_bundle_version : Text
  pub execution_mode : ExecutionMode
  pub priority : ClassificationPriority
  pub deadline_at : Option Time

-- The zero value, which says that nothing is to be done.
abbrev pub no_decision : ClassificationPolicyDecision
no_decision = record {
  should_classify = false;
  model_bundle_version = [];
  execution_mode = execution_mode_unspecified;
  priority = unspecified_priority;
  deadline_at = none;
}

-- A ClassificationPolicyV1 is its model bundle version; NewClassificationPolicyV1 with
-- validateClassificationPolicyString.
unfoldable pub new_classification_policy : Text → Result Text
new_classification_policy version = do
  refuse_if (eqb_text version []) (field_message "model bundle version" "must not be empty")
  refuse_if (not (eqb_text (trim_space version) version))
      (field_message "model bundle version" "must not contain leading or trailing whitespace")
  refuse_if (contains_nul version) (field_message "model bundle version" "must not contain NUL")
  ok version

abbrev pub is_supported_type : CandidateEventType → Bool
is_supported_type unspecified_type = false
is_supported_type _ = true

-- ClassificationPolicyV1.Evaluate
unfoldable pub evaluate : Text → CandidateEventInput → Result ClassificationPolicyDecision
evaluate version input = do
  refuse_if (eqb_text version []) (message "classification policy is not configured")
  refuse_if (not (is_supported_type input.event_type)) (message "unsupported candidate event type")
  if ltb input.eligible_epoch_count minimum_eligible_epoch_count
      then ok no_decision
      else ok (record {
        should_classify = true;
        model_bundle_version = version;
        execution_mode = execution_mode_production;
        priority = realtime;
        deadline_at = none;
      })
