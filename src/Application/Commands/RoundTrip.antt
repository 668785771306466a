-- ===== src/Application/Commands/RoundTrip.antt =====
-- internal/application/classification_command.go and classification_command_decode.go: the worker reads
-- the command that was built.
use variable_star_classifica.Prelude.{
  ◌≡◌, ◌∙◌, refl, sym, subst, ap, inl, inr, Bool-cases, false, List, [], none, some, Text, eqb_text,
  eqb_text_iff, eqb_text_no, trim_space, ltb, ℤ, pos, eqb_ℤ, leb_ℤ, arith, IsToken,
  trim_space-visible, contains_nul-visible,
}
use variable_star_classifica.Errors.{Result, ok, value_or}
use variable_star_classifica.Application.Messaging.{
  MessageHeader, OutboundMessage, InboundMessage, Delivers,
}
use variable_star_classifica.Application.Proto.{
  TraceContext, ClassificationCommand, Protobuf, empty_command,
}
use variable_star_classifica.Application.Candidates.{
  CandidateEventInput, ClassificationPolicyDecision, ClassificationPriority, realtime,
  unspecified_priority, minimum_eligible_epoch_count, trace_or_empty, validate_required_string,
}
use variable_star_classifica.Application.Commands.{
  ClassificationCommandInput, built_command, input_identity, classification_command_execution_mode,
  classification_command_priority, classification_command_trace_context,
  classification_command_input_execution_mode, classification_command_input_priority, created_time,
  build_classification_command_message, input_from_command, decode_classification_command_message,
}
use variable_star_classifica.Domain.Identity.{
  ExecutionMode, UuidLibrary, generate_job_id, job_payload,
}
use variable_star_classifica.Domain.Identity.Ids.{
  IsIdentityText, IsJobIdentity, generate_job_id-ok_iff, generate_job_id-inversion,
}

pub validate_required_string-identity :
    (s : Text) → IsIdentityText s → validate_required_string s ≡ none
unfolding validate_required_string
validate_required_string-identity s h =
    ground (arith, eqb_text_iff s [], eqb_text_iff (trim_space s) s)

pub validate_required_string-token : (s : Text) → IsToken s → validate_required_string s ≡ none
unfolding validate_required_string
validate_required_string-token s h = ground (
  arith,
  eqb_text_iff s [],
  eqb_text_iff (trim_space s) s,
  trim_space-visible s h.visible,
  contains_nul-visible s h.visible,
)

mode-round_trip :
    (mode : ExecutionMode) (z : ℤ)
    → classification_command_execution_mode mode ≡ ok z
    → classification_command_input_execution_mode z ≡ ok mode
unfolding classification_command_execution_mode classification_command_input_execution_mode
mode-round_trip mode z h = ground arith

priority-round_trip :
    (p : ClassificationPriority) (z : ℤ)
    → classification_command_priority p ≡ ok z
    → classification_command_input_priority z ≡ ok p
unfolding classification_command_priority classification_command_input_priority
priority-round_trip realtime z h = ground arith
priority-round_trip unspecified_priority z h = absurd (cc h)

pub trace-round_trip :
    (trace : TraceContext) → trace_or_empty (classification_command_trace_context trace) ≡ trace
unfolding classification_command_trace_context
trace-round_trip trace = ground (
  arith,
  eqb_text_iff trace.trace_id [],
  eqb_text_iff trace.correlation_id [],
  eqb_text_iff trace.causation_id [],
)

-- What the worker is to make of a candidate and a decision.
abbrev pub command_input_for :
    Text → CandidateEventInput → ClassificationPolicyDecision → ClassificationCommandInput
command_input_for job input decision = record {
  job_id = job;
  object_id = input.object_id;
  candidate_revision = input.candidate_revision;
  light_curve_revision = input.light_curve_revision;
  declared_eligible_epoch_count = input.eligible_epoch_count;
  model_bundle_version = decision.model_bundle_version;
  execution_mode = decision.execution_mode;
  priority = decision.priority;
  created_at = input.occurred_at;
  trace_context = input.trace_context;
}

object-ok :
    {T : Type 0} (a b : ClassificationCommand T)
    → ◌≡◌ {A = Result (ClassificationCommand T)} (ok a) (ok b)
    → b.object_id ≡ a.object_id
object-ok a b h = cc h

module _ (pb : Protobuf) (lib : UuidLibrary) where
  open pb use {new_timestamp, check_valid, as_time, as_time-new_timestamp, commands}

  module _ (topic : Text) (input : CandidateEventInput) (decision : ClassificationPolicyDecision)
      (headers : List MessageHeader) where
    abbrev mode : ℤ
    mode = value_or (pos 0) (classification_command_execution_mode decision.execution_mode)

    abbrev priority : ℤ
    priority = value_or (pos 0) (classification_command_priority decision.priority)

    abbrev pub candidate_job : Text
    candidate_job = value_or [] (generate_job_id lib (input_identity input decision))

    abbrev command : ClassificationCommand pb.Timestamp
    command = built_command pb lib input decision candidate_job mode priority

    -- What is known of a command message that was built.
    record Built (o : OutboundMessage) : Type 0 where
      revision : leb_ℤ input.candidate_revision (pos 0) ≡ false
      enough : ltb input.eligible_epoch_count minimum_eligible_epoch_count ≡ false
      occurred : eqb_ℤ input.occurred_at (pos 0) ≡ false
      with_topic : eqb_text topic [] ≡ false
      with_mode : classification_command_execution_mode decision.execution_mode ≡ ok mode
      with_priority : classification_command_priority decision.priority ≡ ok priority
      with_job : generate_job_id lib (input_identity input decision) ≡ ok candidate_job
      valid : check_valid (new_timestamp input.occurred_at) ≡ none
      marshalled : commands.marshal command ≡ ok o.value
      same_topic : o.topic ≡ topic
      same_key : o.key ≡ input.object_id

    build-Built :
        (o : OutboundMessage)
        → build_classification_command_message pb lib topic input decision headers ≡ ok o
        → Built o
    unfolding build_classification_command_message
    build-Built o h = record {
      revision = ground arith;
      enough = ground arith;
      occurred = ground arith;
      with_topic = ground arith;
      with_mode = ground arith;
      with_priority = ground arith;
      with_job = ground arith;
      valid = ground arith;
      marshalled = ground arith;
      same_topic = ground arith;
      same_key = ground arith;
    }

    pub build-candidate_job :
        (o : OutboundMessage)
        → build_classification_command_message pb lib topic input decision headers ≡ ok o
        → generate_job_id lib (input_identity input decision) ≡ ok candidate_job
    build-candidate_job o h = (build-Built o h).with_job

    module _ (o : OutboundMessage) (b : Built o)
        (ids : (u : lib.Uuid) → IsToken (lib.to_string u)) where
      identity : IsJobIdentity (input_identity input decision)
      identity =
          (generate_job_id-ok_iff lib (input_identity input decision)).0 (candidate_job, b.with_job)

      job-IsToken : IsToken candidate_job
      job-IsToken =
          subst IsToken
            (sym (generate_job_id-inversion lib (input_identity input decision) b.with_job).1)
            (ids (lib.new_sha1 lib.name_space_url (job_payload (input_identity input decision))))

      created : created_time pb lib (some (new_timestamp input.occurred_at)) ≡ ok input.occurred_at
      unfolding created_time
      created = rw (b.valid, as_time-new_timestamp, b.occurred)

      positive : leb_ℤ input.light_curve_revision (pos 0) ≡ false
      positive = ground (arith, identity.revision)

      input_from_built :
          input_from_command pb lib input.object_id command
          ≡ ok (command_input_for candidate_job input decision)
      unfolding input_from_command
      input_from_built = rw (
        validate_required_string-token candidate_job job-IsToken,
        validate_required_string-identity input.object_id identity.object,
        b.revision,
        positive,
        b.enough,
        validate_required_string-identity decision.model_bundle_version identity.bundle,
        mode-round_trip decision.execution_mode mode b.with_mode,
        priority-round_trip decision.priority priority b.with_priority,
        created,
        (eqb_text_iff input.object_id input.object_id).1 refl,
        b.with_job,
        (eqb_text_iff candidate_job candidate_job).1 refl,
        trace-round_trip input.trace_context,
      )

      not_empty : eqb_text o.value [] ≡ false
      not_empty = elim (Bool-cases (eqb_text o.value [])) [
        | inr other ↦ other
        | inl same ↦ absurd (
            identity.object.not_empty (
              object-ok empty_command command (
                sym commands.unmarshal_nothing
                ∙ commands.unmarshal-marshal command []
                    (b.marshalled ∙ ap ok ((eqb_text_iff o.value []).0 same)))))
      ]

    -- If UUIDs print as visible ASCII characters, then the worker decodes every command message that
    -- was built and delivered, whatever the partition, the offset and the timestamp, to the candidate_job ID,
    -- the candidate's fields and the policy's decision that it was built from.
    pub decode-build_command :
        (o : OutboundMessage) (m : InboundMessage)
        → ((u : lib.Uuid) → IsToken (lib.to_string u))
        → build_classification_command_message pb lib topic input decision headers ≡ ok o
        → Delivers o m
        → (generate_job_id lib (input_identity input decision) ≡ ok candidate_job)
          × (decode_classification_command_message pb lib topic m
              ≡ ok (command_input_for candidate_job input decision))
    unfolding decode_classification_command_message
    decode-build_command o m ids h d =
        let b = build-Built o h in
        (
          b.with_job,
          rw (
            d.same_topic,
            d.same_key,
            d.same_value,
            b.same_topic,
            b.same_key,
            b.with_topic,
            (eqb_text_iff topic topic).1 refl,
            eqb_text_no input.object_id [] (identity o b ids).object.not_empty,
            not_empty o b ids,
            commands.unmarshal-marshal command o.value b.marshalled,
            input_from_built o b ids,
          ),
        )
