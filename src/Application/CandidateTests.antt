-- ===== src/Application/CandidateTests.antt =====
-- internal/application: the theorems on a candidate and its command.
use variable_star_classifica.Prelude.{◌≡◌, refl, [], ◌∷◌, none, codes, trim_space, pos}
use variable_star_classifica.Errors.{ok}
use variable_star_classifica.Application.Proto.{empty_command}
use variable_star_classifica.Application.Messaging.{InboundMessage}
use variable_star_classifica.Application.Candidates.{
  decode_candidate_event_message, validate_required_string, candidate_event_type_from_proto,
  evaluate, candidate_from_event, occurred_time,
}
use variable_star_classifica.Application.Commands.{
  classification_command_execution_mode, classification_command_priority,
  classification_command_trace_context, build_classification_command_message,
  decode_classification_command_message, input_identity,
}
use variable_star_classifica.Application.Commands.RoundTrip.{
  candidate_job, command_input_for, decode-build_command,
}
use variable_star_classifica.Application.Handlers.{published}
use variable_star_classifica.Application.Handlers.Candidates.{
  CandidateHandler, candidate_handle, after_candidate_decode, after_decision, publish_if,
  publish_command, after_command_publish,
}
use variable_star_classifica.Application.Handlers.Candidates.Acknowledgement.{
  CandidateSettled, candidate_handle-Settled,
}
use variable_star_classifica.Domain.Identity.{
  generate_job_id, validate_job_identity, validate_identity_string, validate_execution_mode,
}
use variable_star_classifica.Application.Fixtures.{
  plain_protobuf, Command-discrete, as_read, as_read-Delivers, at_start, calm, candidate,
  command_message, command_topic, decision, marshal_known, marshal_known-known, the_command,
  known_uuids, known_uuids-tokens,
}

command_is_marshalled :
    marshal_known Command-discrete empty_command the_command (codes "command") refl the_command
    ≡ ok (codes "command")
command_is_marshalled =
    marshal_known-known Command-discrete empty_command the_command (codes "command") refl

job_is_made : generate_job_id known_uuids (input_identity candidate decision) ≡ ok (codes "job-1")
unfolding generate_job_id validate_job_identity validate_identity_string validate_execution_mode
    trim_space
job_is_made = refl

command_is_built :
    build_classification_command_message plain_protobuf known_uuids command_topic candidate decision
      []
    ≡ ok command_message
unfolding build_classification_command_message classification_command_execution_mode
    classification_command_priority classification_command_trace_context generate_job_id
    validate_job_identity validate_identity_string validate_execution_mode trim_space
command_is_built = rw command_is_marshalled refl

decode-build_command_example :
    (generate_job_id known_uuids (input_identity candidate decision)
      ≡ ok (candidate_job plain_protobuf known_uuids command_topic candidate decision []))
    × (decode_classification_command_message plain_protobuf known_uuids command_topic
          (as_read command_message)
        ≡ ok (
            command_input_for
              (candidate_job plain_protobuf known_uuids command_topic candidate decision [])
              candidate
              decision))
decode-build_command_example =
    decode-build_command plain_protobuf known_uuids command_topic candidate decision []
      command_message (as_read command_message) known_uuids-tokens command_is_built
      (as_read-Delivers command_message)

abbrev candidates : CandidateHandler
candidates = record {
  candidate_topic = codes "candidates";
  command_topic = command_topic;
  candidate_dlq_topic = codes "dead";
  policy = codes "bundle-1";
}

abbrev candidate_message : InboundMessage
candidate_message = record {
  topic = codes "candidates";
  partition = pos 0;
  offset = pos 3;
  key = codes "ZTF18";
  value = codes "event";
  headers = [];
  timestamp = pos 5;
}

candidate_is_handled :
    candidate_handle calm plain_protobuf known_uuids candidates candidate_message at_start
    ≡ (none, record { tick = 1; trace = published command_message none ∷ [] })
unfolding candidate_handle decode_candidate_event_message evaluate candidate_from_event
    occurred_time after_candidate_decode after_decision publish_if publish_command
    after_command_publish validate_required_string candidate_event_type_from_proto
    build_classification_command_message classification_command_execution_mode
    classification_command_priority classification_command_trace_context generate_job_id
    validate_job_identity validate_identity_string validate_execution_mode trim_space
candidate_is_handled = rw command_is_marshalled refl

candidate_handle-Settled_example :
    CandidateSettled calm plain_protobuf known_uuids candidates candidate_message
      (published command_message none ∷ [])
candidate_handle-Settled_example =
    candidate_handle-Settled calm plain_protobuf known_uuids candidates candidate_message
      known_uuids-tokens at_start (record { tick = 1; trace = published command_message none ∷ [] })
      candidate_is_handled
