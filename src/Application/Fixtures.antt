-- ===== src/Application/Fixtures.antt =====
-- internal/application: a command, its run and its result, for the tests.
pub mod Libraries
use variable_star_classifica.Prelude.{
  ℕ, ◌≡◌, refl, true, false, List, [], ◌∷◌, ◌++◌, none, some, Text, codes, ℤ, pos,
}
use variable_star_classifica.Prelude.Effects.{World}
use variable_star_classifica.Errors.{ok}
use variable_star_classifica.Application.Proto.{
  CandidateEvent, ClassificationCommand, ClassificationResult, Protobuf, empty_command,
  empty_result,
}
use variable_star_classifica.Application.Messaging.{OutboundMessage, InboundMessage, Delivers}
use variable_star_classifica.Application.Candidates.{
  CandidateEventInput, created, ClassificationPolicyDecision, realtime, no_trace,
}
use variable_star_classifica.Application.Commands.{classification_command_trace_context}
use variable_star_classifica.Application.Results.{build_classification_result_message}
use variable_star_classifica.Application.Handlers.{Environment, Event}
use variable_star_classifica.Application.Inputs.{ClassificationOutput}
use variable_star_classifica.Application.Probabilities.{
  map_coarse_probabilities, map_fine_probabilities, map_leaf_probabilities,
}
use variable_star_classifica.Domain.Identity.{execution_mode_production}
use variable_star_classifica.Domain.Classification.{
  ClassificationRun, coarse_source_reused_previous,
}
pub use variable_star_classifica.Application.Fixtures.Libraries.{
  KnownUuid, job_uuid, run_uuid, earlier_uuid, uuid_text, hash_of, parse_known,
  parse_known-uuid_text, known_uuids, known_uuids-tokens, Command-discrete, Result-discrete,
  marshal_known, unmarshal_known, unmarshal_known-marshal_known, marshal_known-known, codec,
}

-- A candidate with twenty-one epochs, and the command for it.
abbrev pub candidate : CandidateEventInput
candidate = record {
  event_id = codes "event-1";
  event_type = created;
  object_id = codes "ZTF18";
  candidate_revision = pos 1;
  light_curve_revision = pos 4;
  eligible_epoch_count = 21;
  occurred_at = pos 1000;
  producer = codes "broker";
  upstream_pipeline_version = codes "v1";
  trace_context = no_trace;
}

abbrev pub candidate_event : CandidateEvent ℤ
candidate_event = record {
  event_id = codes "event-1";
  event_type = pos 1;
  object_id = codes "ZTF18";
  candidate_revision = pos 1;
  light_curve_revision = pos 4;
  eligible_epoch_count = 21;
  occurred_at = some (pos 1000);
  producer = codes "broker";
  upstream_pipeline_version = codes "v1";
  trace_context = none;
}

abbrev pub decision : ClassificationPolicyDecision
decision = record {
  should_classify = true;
  model_bundle_version = codes "bundle-1";
  execution_mode = execution_mode_production;
  priority = realtime;
  deadline_at = none;
}

abbrev pub the_command : ClassificationCommand ℤ
the_command = record {
  job_id = codes "job-1";
  object_id = codes "ZTF18";
  candidate_revision = pos 1;
  light_curve_revision = pos 4;
  declared_eligible_epoch_count = 21;
  model_bundle_version = codes "bundle-1";
  execution_mode = pos 1;
  priority = pos 1;
  created_at = some (pos 1000);
  deadline_at = none;
  trace_context = none;
}

-- The run of that command: so many epochs that the coarse probabilities of an earlier run are reused.
abbrev pub five_zeros : List ℕ
five_zeros = 0 ∷ 0 ∷ 0 ∷ 0 ∷ 0 ∷ []

abbrev pub half : ℕ
half = 0x3f000000

abbrev pub the_output : ClassificationOutput
the_output = record {
  coarse_probabilities = 0 ∷ half ∷ five_zeros;
  conditional_fine_probabilities = five_zeros ++ five_zeros;
  leaf_probabilities = 0 ∷ half ∷ (five_zeros ++ five_zeros);
  xgboost_executed = false;
}

abbrev pub the_run : ClassificationRun
the_run = record {
  run_id = codes "run-1";
  job_id = codes "job-1";
  object_id = codes "ZTF18";
  candidate_revision = pos 1;
  light_curve_revision = pos 4;
  effective_epoch_count = 21;
  execution_mode = execution_mode_production;
  coarse_source_type = coarse_source_reused_previous;
  coarse_source_run_id = some (codes "run-0");
  coarse_source_light_curve_revision = pos 3;
  coarse_source_epoch_count = 12;
  xgboost_executed = false;
  model_bundle_version = codes "bundle-1";
  coarse_probabilities = the_output.coarse_probabilities;
  fine_conditional_probabilities = the_output.conditional_fine_probabilities;
  leaf_probabilities = the_output.leaf_probabilities;
  predicted_coarse_class = pos 30;
  predicted_leaf_class = pos 6002;
  completed_at = pos 2000;
  persisted_at = pos 0;
}

abbrev pub the_result : ClassificationResult ℤ
the_result = record {
  run_id = codes "run-1";
  job_id = codes "job-1";
  object_id = codes "ZTF18";
  candidate_revision = pos 1;
  light_curve_revision = pos 4;
  effective_epoch_count = 21;
  coarse_source_type = pos 2;
  coarse_source_run_id = some (codes "run-0");
  coarse_source_light_curve_revision = pos 3;
  coarse_source_epoch_count = 12;
  xgboost_executed = false;
  versions = some (codes "bundle-1");
  coarse_probabilities = some (map_coarse_probabilities the_output.coarse_probabilities);
  fine_conditional_probabilities =
      some (map_fine_probabilities the_output.conditional_fine_probabilities);
  leaf_probabilities = some (map_leaf_probabilities the_output.leaf_probabilities);
  predicted_coarse_class = pos 30;
  predicted_leaf_class = pos 6002;
  completed_at = some (pos 2000);
  trace_context = none;
  execution_mode = pos 1;
}

abbrev pub plain_protobuf : Protobuf
plain_protobuf = record {
  Timestamp = ℤ;
  new_timestamp = λ t. t;
  check_valid = λ t. none;
  as_time = λ t. t;
  as_time-new_timestamp = λ t. refl;
  unmarshal_event = λ t. ok candidate_event;
  commands = codec Command-discrete empty_command the_command (codes "command") refl;
  results = codec Result-discrete empty_result the_result (codes "result") refl;
}

abbrev pub command_topic : Text
command_topic = codes "commands"

abbrev pub result_topic : Text
result_topic = codes "results"

abbrev pub command_message : OutboundMessage
command_message = record {
  topic = command_topic;
  key = codes "ZTF18";
  value = codes "command";
  headers = [];
  timestamp = pos 0;
}

-- A published message as it is read.
abbrev pub as_read : OutboundMessage → InboundMessage
as_read o = record {
  topic = o.topic;
  partition = pos 0;
  offset = pos 7;
  key = o.key;
  value = o.value;
  headers = o.headers;
  timestamp = pos 5;
}

pub as_read-Delivers : (o : OutboundMessage) → Delivers o (as_read o)
as_read-Delivers o = record {
  same_topic = refl;
  same_key = refl;
  same_value = refl;
  same_headers = refl;
}

-- Brokers, timers and stores that never fail.
abbrev pub calm : Environment
calm = record { context_error = λ t. none; woken_by = λ t. none; publish = λ o t. none }

abbrev pub at_start : World Event
at_start = record { tick = 0; trace = [] }

pub result_is_marshalled :
    marshal_known Result-discrete empty_result the_result (codes "result") refl the_result
    ≡ ok (codes "result")
result_is_marshalled =
    marshal_known-known Result-discrete empty_result the_result (codes "result") refl

abbrev pub result_message : OutboundMessage
result_message = record {
  topic = result_topic;
  key = codes "ZTF18";
  value = codes "result";
  headers = [];
  timestamp = pos 2000;
}

-- The result message of the run.
pub result_is_built :
    build_classification_result_message known_uuids plain_protobuf result_topic the_run no_trace []
    ≡ ok result_message
unfolding build_classification_result_message classification_command_trace_context
result_is_built = rw result_is_marshalled refl
