-- ===== src/Application/DeadLetters.antt =====
-- internal/application/classification_command_dlq.go, classification_result_dlq.go and
-- candidate_dlq.go: the messages that keep what cannot be processed. A header's value is the bytes of
-- its text; strconv.FormatInt is written out.
pub mod Recovery
use variable_star_classifica.Prelude.{
  ℕ, zero, suc, ◌+◌, ◌/◌, ◌%◌, ◌≡◌, refl, Bool, true, false, List, [], ◌∷◌, ◌++◌, String, Text,
  codes, eqb_text, if◌then◌else◌, ltb, ℤ, pos, negsuc, arith,
}
use variable_star_classifica.Errors.{
  ErrorClass, unspecified, retryable, permanent, cancelled, Operation, decode_command,
  prepare_input, resolve_bundle, classify, build_run, build_result, publish_result,
  build_command_dlq, publish_command_dlq, retry_wait, message, WorkerError, MessageError, Result,
  ok, err, ◌>>=◌, ◌>>◌, refuse_if,
}
use variable_star_classifica.Application.Messaging.{MessageHeader, OutboundMessage, InboundMessage}

-- ClassificationWorkerErrorClass.String
unfoldable pub class_string : ErrorClass → String
class_string retryable = "RETRYABLE"
class_string permanent = "PERMANENT"
class_string cancelled = "CANCELLED"
class_string unspecified = "UNSPECIFIED"

-- The texts of ClassificationWorkerOperation.
unfoldable pub operation_string : Operation → String
operation_string decode_command = "decode-command"
operation_string prepare_input = "prepare-input"
operation_string resolve_bundle = "resolve-serving-bundle"
operation_string classify = "classify"
operation_string build_run = "build-run"
operation_string build_result = "build-result"
operation_string publish_result = "publish-result"
operation_string build_command_dlq = "build-command-dlq"
operation_string publish_command_dlq = "publish-command-dlq"
operation_string retry_wait = "retry-wait"

-- The decimal digits of n, before what follows; the fuel is n itself.
unfoldable pub decimal : ℕ → ℕ → Text → Text
decimal zero n rest = (48 + n % 10) ∷ rest
decimal (suc fuel) n rest =
    let more = decimal fuel (n / 10) ((48 + n % 10) ∷ rest) in
    if ltb n 10 then (48 + n % 10) ∷ rest else more

-- strconv.FormatInt(n, 10)
unfoldable pub format_int : ℤ → Text
unfolding decimal
format_int (pos n) = decimal n n []
format_int (negsuc n) = 45 ∷ decimal (suc n) (suc n) []

abbrev pub header : String → Text → MessageHeader
header key value = record { key = codes key; value = value }

-- Where the message was read.
abbrev pub origin_headers : InboundMessage → List MessageHeader
origin_headers m =
    header "x-astro-original-topic" m.topic
    ∷ header "x-astro-original-partition" (format_int m.partition)
    ∷ header "x-astro-original-offset" (format_int m.offset)
    ∷ []

-- The topic, and the message as it came with the error's headers after its own.
abbrev pub dead_letter : Text → InboundMessage → List MessageHeader → OutboundMessage
dead_letter topic m metadata = record {
  topic = topic;
  key = m.key;
  value = m.value;
  headers = m.headers ++ metadata;
  timestamp = m.timestamp;
}

abbrev pub command_headers : WorkerError → InboundMessage → List MessageHeader
command_headers e m =
    header "x-astro-error-code" (codes e.code)
    ∷ header "x-astro-error-class" (codes (class_string e.class))
    ∷ header "x-astro-error-operation" (codes (operation_string e.operation))
    ∷ origin_headers m

abbrev pub is_permanent : ErrorClass → Bool
is_permanent permanent = true
is_permanent _ = false

-- BuildClassificationCommandDLQMessage
unfoldable pub build_command_dlq_message :
    Text → InboundMessage → WorkerError → Result OutboundMessage
build_command_dlq_message topic m e = do
  refuse_if (eqb_text topic []) (message "classification command DLQ topic must not be empty")
  refuse_if (if is_permanent e.class then false else true)
      (message "classification command DLQ requires a permanent worker error")
  refuse_if (eqb_text (codes e.code) [])
      (message "classification worker error code must not be empty")
  refuse_if (eqb_text (codes (operation_string e.operation)) [])
      (message "classification worker error operation must not be empty")
  ok (dead_letter topic m (command_headers e m))

abbrev pub field_headers : MessageError → InboundMessage → List MessageHeader
field_headers e m =
    header "x-astro-error-code" (codes e.code)
    ∷ header "x-astro-error-class" (codes "PERMANENT")
    ∷ header "x-astro-error-field" (codes e.field)
    ∷ origin_headers m

-- BuildClassificationResultDLQMessage
unfoldable pub build_result_dlq_message :
    Text → InboundMessage → MessageError → Result OutboundMessage
build_result_dlq_message topic m e = do
  refuse_if (eqb_text topic []) (message "classification result DLQ topic must not be empty")
  refuse_if (eqb_text (codes e.code) [])
      (message "classification result error code must not be empty")
  ok (dead_letter topic m (field_headers e m))

-- BuildCandidateDLQMessage
unfoldable pub build_candidate_dlq_message :
    Text → InboundMessage → MessageError → Result OutboundMessage
build_candidate_dlq_message topic m e = do
  refuse_if (eqb_text topic []) (message "candidate DLQ topic must not be empty")
  refuse_if (eqb_text (codes e.code) [])
      (message "permanent candidate message error code must not be empty")
  ok (dead_letter topic m (header "x-astro-error-code" (codes e.code) ∷ origin_headers m))
