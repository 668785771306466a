-- ===== src/Kafka/Records.antt =====
-- What internal/adapter/kafka uses of github.com/twmb/franz-go/pkg/kgo: records, and what a poll
-- reports.
use variable_star_classifica.Prelude.{Bool, List, [], ◌∷◌, Option, none, some, Text, ℤ, map}
use variable_star_classifica.Errors.{GoError, wrap, message, Result, ok, err, ◌>>=◌}
use variable_star_classifica.Application.Messaging.{Time, MessageHeader, InboundMessage}
use variable_star_classifica.Kafka.Tracker.{PartitionKey}

-- kgo.RecordHeader
pub record RecordHeader : Type 0 where
  pub key : Text
  pub value : Text

-- kgo.Record, as far as the program reads it
pub record KafkaRecord : Type 0 where
  pub topic : Text
  pub partition : ℤ  -- int32
  pub offset : ℤ  -- int64
  pub key : Text
  pub value : Text
  pub headers : List RecordHeader
  pub timestamp : Time

abbrev pub partition_key : KafkaRecord → PartitionKey
partition_key r = record { topic = r.topic; partition = r.partition }

-- kgo.Fetches: what Errors(), RecordIter() and IsClientClosed() report; a record may be nil.
pub record Fetches : Type 0 where
  pub errors : List GoError
  pub records : List (Option KafkaRecord)
  pub client_closed : Bool

abbrev header_from_record : RecordHeader → MessageHeader
header_from_record h = record { key = h.key; value = h.value }

-- inboundMessageFromRecord: an empty header list gives no headers.
unfoldable pub inbound_message_from_record : KafkaRecord → InboundMessage
inbound_message_from_record r = record {
  topic = r.topic;
  partition = r.partition;
  offset = r.offset;
  key = r.key;
  value = r.value;
  timestamp = r.timestamp;
  headers = map header_from_record r.headers;
}

-- firstFetchError
unfoldable pub first_fetch_error : Fetches → Option GoError
first_fetch_error fetches = elim fetches.errors [ [] ↦ none | e ∷ es ↦ some (wrap "poll Kafka" e) ]

collect_records : List (Option KafkaRecord) → Result (List KafkaRecord)
collect_records [] = ok []
collect_records (none ∷ rs) = err (message "poll Kafka message: nil record")
collect_records (some r ∷ rs) = do records ← collect_records rs; ok (r ∷ records)

-- recordsFromFetches
unfoldable pub records_from_fetches : Fetches → Result (List KafkaRecord)
unfolding collect_records
records_from_fetches fetches = collect_records fetches.records
