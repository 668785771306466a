-- ===== src/Kafka/Async.antt =====
-- internal/adapter/kafka/async_consumer.go, processBatch: the records of a batch are tracked, processed
-- by one goroutine to a group, and collected from a channel; only completed prefixes are committed.
-- The goroutines are the steps that a schedule chooses; nil records do not pass recordsFromFetches.
pub mod Schedule
pub mod Tracking
pub mod Collecting
pub mod Invariant
pub mod Start
pub mod Commit
pub mod Ordering
use variable_star_classifica.Prelude.{
  ℕ, zero, suc, ◌+◌, ◌==◌, ◌≡◌, Bool, true, false, not, ◌&&◌, ◌||◌, List, [], ◌∷◌, ◌++◌, map,
  Option, none, some, Text, ℤ, eqb_text, ltb, leb_ℤ, int_eq, lookup, insert, get_elem?,
  if◌then◌else◌,
}
use variable_star_classifica.Errors.{GoError, wrap, Result, ok, err, ◌>>=◌}
use variable_star_classifica.Kafka.Tracker.{
  PartitionKey, key_eq, Tracker, new_tracker, track, mark_completed,
}
use variable_star_classifica.Kafka.Records.{KafkaRecord, partition_key}
use variable_star_classifica.Kafka.Groups.{group_records_for_processing}

-- map[partitionKey]map[int64]*kgo.Record
abbrev pub RecordIndex : Type 0
RecordIndex = List (PartitionKey × List (ℤ × KafkaRecord))

abbrev pub row_or_empty : Option (List (ℤ × KafkaRecord)) → List (ℤ × KafkaRecord)
row_or_empty none = []
row_or_empty (some row) = row

-- recordsByPartitionOffset[key][offset]
abbrev pub find_record : PartitionKey → ℤ → RecordIndex → Option KafkaRecord
find_record key offset index = lookup offset (row_or_empty (lookup key index))

-- The tracker and the index that the first loop of processBatch fills.
pub record Tracked : Type 0 where
  pub tracker : Tracker
  pub index : RecordIndex

abbrev add_tracked : Tracked → KafkaRecord → Tracker × Option GoError → Result Tracked
add_tracked t r (tracker, some e) = err e
add_tracked t r (tracker, none) =
    let key = partition_key r in
    ok (record {
      tracker = tracker;
      index = insert key (insert r.offset r (row_or_empty (lookup key t.index))) t.index;
    })

unfoldable pub track_record : Tracked → KafkaRecord → Result Tracked
track_record t r = add_tracked t r (track t.tracker (partition_key r) r.offset)

unfoldable pub track_records : Tracked → List KafkaRecord → Result Tracked
track_records t [] = ok t
track_records t (r ∷ rs) = do t' ← track_record t r; track_records t' rs

-- recordCompletion
pub record Completion : Type 0 where
  pub completed : KafkaRecord
  pub error : Option GoError

-- batchFailure
pub record Failure : Type 0 where
  pub failed : KafkaRecord
  pub error : GoError

-- failureOnce.Do: the first failure stays.
abbrev pub once : Option Failure → Failure → Option Failure
once none f = some f
once (some first) f = some first

-- What the loop over the channel changes.
pub record Collector : Type 0 where
  pub tracker : Tracker
  pub committable : List (PartitionKey × Option KafkaRecord)
  pub committable_record_count : ℕ
  pub first_failure : Option Failure
  pub cancelled : Bool

abbrev pub advance_commit :
    RecordIndex → Collector → KafkaRecord → Tracker × Result (ℤ × ℕ) → Collector
advance_commit index c r (t, err e) = record c {
  tracker = t;
  first_failure = once c.first_failure (record { failed = r; error = e });
  cancelled = true;
}
advance_commit index c r (t, ok (offset, count)) =
    if count == 0 then record c { tracker = t } else record c {
      tracker = t;
      committable_record_count = c.committable_record_count + count;
      committable =
          insert (partition_key r) (find_record (partition_key r) offset index) c.committable;
    }

abbrev pub collect_error : RecordIndex → Collector → KafkaRecord → Option GoError → Collector
collect_error index c r (some e) = c
collect_error index c r none =
    advance_commit index c r (mark_completed c.tracker (partition_key r) r.offset)

-- The body of the loop over the channel.
unfoldable pub collect : RecordIndex → Collector → Completion → Collector
collect index c completion = collect_error index c completion.completed completion.error

-- A goroutine: the records it handled, the one that is being handled, those still to come, and
-- whether it is running.
pub record Worker : Type 0 where
  pub handled : List KafkaRecord
  pub current : Option KafkaRecord
  pub rest : List KafkaRecord
  pub running : Bool

abbrev pub new_worker : List KafkaRecord → Worker
new_worker group = record { handled = []; current = none; rest = group; running = true }

-- The state of processBatch while its goroutines run. `handled` is the history of the handler calls
-- that returned nil, the latest first.
pub record Batch : Type 0 where
  pub workers : List Worker
  pub channel : List Completion
  pub collector : Collector
  pub handled : List KafkaRecord
