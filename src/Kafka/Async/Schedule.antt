-- ===== src/Kafka/Async/Schedule.antt =====
-- internal/adapter/kafka/async_consumer.go, processBatch: its goroutines as steps, in any order.
use variable_star_classifica.Prelude.{
  ℕ, Bool, true, false, not, ◌&&◌, ◌||◌, List, [], ◌∷◌, ◌++◌, map, Option, none, some, eqb_text,
  ltb_text, ltb_ℤ, get_elem?, set, if◌then◌else◌,
}
use variable_star_classifica.Errors.{GoError, wrap, Result, ok, err}
use variable_star_classifica.Kafka.Tracker.{PartitionKey, Tracker, new_tracker, is_some}
use variable_star_classifica.Kafka.Records.{KafkaRecord}
use variable_star_classifica.Kafka.Groups.{group_records_for_processing}
use variable_star_classifica.Kafka.Async.{
  RecordIndex, Tracked, track_records, Completion, Failure, once, Collector, collect, Worker,
  new_worker, Batch,
}

-- What happens next. A goroutine resumes its loop, or its handler call returns; the receiving loop
-- takes a completion; or the batch's context is cancelled from outside.
pub data Choice : Type 0 where
  resume : ℕ → Choice
  handler_returned : ℕ → Option GoError → Choice
  receive : Choice
  interrupt : Choice

-- The head of a goroutine's loop: it returns if the context is cancelled, else it takes the next
-- record. A goroutine that is waiting for its handler is not at the head of its loop.
abbrev pub next_record : Worker → List KafkaRecord → Worker
next_record w [] = record w { running = false }
next_record w (r ∷ rest) = record w { current = some r; rest = rest }

abbrev pub resume_worker : Bool → Worker → Worker
resume_worker cancelled w =
    if is_some w.current || not w.running
    then w
    else if cancelled
    then record w { running = false }
    else next_record w w.rest

abbrev pub resume_at : Batch → ℕ → Option Worker → Batch
resume_at b i none = b
resume_at b i (some w) = record b {
  workers = set b.workers i (resume_worker b.collector.cancelled w);
}

-- After the handler call: the failure is kept and the context cancelled, then the completion is sent.
abbrev pub return_record : Batch → ℕ → Worker → Option KafkaRecord → Option GoError → Batch
return_record b i w none result = b
return_record b i w (some r) none = record b {
  workers = set b.workers i (record w { handled = w.handled ++ r ∷ []; current = none });
  channel = b.channel ++ record { completed = r; error = none } ∷ [];
  handled = r ∷ b.handled;
}
return_record b i w (some r) (some e) = record b {
  workers = set b.workers i (record w { current = none; running = false });
  channel = b.channel ++ record { completed = r; error = some e } ∷ [];
  collector = record b.collector {
    first_failure = once b.collector.first_failure (record { failed = r; error = e });
    cancelled = true;
  };
}

abbrev pub return_at : Batch → ℕ → Option Worker → Option GoError → Batch
return_at b i none result = b
return_at b i (some w) result = return_record b i w w.current result

abbrev pub receive_from : RecordIndex → Batch → List Completion → Batch
receive_from index b [] = b
receive_from index b (c ∷ channel) = record b {
  channel = channel;
  collector = collect index b.collector c;
}

unfoldable pub step : RecordIndex → Batch → Choice → Batch
step index b (resume i) = resume_at b i (get_elem? b.workers i)
step index b (handler_returned i result) = return_at b i (get_elem? b.workers i) result
step index b receive = receive_from index b b.channel
step index b interrupt = record b { collector = record b.collector { cancelled = true } }

unfoldable pub run : RecordIndex → Batch → List Choice → Batch
run index b [] = b
run index b (c ∷ cs) = run index (step index b c) cs

unfoldable pub start : Tracker → List KafkaRecord → Batch
start tracker records = record {
  workers = map new_worker (group_records_for_processing records);
  channel = [];
  collector = record {
    tracker = tracker;
    committable = [];
    committable_record_count = 0;
    first_failure = none;
    cancelled = false;
  };
  handled = [];
}

-- Every goroutine has returned, and the channel is closed and drained.
abbrev pub all_returned : List Worker → Bool
all_returned [] = true
all_returned (w ∷ ws) = not w.running && all_returned ws

abbrev pub is_drained : List Completion → Bool
is_drained [] = true
is_drained (c ∷ cs) = false

unfoldable pub is_finished : Batch → Bool
is_finished b = all_returned b.workers && is_drained b.channel

-- The order of sort.Slice: by topic, then by partition.
abbrev pub commits_before : KafkaRecord → KafkaRecord → Bool
commits_before a b =
    if not (eqb_text a.topic b.topic)
    then ltb_text a.topic b.topic
    else ltb_ℤ a.partition b.partition

abbrev pub insert_sorted : KafkaRecord → List KafkaRecord → List KafkaRecord
insert_sorted r [] = r ∷ []
insert_sorted r (q ∷ qs) = if commits_before q r then q ∷ insert_sorted r qs else r ∷ (q ∷ qs)

-- The values of the map `committable`, sorted. A nil pointer would panic in the sort; Collecting shows
-- that none stands there.
unfoldable pub commit_records : List (PartitionKey × Option KafkaRecord) → List KafkaRecord
commit_records [] = []
commit_records ((k, none) ∷ rest) = commit_records rest
commit_records ((k, some r) ∷ rest) = insert_sorted r (commit_records rest)

abbrev pub failure_error : Option Failure → Option GoError
failure_error none = none
failure_error (some f) = some (wrap "handle Kafka record" f.error)

abbrev pub batch_outcome : Collector → List KafkaRecord × ℕ × Option GoError
batch_outcome c =
    (commit_records c.committable, c.committable_record_count, failure_error c.first_failure)

abbrev run_tracked :
    Result Tracked → List KafkaRecord → List Choice → List KafkaRecord × ℕ × Option GoError
run_tracked (err e) records schedule = ([], 0, some e)
run_tracked (ok t) records schedule =
    batch_outcome (run t.index (start t.tracker records) schedule).collector

-- processBatch, for a schedule of its goroutines that brings it to its end.
unfoldable pub process_batch :
    List KafkaRecord → List Choice → List KafkaRecord × ℕ × Option GoError
process_batch records schedule =
    run_tracked (track_records (record { tracker = new_tracker; index = [] }) records) records
      schedule
