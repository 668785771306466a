-- ===== src/Kafka/Tests.antt =====
-- internal/adapter/kafka: the theorems on a batch of three records of one partition.
use variable_star_classifica.Prelude.{
  ℕ, ◌+◌, ◌<◌, ◌^◌, ◌≡◌, ◌⊎◌, refl, Bool, true, false, not, ◌||◌, ◌==◌, List, [], ◌∷◌, ◌++◌, map,
  Option, none, some, Text, codes, ℤ, pos, int_eq, contains, lookup, get_elem?, arith, ltb,
}
use variable_star_classifica.Prelude.Effects.{World}
use variable_star_classifica.Prelude.Loops.{repeat, repeat_from}
use variable_star_classifica.Errors.{message, Result, ok, err}
use variable_star_classifica.Kafka.Tracker.{
  PartitionKey, key_eq, PartitionState, empty_state, track, track_state, mark_state, mark_completed,
  advance,
}
use variable_star_classifica.Kafka.Tracker.Partition.{
  Represents, empty_state-Represents, Marks, mark_state-Marks,
}
use variable_star_classifica.Kafka.Tracker.Tracking.{track_state-Tracks}
use variable_star_classifica.Kafka.Records.{KafkaRecord, Fetches, partition_key, first_fetch_error}
use variable_star_classifica.Kafka.Groups.{
  ProcessingKey, processing_eq, group_records_for_processing, record_processing_key,
}
use variable_star_classifica.Kafka.Groups.Order.{
  NoRepeats, with_key, has_key, group_records-with_key,
}
use variable_star_classifica.Kafka.Async.{Tracked, track_records, track_record, collect, Worker}
use variable_star_classifica.Kafka.Async.Schedule.{
  Choice, resume, handler_returned, receive, run, step, start, is_drained,
}
use variable_star_classifica.Kafka.Async.Tracking.{offsets_of, nothing_tracked}
use variable_star_classifica.Kafka.Async.Commit.{
  after_schedule, handled_prefix, CommitsPrefix, commit_safety, commit_exact,
}
use variable_star_classifica.Kafka.Async.Ordering.{handled_in_order}
use variable_star_classifica.Kafka.RebalanceYield.{
  IsFresh, new_rebalance_yield, is_done, requested_since, window, window-is_done,
}
use variable_star_classifica.Kafka.Consumer.{
  turn, poll_unless, process_poll, process_fetches, process_unless, process_records, process,
  unless_failed, after_handle, after_commit, after_process, ConsumerEnvironment, ConsumerEvent,
  run_consumer,
}
use variable_star_classifica.Kafka.Consumer.Protocol.{IsPermitted, IsIdle, run_consumer-IsPermitted}

abbrev record_at : ℕ → Text → KafkaRecord
record_at offset key = record {
  topic = codes "commands";
  partition = pos 0;
  offset = pos offset;
  key = key;
  value = [];
  headers = [];
  timestamp = pos 0;
}

abbrev only_partition : PartitionKey
only_partition = record { topic = codes "commands"; partition = pos 0 }

abbrev three : List KafkaRecord
three = record_at 5 (codes "a") ∷ record_at 6 (codes "b") ∷ record_at 7 (codes "a") ∷ []

abbrev tracked_or_nothing : Result Tracked → Tracked
tracked_or_nothing (ok t) = t
tracked_or_nothing (err e) = nothing_tracked

abbrev three_tracked : Tracked
unfolding track_records track_record track track_state
three_tracked = tracked_or_nothing (track_records nothing_tracked three)

-- The second goroutine ends before the first one, whose last record fails.
abbrev two_done : List Choice
two_done =
    resume 0
    ∷ resume 1
    ∷ handler_returned 1 none
    ∷ receive
    ∷ handler_returned 0 none
    ∷ resume 0
    ∷ handler_returned 0 (some (message "no answer"))
    ∷ receive
    ∷ receive
    ∷ []

three_are_tracked : track_records nothing_tracked three ≡ ok three_tracked
unfolding track_records track_record track track_state
three_are_tracked = refl

two_drained : is_drained (after_schedule three_tracked three two_done).channel ≡ true
unfolding run step start collect mark_completed mark_state advance track_records track_record track
    track_state group_records_for_processing record_processing_key
two_drained = refl

two_commit_second :
    lookup only_partition (after_schedule three_tracked three two_done).collector.committable
    ≡ some (some (record_at 6 (codes "b")))
unfolding run step start collect mark_completed mark_state advance track_records track_record track
    track_state group_records_for_processing record_processing_key
two_commit_second = refl

commit_safety_example :
    (partition_key (record_at 6 (codes "b")) ≡ only_partition)
    × (contains
          (pos 5)
          (offsets_of only_partition (after_schedule three_tracked three two_done).handled)
        ≡ true)
commit_safety_example =
    commit_safety three three_tracked three_are_tracked two_done only_partition
      (record_at 6 (codes "b")) (pos 5) two_commit_second refl (omega arith)

commit_exact_example :
    ((handled_prefix only_partition (after_schedule three_tracked three two_done) three ≡ 0)
      × (lookup only_partition (after_schedule three_tracked three two_done).collector.committable
          ≡ none))
    ⊎ ((r : Option KafkaRecord) × (lookup only_partition
            (after_schedule three_tracked three two_done).collector.committable
          ≡ some r)
        × CommitsPrefix only_partition three
            (handled_prefix only_partition (after_schedule three_tracked three two_done) three)
            r)
commit_exact_example =
    commit_exact three three_tracked three_are_tracked two_done only_partition two_drained

abbrev first_worker : Worker
first_worker = record {
  handled = record_at 5 (codes "a") ∷ [];
  current = none;
  rest = [];
  running = false;
}

first_worker_stopped :
    get_elem? (run three_tracked.index (start three_tracked.tracker three) two_done).workers 0
    ≡ some first_worker
unfolding run step start collect mark_completed mark_state advance track_records track_record track
    track_state group_records_for_processing record_processing_key
first_worker_stopped = refl

handled_in_order_example :
    (k : ProcessingKey) × (get_elem? (group_records_for_processing three) 0
      ≡ some (with_key k three))
    × ((tail : List KafkaRecord) × (with_key k three ≡ first_worker.handled ++ tail))
handled_in_order_example =
    handled_in_order three_tracked.tracker three_tracked.index three two_done 0 first_worker
      first_worker_stopped

group_records-with_key_example :
    (ks : List ProcessingKey) × (group_records_for_processing three
      ≡ map (λ k. with_key k three) ks)
    × NoRepeats ks
    × ((k : ProcessingKey) → contains k ks ≡ has_key k three)
group_records-with_key_example = group_records-with_key three

abbrev state_or_empty_of : Result PartitionState → PartitionState
state_or_empty_of (ok s) = s
state_or_empty_of (err e) = empty_state

abbrev five_state : PartitionState
five_state = record { offsets = pos 5 ∷ []; index = (pos 5, 0) ∷ []; completed = []; next = 0 }

five_tracked : track_state empty_state (pos 5) ≡ ok five_state
unfolding track_state
five_tracked = refl

five_state-Represents : Represents five_state []
five_state-Represents =
    (track_state-Tracks empty_state [] (pos 5) empty_state-Represents five_state
      five_tracked).represents

mark_state-Marks_example :
    (s' : PartitionState) × (c : ℤ) × (n : ℕ) × (mark_state five_state (pos 5) ≡ ok (s', c, n))
    × Marks five_state [] (pos 5) s' c n
mark_state-Marks_example = mark_state-Marks five_state [] (pos 5) five_state-Represents refl

small_generation : new_rebalance_yield.generation < 2 ^ 64
unfolding new_rebalance_yield
small_generation = omega arith

no_cancel : new_rebalance_yield.cancel ≡ none
unfolding new_rebalance_yield
no_cancel = refl

nothing_cancelled : IsFresh new_rebalance_yield
unfolding new_rebalance_yield
nothing_cancelled = tt

-- The only caller's context, which has not ended.
abbrev still_open : ℕ → Bool
still_open p = false

window-is_done_example :
    (is_done still_open (window new_rebalance_yield 0 1 2).0 (window new_rebalance_yield 0 1 2).1
      ≡ (still_open 0 || not ((1 + 2) == 0)))
    × (requested_since (window new_rebalance_yield 0 1 2).0 new_rebalance_yield.generation
        ≡ not ((1 + 2) == 0))
window-is_done_example =
    window-is_done still_open new_rebalance_yield 0 1 2 small_generation (omega arith) no_cancel
      nothing_cancelled

-- Two polls: the first one brings the records, the second one says that the client is closed.
abbrev poll_once : ℕ → Fetches
poll_once t = record { errors = []; records = map some three; client_closed = ltb 3 t }

abbrev calm : ConsumerEnvironment
calm = record {
  context_over = λ t. false;
  poll = poll_once;
  handle = λ m t. none;
  commit_records = λ r t. none;
}

abbrev calm_end : World ConsumerEvent
calm_end = (run_consumer calm 3 (record { tick = 0; trace = [] })).1

calm_returns : run_consumer calm 3 (record { tick = 0; trace = [] }) ≡ (some none, calm_end)
unfolding run_consumer repeat repeat_from turn poll_unless process_poll process_fetches
    process_unless process_records process unless_failed after_handle after_commit after_process
    first_fetch_error
calm_returns = refl

run_consumer-IsPermitted_example : IsPermitted calm_end.trace × IsIdle calm_end.trace
run_consumer-IsPermitted_example = run_consumer-IsPermitted calm 3 0 calm_end none calm_returns
