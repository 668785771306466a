-- ===== src/Kafka/AsyncRunner/Tests.antt =====
-- internal/adapter/kafka: a run of AsyncConsumerRunner that commits a batch of one record.
use variable_star_classifica.Prelude.{
  ℕ, ◌^◌, ◌<◌, ◌≡◌, refl, arith, false, true, List, [], ◌∷◌, none, some, codes, pos, ltb, int_eq,
}
use variable_star_classifica.Prelude.Effects.{World}
use variable_star_classifica.Prelude.Loops.{repeat, repeat_from, stop}
use variable_star_classifica.Kafka.Tracker.{key_eq, track, track_state, mark_completed, mark_state}
use variable_star_classifica.Kafka.Records.{
  KafkaRecord, Fetches, first_fetch_error, records_from_fetches,
}
use variable_star_classifica.Kafka.Groups.{
  processing_eq, group_records_for_processing, record_processing_key,
}
use variable_star_classifica.Kafka.RebalanceYield.{
  new_rebalance_yield, bind, release, requests, requested_since,
}
use variable_star_classifica.Kafka.Async.{track_records, track_record, collect}
use variable_star_classifica.Kafka.Async.Schedule.{
  Choice, resume, handler_returned, receive, run, step, start, commit_records, process_batch,
}
use variable_star_classifica.Kafka.AsyncRunner.{
  RunnerEvent, processed, checked, released, allowed_rebalance, rebalance_yielded_error,
  RunnerEnvironment, allow_and, release_and, after_batch, after_commit_records, commit_outcome,
  unless_run_over, unless_yielded, after_outcome, run_batch, process_polled, unless_fetch_error,
  after_poll, poll_batch, runner_turn, run_async_consumer,
}
use variable_star_classifica.Kafka.AsyncRunner.Order.{IsQuiet, IsOrdered}
use variable_star_classifica.Kafka.AsyncRunner.Yielding.{run_batch-yields}
use variable_star_classifica.Kafka.AsyncRunner.Protocol.{run_async_consumer-IsOrdered}

abbrev only_record : KafkaRecord
only_record = record {
  topic = codes "commands";
  partition = pos 0;
  offset = pos 5;
  key = codes "a";
  value = [];
  headers = [];
  timestamp = pos 0;
}

-- Two polls: the first one brings the record, the second one says that the client is closed.
abbrev poll_one : ℕ → Fetches
poll_one t = record { errors = []; records = some only_record ∷ []; client_closed = ltb 3 t }

abbrev one_done : List Choice
one_done = resume 0 ∷ (handler_returned 0 none ∷ (receive ∷ (resume 0 ∷ [])))

abbrev steady : RunnerEnvironment
steady = record {
  context_over = λ t. false;
  poll_records = poll_one;
  schedule = λ t. one_done;
  request_count = λ t. 0;
  commit_records = λ rs t. none;
  has_observer = true;
}

abbrev steady_end : World RunnerEvent
steady_end = (run_async_consumer steady 3 new_rebalance_yield (record { tick = 0; trace = [] })).1

steady_returns :
    run_async_consumer steady 3 new_rebalance_yield (record { tick = 0; trace = [] })
    ≡ (some none, steady_end)
unfolding run_async_consumer repeat repeat_from runner_turn poll_batch after_poll unless_fetch_error
    process_polled run_batch after_outcome unless_yielded unless_run_over commit_outcome
    after_commit_records after_batch release_and allow_and process_batch track_records track_record
    track track_state start run step collect mark_completed mark_state commit_records
    group_records_for_processing record_processing_key first_fetch_error records_from_fetches
    new_rebalance_yield bind release requests requested_since
steady_returns = refl

run_async_consumer-IsOrdered_example : IsOrdered steady_end.trace × IsQuiet steady_end.trace
run_async_consumer-IsOrdered_example =
    run_async_consumer-IsOrdered steady 3 0 new_rebalance_yield steady_end none steady_returns

-- The same, with a request during every call.
abbrev interrupted : RunnerEnvironment
interrupted = record steady { request_count = λ t. 1 }

small_baseline : new_rebalance_yield.generation < 2 ^ 64
unfolding new_rebalance_yield
small_baseline = omega arith

run_batch-yields_example :
    run_batch interrupted
      (requests 0 new_rebalance_yield)
      new_rebalance_yield.generation
      (only_record ∷ [])
      (record { tick = 0; trace = [] })
    ≡ (
      stop (some rebalance_yielded_error),
      record {
        tick = 2;
        trace =
            allowed_rebalance
            ∷ (released
                ∷ (checked true
                    ∷ (processed (only_record ∷ []) (process_batch (only_record ∷ []) one_done)
                        ∷ [])));
      },
    )
run_batch-yields_example =
    run_batch-yields interrupted new_rebalance_yield 0 (only_record ∷ [])
      (record { tick = 0; trace = [] }) small_baseline (omega arith) (omega arith)
