-- ===== src/Kafka/YieldRunner/Tests.antt =====
-- internal/adapter/kafka: a run of RebalanceYieldConsumerRunner that a rebalance stops.
use variable_star_classifica.Prelude.{
  ℕ, ◌≡◌, refl, false, [], ◌∷◌, none, some, codes, pos, ltb, if◌then◌else◌,
}
use variable_star_classifica.Prelude.Effects.{World}
use variable_star_classifica.Prelude.Loops.{repeat, repeat_from}
use variable_star_classifica.Errors.{sentinel, rebalance_yielded}
use variable_star_classifica.Kafka.Records.{KafkaRecord, Fetches, first_fetch_error}
use variable_star_classifica.Kafka.RebalanceYield.{
  new_rebalance_yield, bind, release, request, requests, requested_since,
}
use variable_star_classifica.Kafka.Consumer.{ConsumerEvent, process, after_handle, after_commit}
use variable_star_classifica.Kafka.Consumer.Protocol.{IsIdle}
use variable_star_classifica.Kafka.YieldRunner.{
  YieldEnvironment, allow_then, after_record, process_bound, process_first, process_fetched,
  after_poll_one, poll_one_unless, yield_turn, run_yield_consumer,
}
use variable_star_classifica.Kafka.YieldRunner.Protocol.{IsSingle, run_yield_consumer-IsSingle}

abbrev polled_record : KafkaRecord
polled_record = record {
  topic = codes "commands";
  partition = pos 0;
  offset = pos 8;
  key = [];
  value = [];
  headers = [];
  timestamp = pos 0;
}

abbrev same_poll : ℕ → Fetches
same_poll t = record { errors = []; records = some polled_record ∷ []; client_closed = false }

-- A rebalance is requested while the second record is processed.
abbrev busy_group : YieldEnvironment
busy_group = record {
  consumer = record {
    context_over = λ t. false;
    poll = same_poll;
    handle = λ m t. none;
    commit_records = λ r t. none;
  };
  request_count = λ t. if ltb 14 t then 1 else 0;
}

abbrev busy_end : World ConsumerEvent
busy_end = (run_yield_consumer busy_group 3 new_rebalance_yield (record { tick = 0; trace = [] })).1

busy_group_yields :
    run_yield_consumer busy_group 3 new_rebalance_yield (record { tick = 0; trace = [] })
    ≡ (some (some (sentinel rebalance_yielded)), busy_end)
unfolding run_yield_consumer repeat repeat_from yield_turn poll_one_unless after_poll_one
    process_fetched process_first process_bound after_record allow_then process after_handle
    after_commit first_fetch_error new_rebalance_yield bind release request requests requested_since
busy_group_yields = refl

run_yield_consumer-IsSingle_example : IsSingle busy_end.trace × IsIdle busy_end.trace
run_yield_consumer-IsSingle_example =
    run_yield_consumer-IsSingle busy_group 3 0 new_rebalance_yield busy_end
      (some (sentinel rebalance_yielded)) busy_group_yields
