-- ===== src/Kafka/YieldRunner.antt =====
-- internal/adapter/kafka/consumer_rebalance_yield.go: RebalanceYieldConsumerRunner, which processes one
-- record for each poll and stops when a blocked rebalance requests it. The requests are counted between
-- the calls that the run makes; a request that comes when no record is bound cancels nothing.
pub mod Protocol
mod Tests
use variable_star_classifica.Prelude.{
  ℕ, Bool, true, false, ◌||◌, List, [], ◌∷◌, Option, none, some, if◌then◌else◌,
}
use variable_star_classifica.Prelude.Effects.{World, Effect, pure, ask, call, emit, ◌>>=◌, ◌>>◌}
use variable_star_classifica.Prelude.Loops.{Iteration, again, stop, repeat}
use variable_star_classifica.Errors.{GoError, message, sentinel, rebalance_yielded, wrap}
use variable_star_classifica.Kafka.Records.{KafkaRecord, Fetches, first_fetch_error}
use variable_star_classifica.Kafka.RebalanceYield.{
  RebalanceYield, ProcessingContext, run_context, bind, release, requests, requested_since,
}
use variable_star_classifica.Kafka.Consumer.{
  ConsumerEvent, allowed_rebalance, polled_event, ConsumerEnvironment, process,
}

pub record YieldEnvironment : Type 0 where
  pub consumer : ConsumerEnvironment
  pub request_count : ℕ → ℕ  -- the calls of Request since the question before

abbrev pub YieldTurn : Type 0
YieldTurn = Iteration RebalanceYield (Option GoError)

abbrev pub yield_stop : YieldTurn
yield_stop = stop (some (sentinel rebalance_yielded))

unfoldable pub allow_then : YieldTurn → Effect ConsumerEvent YieldTurn
allow_then result = emit allowed_rebalance >> pure result

module _ (env : YieldEnvironment) where
  unfoldable pub after_record :
      RebalanceYield
      → ℕ
      → ProcessingContext
      → Option GoError
      → Bool
      → Effect ConsumerEvent YieldTurn
  unfolding allow_then
  after_record y generation c failed true = allow_then yield_stop
  after_record y generation c (some e) false = do
    emit allowed_rebalance
    over ← ask env.consumer.context_over
    pure (stop (if over then none else some (wrap "handle Kafka record" e)))
  after_record y generation c none false = do
    more ← ask env.request_count
    allow_then (
        if requested_since (requests more y) generation
        then yield_stop
        else again (release (requests more y) c))

  -- Bind, Process and what follows.
  unfoldable pub process_bound : RebalanceYield → ℕ → KafkaRecord → Effect ConsumerEvent YieldTurn
  unfolding after_record
  process_bound y generation r = do
    failed ← process env.consumer r
    more ← ask env.request_count
    after_record (requests more (bind y run_context generation).0) generation
        (bind y run_context generation).1 failed
        (requested_since (requests more (bind y run_context generation).0) generation)

  unfoldable pub process_first :
      RebalanceYield → ℕ → List (Option KafkaRecord) → Effect ConsumerEvent YieldTurn
  unfolding process_bound
  process_first y generation [] = allow_then (again y)
  process_first y generation (none ∷ rs) =
      allow_then (stop (some (message "poll Kafka message: nil record")))
  process_first y generation (some r ∷ rs) = process_bound y generation r

  unfoldable pub process_fetched :
      RebalanceYield → ℕ → Fetches → Option GoError → Effect ConsumerEvent YieldTurn
  unfolding process_first
  process_fetched y generation fetches (some e) = allow_then (stop (some e))
  process_fetched y generation fetches none = process_first y generation fetches.records

  unfoldable pub after_poll_one :
      RebalanceYield → ℕ → Fetches → Bool → Effect ConsumerEvent YieldTurn
  unfolding process_fetched
  after_poll_one y generation fetches true = allow_then (stop none)
  after_poll_one y generation fetches false =
      process_fetched y generation fetches (first_fetch_error fetches)

  unfoldable pub poll_one_unless : RebalanceYield → Bool → Effect ConsumerEvent YieldTurn
  unfolding after_poll_one
  poll_one_unless y true = pure (stop none)
  poll_one_unless y false = do
    fetches ← call env.consumer.poll polled_event
    more ← ask env.request_count
    over ← ask env.consumer.context_over
    after_poll_one (requests more y) y.generation fetches (over || fetches.client_closed)

  -- The body of the loop of Run.
  unfoldable pub yield_turn : RebalanceYield → Effect ConsumerEvent YieldTurn
  unfolding poll_one_unless
  yield_turn y = do
    over ← ask env.consumer.context_over
    more ← ask env.request_count
    poll_one_unless (requests more y) over

  -- RebalanceYieldConsumerRunner.Run
  unfoldable pub run_yield_consumer :
      ℕ → RebalanceYield → Effect ConsumerEvent (Option (Option GoError))
  unfolding yield_turn
  run_yield_consumer fuel y = repeat yield_turn fuel y
