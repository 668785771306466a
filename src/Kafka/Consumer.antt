-- ===== src/Kafka/Consumer.antt =====
-- internal/adapter/kafka/consumer.go: the synchronous consumer. It handles and commits one record at a
-- time; the client, the handler and the context are the environment.
pub mod Protocol
use variable_star_classifica.Prelude.{
  ℕ, Bool, true, false, ◌||◌, List, [], ◌∷◌, Option, none, some, if◌then◌else◌,
}
use variable_star_classifica.Prelude.Effects.{World, Effect, pure, ask, call, emit, ◌>>=◌, ◌>>◌}
use variable_star_classifica.Prelude.Loops.{Iteration, again, stop, repeat}
use variable_star_classifica.Errors.{GoError, message, wrap}
use variable_star_classifica.Application.Messaging.{InboundMessage}
use variable_star_classifica.Kafka.Records.{
  KafkaRecord, Fetches, inbound_message_from_record, first_fetch_error,
}

pub data ConsumerEvent : Type 0 where
  polled : ConsumerEvent
  handled : KafkaRecord → Option GoError → ConsumerEvent
  committed : KafkaRecord → Option GoError → ConsumerEvent
  allowed_rebalance : ConsumerEvent

pub record ConsumerEnvironment : Type 0 where
  pub context_over : ℕ → Bool  -- ctx.Err() != nil
  pub poll : ℕ → Fetches
  pub handle : InboundMessage → ℕ → Option GoError
  pub commit_records : KafkaRecord → ℕ → Option GoError

abbrev pub polled_event : Fetches → ConsumerEvent
polled_event fetches = polled

module _ (env : ConsumerEnvironment) where
  unfoldable pub after_commit : Option GoError → Effect ConsumerEvent (Option GoError)
  after_commit none = pure none
  after_commit (some e) = pure (some (wrap "commit Kafka record" e))

  unfoldable pub after_handle : KafkaRecord → Option GoError → Effect ConsumerEvent (Option GoError)
  unfolding after_commit
  after_handle r (some e) = pure (some (wrap "handle Kafka record" e))
  after_handle r none = call (env.commit_records r) (committed r) >>= after_commit

  -- synchronousRecordProcessor.Process, and the body of the loop of processFetches
  unfoldable pub process : KafkaRecord → Effect ConsumerEvent (Option GoError)
  unfolding after_handle
  process r = call (env.handle (inbound_message_from_record r)) (handled r) >>= after_handle r

  unfoldable pub unless_failed :
      Effect ConsumerEvent (Option GoError) → Option GoError → Effect ConsumerEvent (Option GoError)
  unless_failed rest (some e) = pure (some e)
  unless_failed rest none = rest

  unfoldable pub process_records : List (Option KafkaRecord) → Effect ConsumerEvent (Option GoError)
  unfolding process unless_failed
  process_records [] = pure none
  process_records (none ∷ rs) = pure (some (message "poll Kafka message: nil record"))
  process_records (some r ∷ rs) = process r >>= unless_failed (process_records rs)

  unfoldable pub process_unless : Option GoError → Fetches → Effect ConsumerEvent (Option GoError)
  unfolding process_records
  process_unless (some e) fetches = pure (some e)
  process_unless none fetches = process_records fetches.records

  -- processFetches
  unfoldable pub process_fetches : Fetches → Effect ConsumerEvent (Option GoError)
  unfolding process_unless
  process_fetches fetches = process_unless (first_fetch_error fetches) fetches

  abbrev pub Turn : Type 0
  Turn = Iteration (Unit {0}) (Option GoError)

  unfoldable pub after_process : Option GoError → Effect ConsumerEvent Turn
  after_process none = pure (again tt)
  after_process (some e) =
      ask env.context_over >>= λ over. pure (stop (if over then none else some e))

  unfoldable pub process_poll : Fetches → Bool → Effect ConsumerEvent Turn
  unfolding process_fetches after_process
  process_poll fetches true = emit allowed_rebalance >> pure (stop none)
  process_poll fetches false = do
    failed ← process_fetches fetches
    emit allowed_rebalance
    after_process failed

  unfoldable pub poll_unless : Bool → Effect ConsumerEvent Turn
  unfolding process_poll
  poll_unless true = pure (stop none)
  poll_unless false = do
    fetches ← call env.poll polled_event
    over ← ask env.context_over
    process_poll fetches (over || fetches.client_closed)

  -- The body of the loop of Run.
  unfoldable pub turn : Unit {0} → Effect ConsumerEvent Turn
  unfolding poll_unless
  turn _ = ask env.context_over >>= poll_unless

  -- ConsumerRunner.Run
  unfoldable pub run_consumer : ℕ → Effect ConsumerEvent (Option (Option GoError))
  unfolding turn
  run_consumer fuel = repeat turn fuel tt
