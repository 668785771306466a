-- ===== src/Kafka/AsyncRunner.antt =====
-- internal/adapter/kafka/async_consumer.go, AsyncConsumerRunner: the loop that polls a batch, processes
-- it, and commits its completed prefixes unless a rebalance was requested meanwhile. The client, the
-- handler, the goroutines' schedule, the requests and the context are the environment.
pub mod Order
pub mod Protocol
pub mod Yielding
mod Tests
use variable_star_classifica.Prelude.{
  ℕ, Bool, true, false, ◌||◌, List, [], ◌∷◌, Option, none, some, if◌then◌else◌,
}
use variable_star_classifica.Prelude.Effects.{World, Effect, pure, ask, call, emit, ◌>>=◌, ◌>>◌}
use variable_star_classifica.Prelude.Loops.{Iteration, again, stop, repeat}
use variable_star_classifica.Errors.{GoError, sentinel, rebalance_yielded, wrap, Result, ok, err}
use variable_star_classifica.Kafka.Records.{
  KafkaRecord, Fetches, first_fetch_error, records_from_fetches,
}
use variable_star_classifica.Kafka.RebalanceYield.{
  RebalanceYield, ProcessingContext, run_context, bind, release, requests, requested_since,
}
use variable_star_classifica.Kafka.Async.Schedule.{Choice, process_batch}

-- The records to commit, how many records that completes, and the error of the batch.
abbrev pub Outcome : Type 0
Outcome = List KafkaRecord × ℕ × Option GoError

pub data RunnerEvent : Type 0 where
  polled : Fetches → RunnerEvent
  processed : List KafkaRecord → Outcome → RunnerEvent
  checked : Bool → RunnerEvent  -- what RequestedSince said
  committed : List KafkaRecord → Option GoError → RunnerEvent
  observed : ℕ → RunnerEvent
  released : RunnerEvent
  allowed_rebalance : RunnerEvent

pub record RunnerEnvironment : Type 0 where
  pub context_over : ℕ → Bool  -- ctx.Err() != nil
  pub poll_records : ℕ → Fetches
  pub schedule : ℕ → List Choice
  pub request_count : ℕ → ℕ  -- the calls of Request since the question before
  pub commit_records : List KafkaRecord → ℕ → Option GoError
  pub has_observer : Bool  -- commitProgressObserver != nil

abbrev pub rebalance_yielded_error : GoError
rebalance_yielded_error = sentinel rebalance_yielded

abbrev pub RunnerTurn : Type 0
RunnerTurn = Iteration RebalanceYield (Option GoError)

-- A turn that ends before a batch is bound.
unfoldable pub allow_and : RunnerTurn → Effect RunnerEvent RunnerTurn
allow_and result = emit allowed_rebalance >> pure result

-- A turn that ends after a batch was bound: release, then AllowRebalance.
unfoldable pub release_and : RunnerTurn → Effect RunnerEvent RunnerTurn
unfolding allow_and
release_and result = emit released >> allow_and result

unfoldable pub after_batch : Option GoError → RebalanceYield → ProcessingContext → RunnerTurn
after_batch (some e) y c = stop (some e)
after_batch none y c = again (release y c)

module _ (env : RunnerEnvironment) where
  unfoldable pub after_commit_records :
      ℕ → RunnerTurn → Option GoError → Effect RunnerEvent RunnerTurn
  unfolding release_and
  after_commit_records n next (some e) =
      release_and (stop (some (wrap "commit async Kafka record batch" e)))
  after_commit_records n next none =
      if env.has_observer then emit (observed n) >> release_and next else release_and next

  unfoldable pub commit_outcome : List KafkaRecord → ℕ → RunnerTurn → Effect RunnerEvent RunnerTurn
  unfolding after_commit_records
  commit_outcome [] n next = release_and next
  commit_outcome (r ∷ rs) n next =
      call (env.commit_records (r ∷ rs)) (committed (r ∷ rs)) >>= after_commit_records n next

  unfoldable pub unless_run_over :
      List KafkaRecord → ℕ → RunnerTurn → Bool → Effect RunnerEvent RunnerTurn
  unfolding commit_outcome
  unless_run_over rs n next true = release_and (stop none)
  unless_run_over rs n next false = commit_outcome rs n next

  unfoldable pub unless_yielded :
      List KafkaRecord → ℕ → RunnerTurn → Bool → Effect RunnerEvent RunnerTurn
  unfolding unless_run_over
  unless_yielded rs n next true = release_and (stop (some rebalance_yielded_error))
  unless_yielded rs n next false = ask env.context_over >>= unless_run_over rs n next

  unfoldable pub after_outcome :
      ℕ → RebalanceYield → ProcessingContext → Outcome → Effect RunnerEvent RunnerTurn
  unfolding unless_yielded
  after_outcome generation y c (rs, n, failed) = do
    emit (checked (requested_since y generation))
    unless_yielded rs n (after_batch failed y c) (requested_since y generation)

  -- Bind, processBatch and what follows.
  unfoldable pub run_batch : RebalanceYield → ℕ → List KafkaRecord → Effect RunnerEvent RunnerTurn
  unfolding after_outcome
  run_batch y generation records = do
    schedule ← ask env.schedule
    emit (processed records (process_batch records schedule))
    more ← ask env.request_count
    after_outcome generation (requests more (bind y run_context generation).0)
        (bind y run_context generation).1 (process_batch records schedule)

  unfoldable pub process_polled :
      RebalanceYield → ℕ → Result (List KafkaRecord) → Effect RunnerEvent RunnerTurn
  unfolding run_batch
  process_polled y generation (err e) = allow_and (stop (some e))
  process_polled y generation (ok []) = allow_and (again y)
  process_polled y generation (ok (r ∷ rs)) = run_batch y generation (r ∷ rs)

  unfoldable pub unless_fetch_error :
      RebalanceYield → ℕ → Fetches → Option GoError → Effect RunnerEvent RunnerTurn
  unfolding process_polled
  unless_fetch_error y generation fetches (some e) = allow_and (stop (some e))
  unless_fetch_error y generation fetches none =
      process_polled y generation (records_from_fetches fetches)

  unfoldable pub after_poll : RebalanceYield → ℕ → Fetches → Bool → Effect RunnerEvent RunnerTurn
  unfolding unless_fetch_error
  after_poll y generation fetches true = allow_and (stop none)
  after_poll y generation fetches false =
      unless_fetch_error y generation fetches (first_fetch_error fetches)

  unfoldable pub poll_batch : RebalanceYield → Bool → Effect RunnerEvent RunnerTurn
  unfolding after_poll
  poll_batch y true = pure (stop none)
  poll_batch y false = do
    fetches ← call env.poll_records polled
    more ← ask env.request_count
    over ← ask env.context_over
    after_poll (requests more y) y.generation fetches (over || fetches.client_closed)

  -- The body of the loop of Run.
  unfoldable pub runner_turn : RebalanceYield → Effect RunnerEvent RunnerTurn
  unfolding poll_batch
  runner_turn y = do
    over ← ask env.context_over
    more ← ask env.request_count
    poll_batch (requests more y) over

  -- AsyncConsumerRunner.Run
  unfoldable pub run_async_consumer :
      ℕ → RebalanceYield → Effect RunnerEvent (Option (Option GoError))
  unfolding runner_turn
  run_async_consumer fuel y = repeat runner_turn fuel y
