-- ===== src/Kafka/AsyncRunner/Yielding.antt =====
-- internal/adapter/kafka/async_consumer.go: a batch during which a rebalance is requested.
use variable_star_classifica.Prelude.{ℕ, ◌+◌, ◌^◌, ◌<◌, ◌≡◌, refl, true, List, ◌∷◌, some, arith}
use variable_star_classifica.Prelude.Effects.{World}
use variable_star_classifica.Prelude.Loops.{stop}
use variable_star_classifica.Kafka.Records.{KafkaRecord}
use variable_star_classifica.Kafka.RebalanceYield.{
  RebalanceYield, ProcessingContext, run_context, bind, requests, requested_since,
  generation-requests,
}
use variable_star_classifica.Kafka.Async.Schedule.{process_batch}
use variable_star_classifica.Kafka.AsyncRunner.{
  Outcome, RunnerEvent, processed, checked, released, allowed_rebalance, RunnerEnvironment,
  rebalance_yielded_error, allow_and, release_and, unless_yielded, after_outcome, run_batch,
}

bound-requested :
    (y : RebalanceYield) (before during : ℕ)
    → y.generation < 2 ^ 64
    → 0 < before + during
    → before + during < 2 ^ 64
    → requested_since
        (requests during (bind (requests before y) run_context y.generation).0)
        y.generation
      ≡ true
unfolding requested_since bind
bound-requested y before during small some_request few =
    let bound = (bind (requests before y) run_context y.generation).0 in
    ground (
      arith,
      generation-requests before y small,
      generation-requests during bound (omega (arith, generation-requests before y small)),
    )

module _ (env : RunnerEnvironment) where
  after_outcome-yields :
      (generation : ℕ) (y : RebalanceYield) (c : ProcessingContext) (outcome : Outcome)
      (w : World RunnerEvent)
      → requested_since y generation ≡ true
      → after_outcome env generation y c outcome w ≡ (
        stop (some rebalance_yielded_error),
        record { tick = w.tick; trace = allowed_rebalance ∷ (released ∷ (checked true ∷ w.trace)) },
      )
  unfolding after_outcome unless_yielded release_and allow_and
  after_outcome-yields generation y c (rs, n, failed) w yielded = rw yielded refl

  -- If a rebalance was requested since the generation that a turn of the asynchronous consumer read
  -- before its poll, be it before the batch was bound or while it was processed, and by fewer than
  -- 2 ^ 64 requests, then the turn commits and reports nothing of the batch: it releases the batch,
  -- allows the rebalance and stops the run with ErrRebalanceYielded.
  pub run_batch-yields :
      (y : RebalanceYield) (before : ℕ) (records : List KafkaRecord) (w : World RunnerEvent)
      → y.generation < 2 ^ 64
      → 0 < before + env.request_count (w.tick + 1)
      → before + env.request_count (w.tick + 1) < 2 ^ 64
      → run_batch env (requests before y) y.generation records w ≡ (
        stop (some rebalance_yielded_error),
        record {
          tick = w.tick + 1 + 1;
          trace =
              allowed_rebalance
              ∷ (released
                  ∷ (checked true
                      ∷ (processed records (process_batch records (env.schedule w.tick))
                          ∷ w.trace)));
        },
      )
  unfolding run_batch
  run_batch-yields y before records w small some_request few =
      after_outcome-yields y.generation _ _ (process_batch records (env.schedule w.tick)) _
        (bound-requested y before (env.request_count (w.tick + 1)) small some_request few)
