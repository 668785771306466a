-- ===== src/Kafka/AsyncRunner/Protocol.antt =====
-- internal/adapter/kafka/async_consumer.go: the order of the calls that AsyncConsumerRunner.Run makes.
use variable_star_classifica.Prelude.{
  ℕ, ◌+◌, ◌≡◌, refl, subst, Bool, true, false, List, [], ◌∷◌, Option, none, some, Bool-cases, inl,
  inr,
}
use variable_star_classifica.Prelude.Effects.{World}
use variable_star_classifica.Prelude.Loops.{repeat_sound, Reaches-invariant}
use variable_star_classifica.Errors.{GoError, Result, ok, err}
use variable_star_classifica.Kafka.Records.{
  KafkaRecord, Fetches, first_fetch_error, records_from_fetches,
}
use variable_star_classifica.Kafka.RebalanceYield.{
  RebalanceYield, ProcessingContext, requests, requested_since,
}
use variable_star_classifica.Kafka.Async.Schedule.{process_batch}
use variable_star_classifica.Kafka.AsyncRunner.{
  Outcome, RunnerEvent, polled, processed, checked, committed, released, allowed_rebalance,
  RunnerEnvironment, RunnerTurn, allow_and, release_and, after_batch, after_commit_records,
  commit_outcome, unless_run_over, unless_yielded, after_outcome, run_batch, process_polled,
  unless_fetch_error, after_poll, poll_batch, runner_turn, run_async_consumer,
}
use variable_star_classifica.Kafka.AsyncRunner.Order.{
  IsQuiet, MayProcess, MayRelease, MayAllow, IsOrdered,
}

-- A turn of the loop starts and ends with nothing polled and nothing bound.
EndsQuiet : World RunnerEvent → Type 0
EndsQuiet w = IsOrdered w.trace × IsQuiet w.trace

abbrev at : ℕ → List RunnerEvent → World RunnerEvent
at t es = record { tick = t; trace = es }

allowed-EndsQuiet :
    (t : ℕ) (es : List RunnerEvent)
    → IsOrdered es
    → MayAllow es
    → EndsQuiet (at t (allowed_rebalance ∷ es))
unfolding EndsQuiet
allowed-EndsQuiet t es h may = ((may, h), tt)

released-EndsQuiet :
    (t : ℕ) (es : List RunnerEvent)
    → IsOrdered es
    → MayRelease es
    → EndsQuiet (at t (allowed_rebalance ∷ (released ∷ es)))
released-EndsQuiet t es h may = allowed-EndsQuiet t (released ∷ es) (may, h) tt

module _ (env : RunnerEnvironment) (batch : List KafkaRecord) (n : ℕ) (failed : Option GoError)
    (next : RunnerTurn) (past : List RunnerEvent) where
  abbrev processed_past : List KafkaRecord → List RunnerEvent
  processed_past rs = processed batch (rs, n, failed) ∷ past

  after_commit_records-EndsQuiet :
      (rs : List KafkaRecord) (e : Option GoError) (t : ℕ)
      → IsOrdered (committed rs e ∷ (checked false ∷ processed_past rs))
      → EndsQuiet
          (after_commit_records env n next e
            (at t (committed rs e ∷ (checked false ∷ processed_past rs)))).1
  unfolding after_commit_records release_and allow_and
  after_commit_records-EndsQuiet rs (some e) t h = released-EndsQuiet _ _ h tt
  after_commit_records-EndsQuiet rs none t h = elim (Bool-cases env.has_observer) [
    | inl given ↦ rw given (released-EndsQuiet _ _ (refl, h) tt)
    | inr absent ↦ rw absent (released-EndsQuiet _ _ h tt)
  ]

  commit_outcome-EndsQuiet :
      (rs : List KafkaRecord) (t : ℕ)
      → IsOrdered (checked false ∷ processed_past rs)
      → EndsQuiet (commit_outcome env rs n next (at t (checked false ∷ processed_past rs))).1
  unfolding commit_outcome release_and allow_and
  commit_outcome-EndsQuiet [] t h = released-EndsQuiet _ _ h tt
  commit_outcome-EndsQuiet (r ∷ rs) t h =
      after_commit_records-EndsQuiet (r ∷ rs) (env.commit_records (r ∷ rs) t) _
        ((refl, λ e. absurd (cc e)), h)

  unless_run_over-EndsQuiet :
      (rs : List KafkaRecord) (over : Bool) (t : ℕ)
      → IsOrdered (checked false ∷ processed_past rs)
      → EndsQuiet (unless_run_over env rs n next over (at t (checked false ∷ processed_past rs))).1
  unfolding unless_run_over release_and allow_and
  unless_run_over-EndsQuiet rs true t h = released-EndsQuiet _ _ h tt
  unless_run_over-EndsQuiet rs false t h = commit_outcome-EndsQuiet rs t h

  unless_yielded-EndsQuiet :
      (rs : List KafkaRecord) (yielded : Bool) (t : ℕ)
      → IsOrdered (processed_past rs)
      → EndsQuiet
          (unless_yielded env rs n next yielded (at t (checked yielded ∷ processed_past rs))).1
  unfolding unless_yielded release_and allow_and
  unless_yielded-EndsQuiet rs true t h = released-EndsQuiet _ _ (tt, h) tt
  unless_yielded-EndsQuiet rs false t h =
      unless_run_over-EndsQuiet rs (env.context_over t) _ (tt, h)

module _ (env : RunnerEnvironment) where
  after_outcome-EndsQuiet :
      (batch : List KafkaRecord) (generation : ℕ) (y : RebalanceYield) (c : ProcessingContext)
      (outcome : Outcome) (t : ℕ) (past : List RunnerEvent)
      → IsOrdered (processed batch outcome ∷ past)
      → EndsQuiet
          (after_outcome env generation y c outcome (at t (processed batch outcome ∷ past))).1
  unfolding after_outcome
  after_outcome-EndsQuiet batch generation y c (rs, n, failed) t past h =
      unless_yielded-EndsQuiet env batch n failed (after_batch failed y c) past rs
        (requested_since y generation) t h

  run_batch-EndsQuiet :
      (y : RebalanceYield) (generation : ℕ) (records : List KafkaRecord) (w : World RunnerEvent)
      → IsOrdered w.trace
      → MayProcess records w.trace
      → EndsQuiet (run_batch env y generation records w).1
  unfolding run_batch
  run_batch-EndsQuiet y generation records w h may =
      after_outcome-EndsQuiet records generation _ _ (process_batch records (env.schedule w.tick)) _
        w.trace (may, h)

  module _ (y : RebalanceYield) (generation : ℕ) (fetches : Fetches) (t : ℕ)
      (past : List RunnerEvent) (h : IsOrdered (polled fetches ∷ past)) where
    process_polled-EndsQuiet :
        (records : Result (List KafkaRecord))
        → first_fetch_error fetches ≡ none
        → records_from_fetches fetches ≡ records
        → EndsQuiet (process_polled env y generation records (at t (polled fetches ∷ past))).1
    unfolding process_polled allow_and
    process_polled-EndsQuiet (err e) clean same = allowed-EndsQuiet _ _ h tt
    process_polled-EndsQuiet (ok []) clean same = allowed-EndsQuiet _ _ h tt
    process_polled-EndsQuiet (ok (r ∷ rs)) clean same =
        run_batch-EndsQuiet y generation (r ∷ rs) _ h (clean, same, λ e. absurd (cc e))

    unless_fetch_error-EndsQuiet :
        (first : Option GoError)
        → first_fetch_error fetches ≡ first
        → EndsQuiet
            (unless_fetch_error env y generation fetches first (at t (polled fetches ∷ past))).1
    unfolding unless_fetch_error allow_and
    unless_fetch_error-EndsQuiet (some e) same = allowed-EndsQuiet _ _ h tt
    unless_fetch_error-EndsQuiet none same =
        process_polled-EndsQuiet (records_from_fetches fetches) same refl

    after_poll-EndsQuiet :
        (over : Bool)
        → EndsQuiet (after_poll env y generation fetches over (at t (polled fetches ∷ past))).1
    unfolding after_poll allow_and
    after_poll-EndsQuiet true = allowed-EndsQuiet _ _ h tt
    after_poll-EndsQuiet false = unless_fetch_error-EndsQuiet (first_fetch_error fetches) refl

  poll_batch-EndsQuiet :
      (y : RebalanceYield) (over : Bool) (w : World RunnerEvent)
      → EndsQuiet w
      → EndsQuiet (poll_batch env y over w).1
  unfolding poll_batch EndsQuiet
  poll_batch-EndsQuiet y true w h = h
  poll_batch-EndsQuiet y false w h =
      after_poll-EndsQuiet _ y.generation (env.poll_records w.tick) _ w.trace (h.1, h.0) _

  runner_turn-EndsQuiet :
      (y : RebalanceYield) (w : World RunnerEvent) → EndsQuiet w → EndsQuiet (runner_turn env y w).1
  unfolding runner_turn EndsQuiet
  runner_turn-EndsQuiet y w h =
      poll_batch-EndsQuiet (requests (env.request_count (w.tick + 1)) y) (env.context_over w.tick)
        (at (w.tick + 1 + 1) w.trace) h

  -- In every run of the asynchronous consumer that returns, whatever the schedules of its goroutines:
  -- a batch is the records of the poll before it, a commit takes the records that the batch gave and
  -- comes only when RequestedSince said that no rebalance was requested, the observer is told the
  -- batch's count right after a commit without an error, and every poll is followed by one
  -- AllowRebalance, after the release of its batch, before the next poll and before the return.
  pub run_async_consumer-IsOrdered :
      (fuel t : ℕ) (y : RebalanceYield) (x : World RunnerEvent) (result : Option GoError)
      → run_async_consumer env fuel y (record { tick = t; trace = [] }) ≡ (some result, x)
      → IsOrdered x.trace × IsQuiet x.trace
  unfolding run_async_consumer EndsQuiet
  run_async_consumer-IsOrdered fuel t y x result h =
      let (k, u, v, _, reach, stops) =
        repeat_sound (runner_turn env) fuel y (record { tick = t; trace = [] }) x result h in
      subst (λ r. EndsQuiet r.1) stops
        (runner_turn-EndsQuiet u v (
          Reaches-invariant (runner_turn env) (λ s w. EndsQuiet w)
            (λ s s' w z e k. subst (λ r. EndsQuiet r.1) e (runner_turn-EndsQuiet s w k)) reach
            (tt, tt)))
