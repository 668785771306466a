-- ===== src/Kafka/YieldRunner/Protocol.antt =====
-- internal/adapter/kafka/consumer_rebalance_yield.go: the order of the calls that a run makes, one
-- record for each poll.
use variable_star_classifica.Prelude.{
  ℕ, ◌+◌, ◌≡◌, refl, subst, Bool, true, false, List, [], ◌∷◌, Option, none, some,
}
use variable_star_classifica.Prelude.Effects.{World}
use variable_star_classifica.Prelude.Loops.{repeat_sound, Reaches-invariant}
use variable_star_classifica.Errors.{GoError}
use variable_star_classifica.Kafka.Records.{
  KafkaRecord, Fetches, first_fetch_error, inbound_message_from_record,
}
use variable_star_classifica.Kafka.RebalanceYield.{
  RebalanceYield, ProcessingContext, run_context, bind, requests, requested_since,
}
use variable_star_classifica.Kafka.Consumer.{
  ConsumerEvent, polled, handled, committed, allowed_rebalance, ConsumerEnvironment, process,
  after_handle, after_commit,
}
use variable_star_classifica.Kafka.Consumer.Protocol.{IsIdle, IsBusy, MayCommit}
use variable_star_classifica.Kafka.YieldRunner.{
  YieldEnvironment, allow_then, after_record, process_bound, process_first, process_fetched,
  after_poll_one, poll_one_unless, yield_turn, run_yield_consumer,
}

-- A record may be handled only right after a poll.
abbrev pub IsPoll : List ConsumerEvent → Type 0
IsPoll (polled ∷ es) = Unit
IsPoll _ = ⊥

-- The order of the calls with one record for each poll; the latest event stands first.
abbrev pub IsSingle : List ConsumerEvent → Type 0
IsSingle [] = Unit
IsSingle (polled ∷ es) = IsIdle es × IsSingle es
IsSingle (handled r e ∷ es) = IsPoll es × IsSingle es
IsSingle (committed r e ∷ es) = MayCommit r es × IsSingle es
IsSingle (allowed_rebalance ∷ es) = IsBusy es × IsSingle es

IsAtRest : World ConsumerEvent → Type 0
IsAtRest w = IsSingle w.trace × IsIdle w.trace

abbrev at : ℕ → List ConsumerEvent → World ConsumerEvent
at t es = record { tick = t; trace = es }

allowed-IsAtRest :
    (t : ℕ) (es : List ConsumerEvent)
    → IsSingle es
    → IsBusy es
    → IsAtRest (at t (allowed_rebalance ∷ es))
unfolding IsAtRest
allowed-IsAtRest t es h busy = ((busy, h), tt)

-- A record was taken from the poll.
IsUnderway : World ConsumerEvent → Type 0
IsUnderway w = IsSingle w.trace × IsBusy w.trace

module _ (env : ConsumerEnvironment) (r : KafkaRecord) where
  after_commit-IsUnderway :
      (failed : Option GoError) (t : ℕ) (past : List ConsumerEvent)
      → IsSingle (committed r failed ∷ past)
      → IsUnderway (after_commit env failed (at t (committed r failed ∷ past))).1
  unfolding after_commit IsUnderway
  after_commit-IsUnderway none t past h = (h, tt)
  after_commit-IsUnderway (some e) t past h = (h, tt)

  after_handle-IsUnderway :
      (failed : Option GoError) (t : ℕ) (past : List ConsumerEvent)
      → IsSingle (handled r failed ∷ past)
      → IsUnderway (after_handle env r failed (at t (handled r failed ∷ past))).1
  unfolding after_handle IsUnderway
  after_handle-IsUnderway none t past h =
      after_commit-IsUnderway (env.commit_records r t) _ (handled r none ∷ past) (refl, h)
  after_handle-IsUnderway (some e) t past h = (h, tt)

  process-IsUnderway :
      (t : ℕ) (past : List ConsumerEvent)
      → IsSingle (polled ∷ past)
      → IsUnderway (process env r (at t (polled ∷ past))).1
  unfolding process
  process-IsUnderway t past h =
      after_handle-IsUnderway (env.handle (inbound_message_from_record r) t) _ (polled ∷ past)
        (tt, h)

module _ (env : YieldEnvironment) where
  after_record-IsAtRest :
      (y : RebalanceYield) (generation : ℕ) (c : ProcessingContext) (failed : Option GoError)
      (yielded : Bool) (w : World ConsumerEvent)
      → IsUnderway w
      → IsAtRest (after_record env y generation c failed yielded w).1
  unfolding after_record allow_then IsUnderway
  after_record-IsAtRest y generation c failed true w h = allowed-IsAtRest _ _ h.0 h.1
  after_record-IsAtRest y generation c (some e) false w h = allowed-IsAtRest _ _ h.0 h.1
  after_record-IsAtRest y generation c none false w h = allowed-IsAtRest _ _ h.0 h.1

  module _ (y : RebalanceYield) (generation t : ℕ) (past : List ConsumerEvent)
      (h : IsSingle (polled ∷ past)) where
    process_bound-IsAtRest :
        (r : KafkaRecord) → IsAtRest (process_bound env y generation r (at t (polled ∷ past))).1
    unfolding process_bound process IsUnderway
    process_bound-IsAtRest r =
        let (failed, w) = process env.consumer r (at t (polled ∷ past)) in
        let later = requests (env.request_count w.tick) (bind y run_context generation).0 in
        after_record-IsAtRest later generation (bind y run_context generation).1 failed
          (requested_since later generation) (at (w.tick + 1) w.trace)
          (process-IsUnderway env.consumer r t past h)

    process_first-IsAtRest :
        (rs : List (Option KafkaRecord))
        → IsAtRest (process_first env y generation rs (at t (polled ∷ past))).1
    unfolding process_first allow_then
    process_first-IsAtRest [] = allowed-IsAtRest _ _ h tt
    process_first-IsAtRest (none ∷ rs) = allowed-IsAtRest _ _ h tt
    process_first-IsAtRest (some r ∷ rs) = process_bound-IsAtRest r

    process_fetched-IsAtRest :
        (fetches : Fetches) (first : Option GoError)
        → IsAtRest (process_fetched env y generation fetches first (at t (polled ∷ past))).1
    unfolding process_fetched allow_then
    process_fetched-IsAtRest fetches none = process_first-IsAtRest fetches.records
    process_fetched-IsAtRest fetches (some e) = allowed-IsAtRest _ _ h tt

    after_poll_one-IsAtRest :
        (fetches : Fetches) (over : Bool)
        → IsAtRest (after_poll_one env y generation fetches over (at t (polled ∷ past))).1
    unfolding after_poll_one allow_then
    after_poll_one-IsAtRest fetches true = allowed-IsAtRest _ _ h tt
    after_poll_one-IsAtRest fetches false =
        process_fetched-IsAtRest fetches (first_fetch_error fetches)

  poll_one_unless-IsAtRest :
      (y : RebalanceYield) (over : Bool) (w : World ConsumerEvent)
      → IsAtRest w
      → IsAtRest (poll_one_unless env y over w).1
  unfolding poll_one_unless IsAtRest
  poll_one_unless-IsAtRest y true w h = h
  poll_one_unless-IsAtRest y false w h =
      after_poll_one-IsAtRest _ y.generation _ w.trace (h.1, h.0) (env.consumer.poll w.tick) _

  yield_turn-IsAtRest :
      (y : RebalanceYield) (w : World ConsumerEvent) → IsAtRest w → IsAtRest (yield_turn env y w).1
  unfolding yield_turn IsAtRest
  yield_turn-IsAtRest y w h =
      poll_one_unless-IsAtRest (requests (env.request_count (w.tick + 1)) y)
        (env.consumer.context_over w.tick) (at (w.tick + 1 + 1) w.trace) h

  -- In every run of the rebalance-yield consumer that returns, at most one record is handled after each
  -- poll, it is committed only right after it was handled without an error, and every poll is followed
  -- by one AllowRebalance before the next poll and before the return.
  pub run_yield_consumer-IsSingle :
      (fuel t : ℕ) (y : RebalanceYield) (x : World ConsumerEvent) (result : Option GoError)
      → run_yield_consumer env fuel y (record { tick = t; trace = [] }) ≡ (some result, x)
      → IsSingle x.trace × IsIdle x.trace
  unfolding run_yield_consumer IsAtRest
  run_yield_consumer-IsSingle fuel t y x result h =
      let (k, u, v, _, reach, stops) =
        repeat_sound (yield_turn env) fuel y (record { tick = t; trace = [] }) x result h in
      subst (λ r. IsAtRest r.1) stops
        (yield_turn-IsAtRest u v (
          Reaches-invariant (yield_turn env) (λ s w. IsAtRest w)
            (λ s s' w z e k. subst (λ r. IsAtRest r.1) e (yield_turn-IsAtRest s w k)) reach
            (tt, tt)))
