-- ===== src/Kafka/Consumer/Protocol.antt =====
-- internal/adapter/kafka/consumer.go: the order of the calls that a run makes.
use variable_star_classifica.Prelude.{
  ℕ, ◌+◌, ◌≡◌, sym, subst, refl, Bool, true, false, List, [], ◌∷◌, Option, none, some,
}
use variable_star_classifica.Prelude.Effects.{World}
use variable_star_classifica.Prelude.Loops.{repeat_sound, Reaches-invariant}
use variable_star_classifica.Errors.{GoError}
use variable_star_classifica.Kafka.Records.{
  KafkaRecord, Fetches, inbound_message_from_record, first_fetch_error,
}
use variable_star_classifica.Kafka.Consumer.{
  ConsumerEvent, polled, handled, committed, allowed_rebalance, ConsumerEnvironment, after_commit,
  after_handle, process, unless_failed, process_records, process_unless, process_fetches,
  after_process, process_poll, poll_unless, turn, run_consumer,
}

-- Between two polls: nothing has been polled, or a rebalance was allowed since.
abbrev pub IsIdle : List ConsumerEvent → Type 0
IsIdle [] = Unit
IsIdle (allowed_rebalance ∷ es) = Unit
IsIdle _ = ⊥

-- A record may be handled after a poll, or after the record before it was committed.
abbrev pub MayHandle : List ConsumerEvent → Type 0
MayHandle (polled ∷ es) = Unit
MayHandle (committed r none ∷ es) = Unit
MayHandle _ = ⊥

-- A record may be committed right after it was handled without an error.
abbrev pub MayCommit : KafkaRecord → List ConsumerEvent → Type 0
MayCommit r (handled q none ∷ es) = q ≡ r
MayCommit r _ = ⊥

-- A rebalance is allowed once for a poll.
abbrev pub IsBusy : List ConsumerEvent → Type 0
IsBusy [] = ⊥
IsBusy (allowed_rebalance ∷ es) = ⊥
IsBusy _ = Unit

-- The events of a trace came in a permitted order; the latest stands first.
abbrev pub IsPermitted : List ConsumerEvent → Type 0
IsPermitted [] = Unit
IsPermitted (polled ∷ es) = IsIdle es × IsPermitted es
IsPermitted (handled r e ∷ es) = MayHandle es × IsPermitted es
IsPermitted (committed r e ∷ es) = MayCommit r es × IsPermitted es
IsPermitted (allowed_rebalance ∷ es) = IsBusy es × IsPermitted es

-- After the processing of some records: permitted, and if they went well, another may follow.
Processed : Option GoError × World ConsumerEvent → Type 0
Processed (none, w) = IsPermitted w.trace × MayHandle w.trace
Processed (some e, w) = IsPermitted w.trace × IsBusy w.trace

busy : (es : List ConsumerEvent) → MayHandle es → IsBusy es
busy [] h = h
busy (polled ∷ es) h = tt
busy (handled r e ∷ es) h = tt
busy (committed r e ∷ es) h = tt
busy (allowed_rebalance ∷ es) h = h

Processed-IsBusy :
    (p : Option GoError × World ConsumerEvent)
    → Processed p
    → IsPermitted p.1.trace × IsBusy p.1.trace
unfolding Processed
Processed-IsBusy (none, w) h = (h.0, busy w.trace h.1)
Processed-IsBusy (some e, w) h = h

module _ (env : ConsumerEnvironment) where
  after_commit-Processed :
      (r : KafkaRecord) (failed : Option GoError) (w : World ConsumerEvent)
      (past : List ConsumerEvent)
      → w.trace ≡ committed r failed ∷ past
      → IsPermitted (committed r failed ∷ past)
      → Processed (after_commit env failed w)
  unfolding after_commit Processed
  after_commit-Processed r none w past e h =
      (subst IsPermitted (sym e) h, subst MayHandle (sym e) tt)
  after_commit-Processed r (some f) w past e h =
      (subst IsPermitted (sym e) h, subst IsBusy (sym e) tt)

  after_handle-Processed :
      (r : KafkaRecord) (failed : Option GoError) (w : World ConsumerEvent)
      (past : List ConsumerEvent)
      → w.trace ≡ handled r failed ∷ past
      → IsPermitted (handled r failed ∷ past)
      → Processed (after_handle env r failed w)
  unfolding after_handle Processed
  after_handle-Processed r none w past e h =
      after_commit-Processed r (env.commit_records r w.tick) _ w.trace refl
        (subst (MayCommit r) (sym e) refl, subst IsPermitted (sym e) h)
  after_handle-Processed r (some f) w past e h =
      (subst IsPermitted (sym e) h, subst IsBusy (sym e) tt)

  process-Processed :
      (r : KafkaRecord) (w : World ConsumerEvent)
      → IsPermitted w.trace
      → MayHandle w.trace
      → Processed (process env r w)
  unfolding process
  process-Processed r w h may =
      after_handle-Processed r (env.handle (inbound_message_from_record r) w.tick) _ w.trace refl
        (may, h)

  unless_failed-Processed :
      (rest : World ConsumerEvent → Option GoError × World ConsumerEvent)
      → ((v : World ConsumerEvent) → IsPermitted v.trace → MayHandle v.trace → Processed (rest v))
      → (p : Option GoError × World ConsumerEvent) → Processed p
      → Processed (unless_failed env rest p.0 p.1)
  unfolding unless_failed Processed
  unless_failed-Processed rest h (none, v) k = h v k.0 k.1
  unless_failed-Processed rest h (some e, v) k = k

  process_records-Processed :
      (rs : List (Option KafkaRecord)) (w : World ConsumerEvent)
      → IsPermitted w.trace
      → MayHandle w.trace
      → Processed (process_records env rs w)
  unfolding process_records Processed
  process_records-Processed [] w h may = (h, may)
  process_records-Processed (none ∷ rs) w h may = (h, busy w.trace may)
  process_records-Processed (some r ∷ rs) w h may =
      unless_failed-Processed (process_records env rs) (λ v k m. process_records-Processed rs v k m)
        (process env r w) (process-Processed r w h may)

  process_fetches-Processed :
      (fetches : Fetches) (first : Option GoError) (w : World ConsumerEvent)
      → IsPermitted w.trace
      → MayHandle w.trace
      → Processed (process_unless env first fetches w)
  unfolding process_unless Processed
  process_fetches-Processed fetches none w h may = process_records-Processed fetches.records w h may
  process_fetches-Processed fetches (some e) w h may = (h, busy w.trace may)

  -- A turn that starts between two polls ends between two polls.
  IsBetween : World ConsumerEvent → Type 0
  IsBetween w = IsPermitted w.trace × IsIdle w.trace

  after_process-IsBetween :
      (failed : Option GoError) (w : World ConsumerEvent)
      → IsBetween w
      → IsBetween (after_process env failed w).1
  unfolding after_process IsBetween
  after_process-IsBetween none w h = h
  after_process-IsBetween (some e) w h = h

  process_poll-IsBetween :
      (fetches : Fetches) (over : Bool) (w : World ConsumerEvent)
      → IsPermitted w.trace
      → MayHandle w.trace
      → IsBetween (process_poll env fetches over w).1
  unfolding process_poll process_fetches IsBetween
  process_poll-IsBetween fetches true w h may = ((busy w.trace may, h), tt)
  process_poll-IsBetween fetches false w h may =
      let p = process_fetches env fetches w in
      let (permitted, then_busy) =
        Processed-IsBusy p
          (process_fetches-Processed fetches (first_fetch_error fetches) w h may) in
      after_process-IsBetween p.0 (record p.1 { trace = allowed_rebalance ∷ p.1.trace })
        ((then_busy, permitted), tt)

  turn-IsBetween : (w : World ConsumerEvent) → IsBetween w → IsBetween (turn env tt w).1
  unfolding turn IsBetween
  turn-IsBetween w h = next (env.context_over w.tick) (record w { tick = w.tick + 1 }) h
    where
      next :
          (over : Bool) (v : World ConsumerEvent)
          → IsBetween v
          → IsBetween (poll_unless env over v).1
      next true v k = k
      next false v k = process_poll-IsBetween (env.poll v.tick) _ _ (k.1, k.0) tt

  -- In every run of the synchronous consumer, a record is committed right after it was handled without
  -- an error, the next one is handled only after that commit succeeded, and every poll is followed by
  -- one AllowRebalance before the next poll and before the return.
  pub run_consumer-IsPermitted :
      (fuel t : ℕ) (x : World ConsumerEvent) (result : Option GoError)
      → run_consumer env fuel (record { tick = t; trace = [] }) ≡ (some result, x)
      → IsPermitted x.trace × IsIdle x.trace
  unfolding run_consumer IsBetween
  run_consumer-IsPermitted fuel t x result h =
      let (k, u, v, _, reach, stops) =
        repeat_sound (turn env) fuel tt (record { tick = t; trace = [] }) x result h in
      subst (λ r. IsBetween r.1) stops
        (turn-IsBetween v (
          Reaches-invariant (turn env) (λ s w. IsBetween w)
            (λ s s' w y e k. subst (λ r. IsBetween r.1) e (turn-IsBetween w k)) reach (tt, tt)))
