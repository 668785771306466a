-- ===== src/Kafka/Async/Invariant.antt =====
-- internal/adapter/kafka/async_consumer.go: what holds of a batch after any steps of its goroutines.
use variable_star_classifica.Prelude.{
  ℕ, zero, suc, ◌≡◌, ◌∙◌, ap, refl, Bool, true, ◌||◌, List, [], ◌∷◌, ◌++◌, Option, none, some, ℤ,
  int_eq, if-holds, not, append-nil, contains, get_elem?, set, All, arith,
}
use variable_star_classifica.Errors.{GoError}
use variable_star_classifica.Kafka.Tracker.{PartitionKey, is_some}
use variable_star_classifica.Kafka.Records.{KafkaRecord, partition_key}
use variable_star_classifica.Kafka.Async.{RecordIndex, Completion, collect, Worker, Batch}
use variable_star_classifica.Kafka.Async.Schedule.{
  Choice, resume, handler_returned, receive, interrupt, resume_worker, next_record, resume_at,
  return_record, return_at, receive_from, step, run,
}
use variable_star_classifica.Kafka.Async.Tracking.{offsets_of}
use variable_star_classifica.Kafka.Async.Collecting.{
  Collected, collect_success-Collected, fail-Collected,
}

-- Whether a record stands among others, by its partition and offset.
abbrev pub among : KafkaRecord → List KafkaRecord → Bool
among r rs = contains r.offset (offsets_of (partition_key r) rs)

abbrev pub InBatch : List KafkaRecord → KafkaRecord → Type 0
InBatch records r = among r records ≡ true

-- The records of the completions without an error.
abbrev pub success : Completion → Option GoError → List KafkaRecord → List KafkaRecord
success c none rs = c.completed ∷ rs
success c (some e) rs = rs

abbrev pub successes : List Completion → List KafkaRecord
successes [] = []
successes (c ∷ cs) = success c c.error (successes cs)

abbrev pub OptionIn : List KafkaRecord → Option KafkaRecord → Type 0
OptionIn records none = Unit
OptionIn records (some r) = InBatch records r

-- A goroutine only holds records of the batch.
pub record HoldsBatch (records : List KafkaRecord) (w : Worker) : Type 0 where
  pub current : OptionIn records w.current
  pub rest : All (λ r. InBatch records r) w.rest

-- `marked` are the records that the receiving loop took as complete. Those that were handled are
-- these, and those that wait in the channel.
pub record IsSound (records : List KafkaRecord) (index : RecordIndex) (b : Batch)
    (marked : List KafkaRecord) : Type 0 where
  pub workers : All (λ w. HoldsBatch records w) b.workers
  pub channel : All (λ c. InBatch records c.completed) b.channel
  pub collected : Collected records marked index b.collector
  pub accounted :
      (k : PartitionKey) (o : ℤ)
      → contains o (offsets_of k b.handled)
        ≡ (contains o (offsets_of k marked) || contains o (offsets_of k (successes b.channel)))

module _ {ℓ κ} {A : Type ℓ} (P : A → Type κ) where
  pub All-get : (xs : List A) (i : ℕ) (x : A) → All P xs → get_elem? xs i ≡ some x → P x
  All-get [] i x h e = absurd (cc e)
  All-get (y ∷ xs) zero x h e = let same : y ≡ x = cc in rw (← same) h.0
  All-get (y ∷ xs) (suc i) x h e = All-get xs i x h.1 e

  pub All-set : (xs : List A) (i : ℕ) (x : A) → All P xs → P x → All P (set xs i x)
  All-set [] i x h p = tt
  All-set (y ∷ xs) zero x h p = (p, h.1)
  All-set (y ∷ xs) (suc i) x h p = (h.0, All-set xs i x h.1 p)

  pub All-append_one : (xs : List A) (x : A) → All P xs → P x → All P (xs ++ x ∷ [])
  All-append_one [] x h p = (p, tt)
  All-append_one (y ∷ xs) x h p = (h.0, All-append_one xs x h.1 p)

successes-append :
    (cs : List Completion) (c : Completion)
    → successes (cs ++ c ∷ []) ≡ successes cs ++ success c c.error []
successes-append [] c = ground arith
successes-append (d ∷ cs) c = ground (arith, successes-append cs c)

contains-append_record :
    (k : PartitionKey) (o : ℤ) (rs : List KafkaRecord) (r : KafkaRecord)
    → contains o (offsets_of k (rs ++ r ∷ []))
      ≡ (contains o (offsets_of k rs) || contains o (offsets_of k (r ∷ [])))
contains-append_record k o [] r = ground arith
contains-append_record k o (q ∷ rs) r = ground (arith, contains-append_record k o rs r)

next_record-HoldsBatch :
    (records : List KafkaRecord) (w : Worker) (rest : List KafkaRecord)
    → HoldsBatch records w
    → All (λ r. InBatch records r) rest
    → HoldsBatch records (next_record w rest)
next_record-HoldsBatch records w [] h a = record { current = h.current; rest = h.rest }
next_record-HoldsBatch records w (r ∷ rest) h a = record { current = a.0; rest = a.1 }

resume_worker-HoldsBatch :
    (records : List KafkaRecord) (cancelled : Bool) (w : Worker)
    → HoldsBatch records w
    → HoldsBatch records (resume_worker cancelled w)
resume_worker-HoldsBatch records cancelled w h =
    if-holds (HoldsBatch records) (is_some w.current || not w.running) h (
      if-holds (HoldsBatch records) cancelled (record { current = h.current; rest = h.rest })
        (next_record-HoldsBatch records w w.rest h h.rest))

-- The record that the receiving loop marks for a completion, if any.
abbrev pub marked_by : List Completion → List KafkaRecord → List KafkaRecord
marked_by [] marked = marked
marked_by (c ∷ cs) marked = success c c.error marked

-- The marked records after a step.
abbrev pub marked_after : Batch → Choice → List KafkaRecord → List KafkaRecord
marked_after b receive marked = marked_by b.channel marked
marked_after b _ marked = marked

module _ (records : List KafkaRecord) (index : RecordIndex) (b : Batch) (marked : List KafkaRecord)
    (h : IsSound records index b marked) where
  resume_at-IsSound :
      (i : ℕ) (w : Option Worker)
      → get_elem? b.workers i ≡ w
      → IsSound records index (resume_at b i w) marked
  resume_at-IsSound i none e = h
  resume_at-IsSound i (some w) e = record {
    workers =
        All-set (HoldsBatch records) b.workers i (resume_worker b.collector.cancelled w) h.workers (
          resume_worker-HoldsBatch records b.collector.cancelled w
            (All-get (HoldsBatch records) b.workers i w h.workers e));
    channel = h.channel;
    collected = h.collected;
    accounted = h.accounted;
  }

  return_record-IsSound :
      (i : ℕ) (w : Worker) (current : Option KafkaRecord) (result : Option GoError)
      → HoldsBatch records w
      → OptionIn records current
      → IsSound records index (return_record b i w current result) marked
  return_record-IsSound i w none result hw hc = h
  return_record-IsSound i w (some r) none hw hc = record {
    workers =
        All-set (HoldsBatch records) b.workers i _ h.workers
          (record { current = tt; rest = hw.rest });
    channel = All-append_one (λ c. InBatch records c.completed) b.channel _ h.channel hc;
    collected = h.collected;
    accounted = λ k o.
        rw (successes-append b.channel (record { completed = r; error = none }))
          (ground (arith, h.accounted k o, contains-append_record k o (successes b.channel) r));
  }
  return_record-IsSound i w (some r) (some e) hw hc = record {
    workers =
        All-set (HoldsBatch records) b.workers i _ h.workers
          (record { current = tt; rest = hw.rest });
    channel = All-append_one (λ c. InBatch records c.completed) b.channel _ h.channel hc;
    collected = fail-Collected records marked index b.collector h.collected _ true;
    accounted = λ k o.
        rw (successes-append b.channel (record { completed = r; error = some e }), append-nil)
          (h.accounted k o);
  }

  return_at-IsSound :
      (i : ℕ) (w : Option Worker) (result : Option GoError)
      → get_elem? b.workers i ≡ w
      → IsSound records index (return_at b i w result) marked
  return_at-IsSound i none result e = h
  return_at-IsSound i (some w) result e =
      let hw = All-get (HoldsBatch records) b.workers i w h.workers e in
      return_record-IsSound i w w.current result hw hw.current

  received-IsSound :
      (r : KafkaRecord) (result : Option GoError) (cs : List Completion)
      → b.channel ≡ record { completed = r; error = result } ∷ cs
      → IsSound records index
          (record b {
            channel = cs;
            collector = collect index b.collector (record { completed = r; error = result });
          })
          (success (record { completed = r; error = result }) result marked)
  unfolding collect
  received-IsSound r none cs e =
      let in_batch = rw e at h.channel in
      record {
        workers = h.workers;
        channel = in_batch.1;
        collected =
            collect_success-Collected records marked index b.collector h.collected r in_batch.0;
        accounted = λ k o.
            ground (arith, h.accounted k o, ap (λ l. contains o (offsets_of k (successes l))) e);
      }
  received-IsSound r (some x) cs e = record {
    workers = h.workers;
    channel = (rw e at h.channel).1;
    collected = h.collected;
    accounted = λ k o.
        h.accounted k o
        ∙ ap (λ l. contains o (offsets_of k marked) || contains o (offsets_of k (successes l))) e;
  }

  receive_from-IsSound :
      (cs : List Completion)
      → b.channel ≡ cs
      → IsSound records index (receive_from index b cs) (marked_by cs marked)
  receive_from-IsSound [] e = h
  receive_from-IsSound (c ∷ cs) e = received-IsSound c.completed c.error cs e

  step-IsSound : (c : Choice) → IsSound records index (step index b c) (marked_after b c marked)
  unfolding step
  step-IsSound (resume i) = resume_at-IsSound i (get_elem? b.workers i) refl
  step-IsSound (handler_returned i result) = return_at-IsSound i (get_elem? b.workers i) result refl
  step-IsSound receive = receive_from-IsSound b.channel refl
  step-IsSound interrupt = record {
    workers = h.workers;
    channel = h.channel;
    collected = fail-Collected records marked index b.collector h.collected _ true;
    accounted = h.accounted;
  }

pub run-IsSound :
    (records : List KafkaRecord) (index : RecordIndex) (cs : List Choice) (b : Batch)
    (marked : List KafkaRecord)
    → IsSound records index b marked
    → (marked' : List KafkaRecord) × IsSound records index (run index b cs) marked'
unfolding run
run-IsSound records index [] b marked h = (marked, h)
run-IsSound records index (c ∷ cs) b marked h =
    run-IsSound records index cs (step index b c) (marked_after b c marked)
      (step-IsSound records index b marked h c)
