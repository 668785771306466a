-- ===== src/Kafka/Async/Start.antt =====
-- internal/adapter/kafka/async_consumer.go: a batch before its goroutines run.
use variable_star_classifica.Prelude.{
  ◌≡◌, ◌∙◌, sym, refl, true, List, [], ◌∷◌, map, int_eq, if-holds, All, arith, eqb_ℤ_iff,
}
use variable_star_classifica.Kafka.Tracker.{eqb_key_iff}
use variable_star_classifica.Kafka.Records.{KafkaRecord, partition_key}
use variable_star_classifica.Kafka.Groups.{ProcessingKey, eqb_processing, record_processing_key}
use variable_star_classifica.Kafka.Groups.Order.{with_key, group_records-with_key}
use variable_star_classifica.Kafka.Async.{Tracked, new_worker}
use variable_star_classifica.Kafka.Async.Schedule.{start}
use variable_star_classifica.Kafka.Async.Tracking.{state_at, IsTracked, prefix-nil}
use variable_star_classifica.Kafka.Async.Invariant.{HoldsBatch, InBatch, IsSound, among}

among-cons :
    (q r : KafkaRecord) (rs : List KafkaRecord) → among q rs ≡ true → among q (r ∷ rs) ≡ true
among-cons q r rs h = ground arith

All-among-cons :
    (r : KafkaRecord) (rs qs : List KafkaRecord)
    → All (λ q. InBatch rs q) qs
    → All (λ q. InBatch (r ∷ rs) q) qs
All-among-cons r rs [] h = tt
All-among-cons r rs (q ∷ qs) h = (among-cons q r rs h.0, All-among-cons r rs qs h.1)

among-head : (r : KafkaRecord) (rs : List KafkaRecord) → among r (r ∷ rs) ≡ true
among-head r rs =
    ground (arith, eqb_key_iff (partition_key r) (partition_key r), eqb_ℤ_iff r.offset r.offset)

with_key-InBatch :
    (k : ProcessingKey) (rs : List KafkaRecord) → All (λ q. InBatch rs q) (with_key k rs)
with_key-InBatch k [] = tt
with_key-InBatch k (r ∷ rs) =
    if-holds (λ qs. All (λ q. InBatch (r ∷ rs) q) qs) (eqb_processing (record_processing_key r) k)
      (among-head r rs, All-among-cons r rs (with_key k rs) (with_key-InBatch k rs))
      (All-among-cons r rs (with_key k rs) (with_key-InBatch k rs))

new_workers-HoldsBatch :
    (records : List KafkaRecord) (ks : List ProcessingKey)
    → All (λ w. HoldsBatch records w) (map new_worker (map (λ k. with_key k records) ks))
new_workers-HoldsBatch records [] = tt
new_workers-HoldsBatch records (k ∷ ks) =
    (record { current = tt; rest = with_key-InBatch k records }, new_workers-HoldsBatch records ks)

-- A tracked batch is sound before its goroutines run.
pub start-IsSound :
    (records : List KafkaRecord) (t : Tracked)
    → IsTracked records t
    → IsSound records t.index (start t.tracker records) []
unfolding start
start-IsSound records t h =
    let (ks, e, once', only) = group_records-with_key records in
    record {
      workers = rw e (new_workers-HoldsBatch records ks);
      channel = tt;
      collected = record {
        states = h.states;
        offsets = h.offsets;
        committed = λ k. rw ((h.states k).next ∙ prefix-nil (state_at k t.tracker).offsets);
        count = sym h.none_passed;
      };
      accounted = λ k o. refl;
    }
