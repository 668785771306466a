-- ===== src/Kafka/Async/Collecting.antt =====
-- internal/adapter/kafka/async_consumer.go: what the collected completions make committable.
use variable_star_classifica.Prelude.{
  subst, not, ℕ, ◌-◌, ◌<◌, ◌==◌, ◌≡◌, Bool, true, false, ◌||◌, List, ◌∷◌, Option, none, some, ℤ,
  int_eq, lookup, insert, lookup-insert, contains, get_elem?, if◌then◌else◌, arith, Bool-cases,
  Option-cases, inl, inr,
}
use variable_star_classifica.Errors.{ok}
use variable_star_classifica.Kafka.Tracker.{
  PartitionKey, PartitionState, key_eq, eqb_key, eqb_key_iff, Tracker, mark_completed, mark_state,
}
use variable_star_classifica.Kafka.Tracker.Partition.{Represents, Marks, mark_state-Marks}
use variable_star_classifica.Kafka.Records.{KafkaRecord, partition_key}
use variable_star_classifica.Kafka.Async.{
  RecordIndex, find_record, Collector, collect, advance_commit, Failure,
}
use variable_star_classifica.Kafka.Async.Tracking.{offsets_of, state_at, sum_next, sum_next-insert}

abbrev pub find_at : RecordIndex → PartitionKey → Option ℤ → Option KafkaRecord
find_at index k none = none
find_at index k (some o) = find_record k o index

-- The last record of a partition's completed prefix, if there is one.
abbrev pub commit_at : RecordIndex → PartitionKey → PartitionState → Option (Option KafkaRecord)
commit_at index k s =
    if s.next == 0 then none else some (find_at index k (get_elem? s.offsets (s.next - 1)))

pub record Collected (records marked : List KafkaRecord) (index : RecordIndex) (c : Collector)
    : Type 0 where
  pub states : (k : PartitionKey) → Represents (state_at k c.tracker) (offsets_of k marked)
  pub offsets : (k : PartitionKey) → (state_at k c.tracker).offsets ≡ offsets_of k records
  pub committed :
      (k : PartitionKey) → lookup k c.committable ≡ commit_at index k (state_at k c.tracker)
  pub count : c.committable_record_count ≡ sum_next c.tracker

mark_completed-found :
    (t : Tracker) (k : PartitionKey) (o : ℤ) (s' : PartitionState) (c : ℤ) (n : ℕ)
    → contains o (state_at k t).offsets ≡ true
    → mark_state (state_at k t) o ≡ ok (s', c, n)
    → mark_completed t k o ≡ (insert k s' t, ok (c, n))
unfolding mark_completed
mark_completed-found t k o s' c n tracked marked = elim (Option-cases (lookup k t)) [
  | inl missing ↦ absurd (cc (rw missing at tracked))
  | inr (s, found) ↦ rw found (rw (rw found at marked))
]

module _ (records marked : List KafkaRecord) (index : RecordIndex) (c : Collector)
    (h : Collected records marked index c) (r : KafkaRecord) (s' : PartitionState) (o : ℤ) (n : ℕ)
    (m : Marks
      (state_at (partition_key r) c.tracker)
      (offsets_of (partition_key r) marked)
      r.offset
      s'
      o
      n) where
  after : Collector
  after = advance_commit index c r (insert (partition_key r) s' c.tracker, ok (o, n))

  tracker-after : after.tracker ≡ insert (partition_key r) s' c.tracker
  unfolding after
  tracker-after = ground arith

  state-after :
      (k : PartitionKey)
      → state_at k after.tracker
        ≡ (if eqb_key (partition_key r) k then s' else state_at k c.tracker)
  state-after k = rw (tracker-after, lookup-insert (partition_key r) k s' c.tracker) (ground arith)

  states-after :
      (k : PartitionKey) → Represents (state_at k after.tracker) (offsets_of k (r ∷ marked))
  states-after k = elim (Bool-cases (eqb_key (partition_key r) k)) [
    | inl same ↦
        let at : partition_key r ≡ k = (eqb_key_iff (partition_key r) k).0 same in
        rw (state-after k, same)
          (subst (λ j. Represents s' (r.offset ∷ offsets_of j marked)) at m.represents)
    | inr other ↦ rw (state-after k, other) (h.states k)
  ]

  offsets-after : (k : PartitionKey) → (state_at k after.tracker).offsets ≡ offsets_of k records
  offsets-after k = elim (Bool-cases (eqb_key (partition_key r) k)) [
    | inl same ↦
        rw (state-after k, same)
          (ground
            (arith, m.same_offsets, h.offsets (partition_key r), eqb_key_iff (partition_key r) k))
    | inr other ↦ rw (state-after k, other) (h.offsets k)
  ]

  commit_at-same :
      n ≡ 0
      → commit_at index (partition_key r) s'
        ≡ commit_at index (partition_key r) (state_at (partition_key r) c.tracker)
  commit_at-same z = ground (arith, m.same_offsets, m.advanced)

  commit_at-new :
      0 < n → commit_at index (partition_key r) s' ≡ some (find_record (partition_key r) o index)
  commit_at-new p = ground (arith, m.advanced, m.offset p)

  committable-after :
      (k : PartitionKey)
      → lookup k after.committable ≡ (
          if (n == 0) || not (eqb_key (partition_key r) k)
          then lookup k c.committable
          else some (find_record (partition_key r) o index))
  unfolding after
  committable-after k = ground (
    arith,
    lookup-insert (partition_key r) k (find_record (partition_key r) o index) c.committable,
  )

  committed-here :
      (if (n == 0) || false
        then lookup (partition_key r) c.committable
        else some (find_record (partition_key r) o index))
      ≡ commit_at index (partition_key r) s'
  committed-here = ground (arith, h.committed (partition_key r), commit_at-same, commit_at-new)

  committed-after :
      (k : PartitionKey) → lookup k after.committable ≡ commit_at index k (state_at k after.tracker)
  committed-after k = elim (Bool-cases (eqb_key (partition_key r) k)) [
    | inl same ↦
        let at : partition_key r ≡ k = (eqb_key_iff (partition_key r) k).0 same in
        rw (committable-after k, state-after k, same)
          (subst
            (λ j.
              (if (n == 0) || false
                then lookup j c.committable
                else some (find_record (partition_key r) o index))
              ≡ commit_at index j s')
            at committed-here)
    | inr other ↦ rw (committable-after k, state-after k, other) (ground (arith, h.committed k))
  ]

  count-after : after.committable_record_count ≡ sum_next after.tracker
  unfolding after
  count-after = ground (arith, h.count, sum_next-insert (partition_key r) s' c.tracker, m.advanced)

  after-Collected : Collected records (r ∷ marked) index after
  after-Collected = record {
    states = states-after;
    offsets = offsets-after;
    committed = committed-after;
    count = count-after;
  }

module _ (records marked : List KafkaRecord) (index : RecordIndex) (c : Collector)
    (h : Collected records marked index c) where
  -- A completion without an error, for a record of the batch, marks that record.
  pub collect_success-Collected :
      (r : KafkaRecord)
      → contains r.offset (offsets_of (partition_key r) records) ≡ true
      → Collected records
          (r ∷ marked)
          index
          (collect index c (record { completed = r; error = none }))
  unfolding collect after
  collect_success-Collected r batch =
      let tracked : contains r.offset (state_at (partition_key r) c.tracker).offsets ≡ true =
        rw (h.offsets (partition_key r)) batch in
      let (s', o, n, e, m) =
        mark_state-Marks (state_at (partition_key r) c.tracker)
          (offsets_of (partition_key r) marked) r.offset (h.states (partition_key r)) tracked in
      rw (mark_completed-found c.tracker (partition_key r) r.offset s' o n tracked e)
        (after-Collected records marked index c h r s' o n m)

  -- What a failing goroutine changes is no part of it.
  pub fail-Collected :
      (f : Option Failure) (b : Bool)
      → Collected records marked index (record c { first_failure = f; cancelled = b })
  fail-Collected f b = record {
    states = h.states;
    offsets = h.offsets;
    committed = h.committed;
    count = h.count;
  }
