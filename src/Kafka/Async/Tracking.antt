-- ===== src/Kafka/Async/Tracking.antt =====
-- internal/adapter/kafka/async_consumer.go: what the first loop of processBatch leaves behind.
use variable_star_classifica.Prelude.{
  append_assoc, subst, append-nil, eqb_ℤ, ◌&&◌, ℕ, ◌+◌, ◌≡◌, ◌∙◌, sym, ap, refl, true, false, ◌||◌,
  List, [], ◌∷◌, ◌++◌, some, ℤ, int_eq, eqb_ℤ_iff, lookup, insert, lookup-insert, contains,
  if◌then◌else◌, arith, Bool-cases, inl, inr,
}
use variable_star_classifica.Errors.{Result-cases, ok}
use variable_star_classifica.Kafka.Tracker.{
  PartitionKey, PartitionState, key_eq, eqb_key, eqb_key_iff, Tracker, new_tracker, state_or_empty,
  track, track_state,
}
use variable_star_classifica.Kafka.Tracker.Prefix.{completed_prefix}
use variable_star_classifica.Kafka.Tracker.Partition.{Represents, empty_state-Represents}
use variable_star_classifica.Kafka.Tracker.Tracking.{Tracks, track_state-Tracks}
use variable_star_classifica.Kafka.Records.{KafkaRecord, partition_key}
use variable_star_classifica.Kafka.Async.{
  row_or_empty, find_record, Tracked, track_record, track_records,
}

-- The offsets of a partition among some records, in their order.
abbrev pub offsets_of : PartitionKey → List KafkaRecord → List ℤ
offsets_of k [] = []
offsets_of k (r ∷ rs) =
    if eqb_key (partition_key r) k then r.offset ∷ offsets_of k rs else offsets_of k rs

abbrev pub state_at : PartitionKey → Tracker → PartitionState
state_at k t = state_or_empty (lookup k t)

-- The records in the completed prefixes of all partitions.
abbrev pub sum_next : Tracker → ℕ
sum_next [] = 0
sum_next ((k, s) ∷ t) = s.next + sum_next t

pub sum_next-insert :
    (k : PartitionKey) (s : PartitionState) (t : Tracker)
    → sum_next (insert k s t) + (state_at k t).next ≡ sum_next t + s.next
sum_next-insert k s [] = omega arith
sum_next-insert k s ((j, u) ∷ t) = ground (arith, sum_next-insert k s t)

-- With nothing done no record is passed.
pub prefix-nil : (os : List ℤ) → completed_prefix [] os ≡ 0
prefix-nil [] = refl
prefix-nil (o ∷ os) = refl

-- What the first loop of processBatch leaves for the records that it has seen.
pub record IsTracked (seen : List KafkaRecord) (t : Tracked) : Type 0 where
  pub states : (k : PartitionKey) → Represents (state_at k t.tracker) []
  pub offsets : (k : PartitionKey) → (state_at k t.tracker).offsets ≡ offsets_of k seen
  pub indexed :
      (k : PartitionKey) (o : ℤ)
      → contains o (offsets_of k seen) ≡ true
      → (r : KafkaRecord) × (find_record k o t.index ≡ some r)
        × (partition_key r ≡ k)
        × (r.offset ≡ o)
  pub none_passed : sum_next t.tracker ≡ 0

offsets_of-append_one :
    (k : PartitionKey) (r : KafkaRecord) (rs : List KafkaRecord)
    → offsets_of k (rs ++ r ∷ []) ≡ offsets_of k rs ++ offsets_of k (r ∷ [])
offsets_of-append_one k r [] = refl
offsets_of-append_one k r (q ∷ rs) = ground (arith, offsets_of-append_one k r rs)

contains-append_offset :
    (o p : ℤ) (os : List ℤ) → contains o (os ++ p ∷ []) ≡ (contains o os || eqb_ℤ p o)
contains-append_offset o p [] = ground arith
contains-append_offset o p (q ∷ os) = ground (arith, contains-append_offset o p os)

contained_before :
    (k : PartitionKey) (o : ℤ) (r : KafkaRecord) (seen : List KafkaRecord)
    → (eqb_key (partition_key r) k && eqb_ℤ r.offset o) ≡ false
    → contains o (offsets_of k (seen ++ r ∷ [])) ≡ true
    → contains o (offsets_of k seen) ≡ true
contained_before k o r seen old c = elim (Bool-cases (eqb_key (partition_key r) k)) [
  | inl same ↦
      ground (
        arith,
        offsets_of-append_one k r seen,
        contains-append_offset o r.offset (offsets_of k seen),
      )
  | inr other ↦ ground (arith, offsets_of-append_one k r seen, append-nil (offsets_of k seen))
]

-- How a successful step of the loop comes about.
pub record TrackStep (t : Tracked) (r : KafkaRecord) (t' : Tracked) : Type 0 where
  pub new_state : PartitionState
  pub accepted : track_state (state_at (partition_key r) t.tracker) r.offset ≡ ok new_state
  pub tracker : t'.tracker ≡ insert (partition_key r) new_state t.tracker
  pub index :
      t'.index
      ≡ insert
          (partition_key r)
          (insert r.offset r (row_or_empty (lookup (partition_key r) t.index)))
          t.index

track_record-TrackStep :
    (t : Tracked) (r : KafkaRecord) (t' : Tracked) → track_record t r ≡ ok t' → TrackStep t r t'
unfolding track_record track
track_record-TrackStep t r t' h =
    elim (Result-cases (track_state (state_at (partition_key r) t.tracker) r.offset)) [
      | inl (s, e) ↦
          let same = rw e at h in
          record { new_state = s; accepted = e; tracker = cc same; index = cc same }
      | inr (x, e) ↦ absurd (cc (rw e at h))
    ]

module _ (seen : List KafkaRecord) (t : Tracked) (h : IsTracked seen t) (r : KafkaRecord)
    (t' : Tracked) (st : TrackStep t r t') where
  tracks : Tracks (state_at (partition_key r) t.tracker) [] r.offset st.new_state
  tracks = track_state-Tracks _ [] r.offset (h.states (partition_key r)) st.new_state st.accepted

  state_at-step :
      (k : PartitionKey)
      → state_at k t'.tracker
        ≡ (if eqb_key (partition_key r) k then st.new_state else state_at k t.tracker)
  state_at-step k =
      rw (st.tracker, lookup-insert (partition_key r) k st.new_state t.tracker) (ground arith)

  states-step : (k : PartitionKey) → Represents (state_at k t'.tracker) []
  states-step k = elim (Bool-cases (eqb_key (partition_key r) k)) [
    | inl same ↦ rw (state_at-step k) (rw same tracks.represents)
    | inr other ↦ rw (state_at-step k) (rw other (h.states k))
  ]

  offsets-step :
      (k : PartitionKey) → (state_at k t'.tracker).offsets ≡ offsets_of k (seen ++ r ∷ [])
  offsets-step k = elim (Bool-cases (eqb_key (partition_key r) k)) [
    | inl same ↦
        let at : partition_key r ≡ k = (eqb_key_iff (partition_key r) k).0 same in
        rw (state_at-step k, offsets_of-append_one k r seen)
          (rw same (
            rw (tracks.appended, h.offsets (partition_key r))
              (ap (λ j. offsets_of j seen ++ r.offset ∷ []) at)))
    | inr other ↦
        rw (state_at-step k, offsets_of-append_one k r seen)
          (rw other (h.offsets k ∙ sym (append-nil (offsets_of k seen))))
  ]

  row-step :
      (k : PartitionKey) (o : ℤ)
      → find_record k o t'.index ≡ (
          if eqb_key (partition_key r) k && eqb_ℤ r.offset o
          then some r
          else find_record k o t.index)
  row-step k o =
      rw
        (
          st.index,
          lookup-insert (partition_key r) k
              (insert r.offset r (row_or_empty (lookup (partition_key r) t.index))) t.index,
        )
        (ground (
          arith,
          lookup-insert r.offset o r (row_or_empty (lookup (partition_key r) t.index)),
          eqb_key_iff (partition_key r) k,
        ))

  indexed-step :
      (k : PartitionKey) (o : ℤ)
      → contains o (offsets_of k (seen ++ r ∷ [])) ≡ true
      → (q : KafkaRecord) × (find_record k o t'.index ≡ some q)
        × (partition_key q ≡ k)
        × (q.offset ≡ o)
  indexed-step k o c = elim (Bool-cases (eqb_key (partition_key r) k && eqb_ℤ r.offset o)) [
    | inl new ↦ (
      r,
      rw (row-step k o) (rw new),
      ground (arith, eqb_key_iff (partition_key r) k),
      ground (arith, eqb_ℤ_iff r.offset o),
    )
    | inr old ↦
        let (q, e, at, on) = h.indexed k o (contained_before k o r seen old c) in
        (q, rw (row-step k o) (rw old e), at, on)
  ]

  none_passed-step : sum_next t'.tracker ≡ 0
  none_passed-step = rw st.tracker (
      omega (
        arith,
        h.none_passed,
        sum_next-insert (partition_key r) st.new_state t.tracker,
        tracks.represents.next,
        prefix-nil st.new_state.offsets,
      ))

  track_record-IsTracked : IsTracked (seen ++ r ∷ []) t'
  track_record-IsTracked = record {
    states = states-step;
    offsets = offsets-step;
    indexed = indexed-step;
    none_passed = none_passed-step;
  }

track_records-seen :
    (seen rest : List KafkaRecord) (t t' : Tracked)
    → IsTracked seen t
    → track_records t rest ≡ ok t'
    → IsTracked (seen ++ rest) t'
unfolding track_records
track_records-seen seen [] t t' h e = let same : t ≡ t' = cc in rw (← same, append-nil) h
track_records-seen seen (r ∷ rest) t t' h e = elim (Result-cases (track_record t r)) [
  | inl (u, one) ↦
      subst (λ all. IsTracked all t') (append_assoc seen (r ∷ []) rest)
        (track_records-seen (seen ++ r ∷ []) rest u t'
          (track_record-IsTracked seen t h r u (track_record-TrackStep t r u one)) (rw one at e))
  | inr (x, refused) ↦ absurd (cc (rw refused at e))
]

abbrev pub nothing_tracked : Tracked
nothing_tracked = record { tracker = new_tracker; index = [] }

pub track_records-IsTracked :
    (records : List KafkaRecord) (t : Tracked)
    → track_records nothing_tracked records ≡ ok t
    → IsTracked records t
track_records-IsTracked records t e =
    track_records-seen [] records nothing_tracked t
      (record {
        states = λ k. empty_state-Represents;
        offsets = λ k. refl;
        indexed = λ k o c. absurd (cc c);
        none_passed = refl;
      })
      e
