-- ===== src/Kafka/Async/Commit.antt =====
-- internal/adapter/kafka/async_consumer.go: which records a batch commits.
use variable_star_classifica.Prelude.{
  subst, ℕ, zero, suc, ◌-◌, ◌<◌, ◌==◌, ◌≡◌, ◌∙◌, sym, ap, refl, ◌⊎◌, true, List, [], ◌∷◌, Option,
  none, some, ℤ, ◌<ℤ◌, ◌≤ℤ◌, int_eq, contains, lookup, get_elem?, All, arith, Bool-cases, inl, inr,
  eqb_ℤ_iff, length,
}
use variable_star_classifica.Errors.{ok}
use variable_star_classifica.Kafka.Tracker.{PartitionKey, PartitionState, key_eq}
use variable_star_classifica.Kafka.Tracker.Prefix.{completed_prefix, IsAscending}
use variable_star_classifica.Kafka.Tracker.Partition.{Represents, prefix-le-length}
use variable_star_classifica.Kafka.Records.{KafkaRecord, partition_key}
use variable_star_classifica.Kafka.Async.{Tracked, track_records, Completion, Batch}
use variable_star_classifica.Kafka.Async.Schedule.{Choice, run, start, is_drained}
use variable_star_classifica.Kafka.Async.Tracking.{
  offsets_of, state_at, IsTracked, nothing_tracked, track_records-IsTracked,
}
use variable_star_classifica.Kafka.Async.Collecting.{commit_at}
use variable_star_classifica.Kafka.Async.Invariant.{IsSound, run-IsSound, successes}
use variable_star_classifica.Kafka.Async.Start.{start-IsSound}

prefix_ext :
    (xs ys os : List ℤ)
    → ((o : ℤ) → contains o xs ≡ contains o ys)
    → completed_prefix xs os ≡ completed_prefix ys os
prefix_ext xs ys [] h = refl
prefix_ext xs ys (o ∷ os) h = ground (arith, h o, prefix_ext xs ys os h)

contains-get_elem? : (os : List ℤ) (m : ℕ) (o : ℤ) → get_elem? os m ≡ some o → contains o os ≡ true
contains-get_elem? [] m o h = cc
contains-get_elem? (p ∷ os) zero o h = ground (arith, eqb_ℤ_iff p o)
contains-get_elem? (p ∷ os) (suc m) o h = ground (arith, contains-get_elem? os m o)

get_elem?-length : (os : List ℤ) (m : ℕ) → m < length os → (o : ℤ) × (get_elem? os m ≡ some o)
get_elem?-length [] m h = absurd (omega arith)
get_elem?-length (p ∷ os) zero h = (p, refl)
get_elem?-length (p ∷ os) (suc m) h = get_elem?-length os m (omega arith)

All-lt-contains : (q o : ℤ) (os : List ℤ) → All (λ p. q <ℤ p) os → contains o os ≡ true → q <ℤ o
All-lt-contains q o [] h c = absurd (cc c)
All-lt-contains q o (p ∷ os) h c = ground (arith, eqb_ℤ_iff p o, All-lt-contains q o os)

-- In ascending order, what is not above a record of the done prefix is done.
below_prefix-done :
    (done os : List ℤ) (m : ℕ) (o p : ℤ)
    → IsAscending os
    → get_elem? os m ≡ some o
    → m < completed_prefix done os
    → contains p os ≡ true
    → p ≤ℤ o
    → contains p done ≡ true
below_prefix-done done [] m o p a e h c l = absurd (omega arith)
below_prefix-done done (q ∷ os) zero o p a e h c l =
    ground (arith, eqb_ℤ_iff q p, All-lt-contains q p os)
below_prefix-done done (q ∷ os) (suc m) o p a e h c l =
    ground (arith, eqb_ℤ_iff q p, below_prefix-done done os m o p)

-- A tracked batch after the steps of a schedule.
abbrev pub after_schedule : Tracked → List KafkaRecord → List Choice → Batch
after_schedule t records schedule = run t.index (start t.tracker records) schedule

-- What the handler calls of a batch make of one partition: how many of its records stand before the
-- first one that was not handled.
abbrev pub handled_prefix : PartitionKey → Batch → List KafkaRecord → ℕ
handled_prefix k b records = completed_prefix (offsets_of k b.handled) (offsets_of k records)

-- The record that a partition commits is the last of the first `n` tracked ones, of which there is one.
pub record CommitsPrefix (k : PartitionKey) (records : List KafkaRecord) (n : ℕ)
    (r : Option KafkaRecord) : Type 0 where
  pub not_empty : 0 < n
  pub committed : KafkaRecord
  pub found : r ≡ some committed
  pub partition : partition_key committed ≡ k
  pub last : get_elem? (offsets_of k records) (n - 1) ≡ some committed.offset

drained-successes : (cs : List Completion) → is_drained cs ≡ true → successes cs ≡ []
drained-successes [] h = refl
drained-successes (c ∷ cs) h = cc

module _ (records : List KafkaRecord) (t : Tracked)
    (tracked : track_records nothing_tracked records ≡ ok t) (schedule : List Choice) where
  abbrev final : Batch
  final = after_schedule t records schedule

  is_tracked : IsTracked records t
  is_tracked = track_records-IsTracked records t tracked

  final-IsSound : (marked : List KafkaRecord) × IsSound records t.index final marked
  final-IsSound =
      run-IsSound records t.index schedule (start t.tracker records) []
        (start-IsSound records t is_tracked)

  -- The entry of `committable` for a partition whose state has passed some records.
  commit-found :
      (k : PartitionKey) (s : PartitionState) (done : List ℤ)
      → Represents s done
      → s.offsets ≡ offsets_of k records
      → 0 < s.next
      → (r : Option KafkaRecord) × (commit_at t.index k s ≡ some r)
        × CommitsPrefix k records (completed_prefix done (offsets_of k records)) r
  commit-found k s done rep same passed =
      let (o, e) =
        get_elem?-length s.offsets (s.next - 1)
          (omega (arith, rep.next, prefix-le-length done s.offsets)) in
      let (q, f, at, on) =
        is_tracked.indexed k o (rw same at (contains-get_elem? s.offsets (s.next - 1) o e)) in
      (
        some q,
        ground (arith, e, f),
        record {
          not_empty = omega (arith, next_prefix, passed);
          committed = q;
          found = refl;
          partition = at;
          last = rw on (
              subst (λ n. get_elem? (offsets_of k records) (n - 1) ≡ some o) next_prefix
                (subst (λ os. get_elem? os (s.next - 1) ≡ some o) same e));
        },
      )
    where
      next_prefix : s.next ≡ completed_prefix done (offsets_of k records)
      next_prefix = rep.next ∙ ap (completed_prefix done) same

  -- The committable record of a partition, and what was handled below it.
  committable_record :
      (k : PartitionKey) (r : Option KafkaRecord)
      → lookup k (after_schedule t records schedule).collector.committable ≡ some r
      → (q : KafkaRecord) × (r ≡ some q)
        × (partition_key q ≡ k)
        × ((o : ℤ)
            → contains o (offsets_of k records) ≡ true
            → o ≤ℤ q.offset
            → contains o (offsets_of k (after_schedule t records schedule).handled) ≡ true)
  committable_record k r h =
      let (marked, sound) = final-IsSound in
      let s = state_at k final.collector.tracker in
      let rep = sound.collected.states k in
      let passed : 0 < s.next = ground (arith, sound.collected.committed k) in
      let (r', e, c) =
        commit-found k s (offsets_of k marked) rep (sound.collected.offsets k) passed in
      let same : r ≡ r' = cc (h, e, sound.collected.committed k) in
      (
        c.committed,
        same ∙ c.found,
        c.partition,
        λ o batch le. ground (
          arith,
          sound.accounted k o,
          below_prefix-done (offsets_of k marked) (offsets_of k records)
              (completed_prefix (offsets_of k marked) (offsets_of k records) - 1) c.committed.offset
              o (subst IsAscending (sound.collected.offsets k) rep.ascending) c.last
              (omega (
                arith,
                passed,
                rep.next,
                ap (completed_prefix (offsets_of k marked)) (sound.collected.offsets k),
              ))
              batch le,
        ),
      )

  -- Whatever the goroutines do, a partition's committable record is a record of that partition, and
  -- every record of it in the batch whose offset is not above was handled without an error.
  pub commit_safety :
      (k : PartitionKey) (q : KafkaRecord) (o : ℤ)
      → lookup k (after_schedule t records schedule).collector.committable ≡ some (some q)
      → contains o (offsets_of k records) ≡ true
      → o ≤ℤ q.offset
      → (partition_key q ≡ k)
        × (contains o (offsets_of k (after_schedule t records schedule).handled) ≡ true)
  commit_safety k q o h batch below =
      let (r, e, at, handled) = committable_record k (some q) h in
      let same : r ≡ q = ground arith in
      (
        subst (λ z. partition_key z ≡ k) same at,
        handled o batch (subst (λ z. o ≤ℤ z.offset) (sym same) below),
      )

  -- Once the completion channel is drained, each partition commits exactly the longest prefix of
  -- its records that was handled without an error: the last record of that prefix if it is not
  -- empty, and nothing if it is.
  pub commit_exact :
      (k : PartitionKey)
      → is_drained (after_schedule t records schedule).channel ≡ true
      → ((handled_prefix k (after_schedule t records schedule) records ≡ 0)
          × (lookup k (after_schedule t records schedule).collector.committable ≡ none))
        ⊎ ((r : Option KafkaRecord) × (lookup k
                (after_schedule t records schedule).collector.committable
              ≡ some r)
            × CommitsPrefix k records
                (handled_prefix k (after_schedule t records schedule) records)
                r)
  commit_exact k drained =
      let (marked, sound) = final-IsSound in
      let s = state_at k final.collector.tracker in
      let rep = sound.collected.states k in
      let same : completed_prefix (offsets_of k marked) (offsets_of k records)
          ≡ handled_prefix k final records =
        prefix_ext _ _ (offsets_of k records)
          (λ o. ground (arith, sound.accounted k o, drained-successes final.channel drained)) in
      let next_prefix : s.next ≡ handled_prefix k final records =
        rep.next ∙ ap (completed_prefix (offsets_of k marked)) (sound.collected.offsets k) ∙ same in
      elim (Bool-cases (s.next == 0)) [
        | inl zero' ↦ inl (ground arith, ground (arith, sound.collected.committed k))
        | inr some' ↦
            let (r, e, c) =
              commit-found k s (offsets_of k marked) rep (sound.collected.offsets k)
                (ground arith) in
            inr
              (r, sound.collected.committed k ∙ e, subst (λ n. CommitsPrefix k records n r) same c)
      ]
