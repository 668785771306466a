-- ===== src/Observability/Backlog/Accounting.antt =====
-- internal/observability/kafkabacklog: the positions that are read are accepted, and what the loop
-- builds passes the validation.
use variable_star_classifica.Prelude.{
  ◌≡◌, refl, sym, ap, subst, ◌∙◌, not, ◌&&◌, inl, inr, Bool-cases, false, List, [], ◌∷◌, Option,
  none, some, Text, ℤ, pos, negsuc, ltb_ℤ, eqb_ℤ, eqb_ℤ_iff, ◌≤ℤ◌, arith,
}
use variable_star_classifica.Errors.{Result-cases, ok}
use variable_star_classifica.Application.Messaging.{Time}
use variable_star_classifica.Observability.Backlog.{
  PartitionPosition, PartitionSnapshot, Reader, ListedOffset, lag_of, age_of, exists_partition,
  lagging, partition_snapshot, partition_snapshots, validate_partitions, partition_position,
  next_offset_of,
}

-- A snapshot of a partition accounts for its position.
pub record Accounts (position : PartitionPosition) (p : PartitionSnapshot) : Type 0 where
  pub same_partition : p.partition ≡ position.partition
  pub next : pos 0 ≤ℤ position.next_offset
  pub within : position.next_offset ≤ℤ position.end_offset
  pub distance : p.lag ≡ lag_of position
  pub age : pos 0 ≤ℤ p.oldest_uncommitted_age
  pub no_age : p.lag ≡ pos 0 → p.oldest_uncommitted_age ≡ pos 0

pub data AllAccount : List PartitionPosition → List PartitionSnapshot → Type 0 where
  none_left : AllAccount [] []
  one_more :
      {position : PartitionPosition} {p : PartitionSnapshot} {positions : List PartitionPosition}
      {ps : List PartitionSnapshot}
      → Accounts position p
      → AllAccount positions ps
      → AllAccount (position ∷ positions) (p ∷ ps)

age_of-positive : (a b : Time) → pos 0 ≤ℤ age_of a b
age_of-positive (pos a) (pos b) = ground arith
age_of-positive (pos a) (negsuc b) = ground arith
age_of-positive (negsuc a) (pos b) = ground arith
age_of-positive (negsuc a) (negsuc b) = ground arith

abbrev partition_of : PartitionSnapshot → ℤ
partition_of p = p.partition

abbrev lag_in : PartitionSnapshot → ℤ
lag_in p = p.lag

abbrev age_in : PartitionSnapshot → ℤ
age_in p = p.oldest_uncommitted_age

-- One turn of validateSnapshot.
valid-first :
    (seen : List ℤ) (position : PartitionPosition) (p : PartitionSnapshot)
    (rest : List PartitionSnapshot)
    → Accounts position p
    → ltb_ℤ position.partition (pos 0) ≡ false
    → exists_partition position.partition seen ≡ false
    → validate_partitions (position.partition ∷ seen) rest ≡ ok tt
    → validate_partitions seen (p ∷ rest) ≡ ok tt
unfolding validate_partitions
valid-first seen position p rest a known new valid =
    rw (a.same_partition, known, new, lag_known, age_known, age_zero) valid
  where
    lag_known : ltb_ℤ p.lag (pos 0) ≡ false
    lag_known = rw a.distance (ground arith)

    age_known : ltb_ℤ p.oldest_uncommitted_age (pos 0) ≡ false
    age_known = ground (arith, a.age)

    age_zero : (eqb_ℤ p.lag (pos 0) && not (eqb_ℤ p.oldest_uncommitted_age (pos 0))) ≡ false
    age_zero = elim (Bool-cases (eqb_ℤ p.lag (pos 0))) [
      | inr some_lag ↦ rw some_lag refl
      | inl no_lag ↦
          let none_old = a.no_age ((eqb_ℤ_iff p.lag (pos 0)).0 no_lag) in
          rw (no_lag, (eqb_ℤ_iff p.oldest_uncommitted_age (pos 0)).1 none_old) refl
    ]

module _ (reader : Reader) (topic : Text) (observed_at : Time) where
  lagging-lem :
      (position : PartitionPosition) (p : PartitionSnapshot)
      → lagging reader topic observed_at position ≡ ok p
      → (t : Time) × (p ≡ record {
        partition = position.partition;
        lag = lag_of position;
        oldest_uncommitted_age = age_of observed_at t;
      })
  unfolding lagging
  lagging-lem position p h =
      elim (Result-cases
        (reader.first_record_at_or_after topic position.partition position.next_offset)) [
          | inr (e, q) ↦ absurd (ground arith)
          | inl (r, q) ↦ (r.timestamp, ground arith)
        ]

  snapshot-Accounts :
      (seen : List ℤ) (position : PartitionPosition) (p : PartitionSnapshot)
      → partition_snapshot reader topic observed_at seen position ≡ ok p
      → Accounts position p
        × (ltb_ℤ position.partition (pos 0) ≡ false)
        × (exists_partition position.partition seen ≡ false)
  unfolding partition_snapshot
  snapshot-Accounts seen position p h = elim (Bool-cases (eqb_ℤ (lag_of position) (pos 0))) [
    | inl caught_up ↦
        let same : p ≡ record {
          partition = position.partition;
          lag = pos 0;
          oldest_uncommitted_age = pos 0;
        } =
          ground arith in
        (
          record {
            same_partition = ap partition_of same;
            next = ground arith;
            within = ground arith;
            distance = ap lag_in same ∙ sym ((eqb_ℤ_iff (lag_of position) (pos 0)).0 caught_up);
            age =
                subst (λ (x : PartitionSnapshot). pos 0 ≤ℤ x.oldest_uncommitted_age) (sym same)
                  (omega arith);
            no_age = λ z. ap age_in same;
          },
          ground arith,
          ground arith,
        )
    | inr behind ↦
        let later : lagging reader topic observed_at position ≡ ok p = ground arith in
        let (t, same) = lagging-lem position p later in
        (
          record {
            same_partition = ap partition_of same;
            next = ground arith;
            within = ground arith;
            distance = ap lag_in same;
            age =
                subst (λ (x : PartitionSnapshot). pos 0 ≤ℤ x.oldest_uncommitted_age) (sym same)
                  (age_of-positive observed_at t);
            no_age = λ z.
                absurd
                  (cc (behind, (eqb_ℤ_iff (lag_of position) (pos 0)).1 (sym (ap lag_in same) ∙ z)));
          },
          ground arith,
          ground arith,
        )
  ]

  -- If the loop of Snapshot succeeds, then each position is accounted for by one partition, in their
  -- order: its offsets are in order, the lag is their distance, the age is not negative and is zero
  -- where there is no lag; and validateSnapshot finds nothing to refuse in the partitions.
  pub partition_snapshots-AllAccount :
      (seen : List ℤ) (positions : List PartitionPosition) (ps : List PartitionSnapshot)
      → partition_snapshots reader topic observed_at seen positions ≡ ok ps
      → AllAccount positions ps × (validate_partitions seen ps ≡ ok tt)
  unfolding partition_snapshots validate_partitions
  partition_snapshots-AllAccount seen [] ps h =
      let same : ps ≡ [] = ground arith in
      subst (λ qs. AllAccount [] qs × (validate_partitions seen qs ≡ ok tt)) (sym same)
        (none_left, refl)
  partition_snapshots-AllAccount seen (position ∷ positions) ps h =
      elim (Result-cases (partition_snapshot reader topic observed_at seen position)) [
        | inr (e, q) ↦ absurd (ground arith)
        | inl (p, q) ↦
            elim (Result-cases (
              partition_snapshots reader topic observed_at (position.partition ∷ seen) positions)) [
                | inr (e, r) ↦ absurd (ground arith)
                | inl (rest, r) ↦
                    let same : ps ≡ p ∷ rest = ground arith in
                    let (accounts, known, new) = snapshot-Accounts seen position p q in
                    let (all, valid) =
                      partition_snapshots-AllAccount (position.partition ∷ seen) positions rest r in
                    subst
                      (λ qs.
                        AllAccount (position ∷ positions) qs
                        × (validate_partitions seen qs ≡ ok tt))
                      (sym same)
                      (
                        one_more accounts all,
                        valid-first seen position p rest accounts known new valid,
                      )
              ]
      ]

-- A position that PartitionPositions resolves has a next offset in the retained log, whatever the group
-- has committed.
pub partition_position-within :
    (partition : ℤ) (start last commit : Option ListedOffset) (p : PartitionPosition)
    → partition_position partition start last commit ≡ ok p
    → (pos 0 ≤ℤ p.next_offset) × (p.next_offset ≤ℤ p.end_offset)
unfolding partition_position
partition_position-within partition (some start) (some last) (some commit) p h =
    let next : p.next_offset ≡ next_offset_of start.offset last.offset commit.offset =
      ground arith in
    let end_offset : p.end_offset ≡ last.offset = ground arith in
    let positive : pos 0 ≤ℤ start.offset = ground arith in
    let ordered : start.offset ≤ℤ last.offset = ground arith in
    rw (next, end_offset) (resolved start.offset last.offset commit.offset positive ordered)
  where
    resolved :
        (s e c : ℤ)
        → pos 0 ≤ℤ s
        → s ≤ℤ e
        → (pos 0 ≤ℤ next_offset_of s e c) × (next_offset_of s e c ≤ℤ e)
    resolved s e c l m = (ground arith, ground arith)
partition_position-within partition (some start) (some last) none p h = absurd (ground arith)
partition_position-within partition (some start) none commit p h = absurd (cc h)
partition_position-within partition none last commit p h = absurd (cc h)
