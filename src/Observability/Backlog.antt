-- ===== src/Observability/Backlog.antt =====
-- internal/observability/kafkabacklog: source.go, the loop of position_reader.go and validateSnapshot of
-- metrics.go. The reader of the broker is a record of its answers.
pub mod Accounting
use variable_star_classifica.Prelude.{
  ℕ, ◌+◌, ◌-◌, ◌^◌, String, Bool, true, false, not, ◌&&◌, ◌||◌, List, [], ◌∷◌, Option, none, some,
  Text, eqb_text, trim_space, ℤ, pos, negsuc, ltb_ℤ, leb_ℤ, eqb_ℤ, pos_part, ltb, if◌then◌else◌,
}
use variable_star_classifica.Errors.{
  GoError, message, Result, ok, err, ◌>>=◌, ◌>>◌, check, context, refuse_if,
}
use variable_star_classifica.Application.Messaging.{Time}

pub record PartitionPosition : Type 0 where
  pub partition : ℤ  -- int32
  pub next_offset : ℤ  -- int64
  pub end_offset : ℤ  -- int64

pub record RecordPosition : Type 0 where
  pub offset : ℤ
  pub timestamp : Time

pub record PartitionSnapshot : Type 0 where
  pub partition : ℤ
  pub lag : ℤ
  pub oldest_uncommitted_age : ℤ  -- time.Duration

pub record Snapshot : Type 0 where
  pub group : Text
  pub topic : Text
  pub observed_at : Time
  pub partitions : List PartitionSnapshot

pub record Reader : Type 0 where
  pub partition_positions : Text → Text → Result (List PartitionPosition)
  pub first_record_at_or_after : Text → ℤ → ℤ → Result RecordPosition
  pub now : Time

-- EndOffset - NextOffset, of which neither is negative where it is taken.
abbrev pub lag_of : PartitionPosition → ℤ
lag_of p = pos (pos_part p.end_offset - pos_part p.next_offset)

abbrev pub greatest_duration : ℕ
greatest_duration = 2 ^ 63 - 1

-- time.Time.Sub stops at the greatest duration.
abbrev pub at_most_duration : ℕ → ℕ
at_most_duration n = if ltb greatest_duration n then greatest_duration else n

-- observedAt.Sub(timestamp), or 0 if that is negative.
abbrev pub age_of : Time → Time → ℤ
age_of (pos a) (pos b) = pos (at_most_duration (a - b))
age_of (pos a) (negsuc b) = pos (at_most_duration (a + b + 1))
age_of (negsuc a) (pos b) = pos 0
age_of (negsuc a) (negsuc b) = pos (at_most_duration (b - a))

abbrev pub exists_partition : ℤ → List ℤ → Bool
exists_partition p [] = false
exists_partition p (q ∷ qs) = eqb_ℤ p q || exists_partition p qs

-- The oldest record that is not committed, with what the loop demands of it.
unfoldable pub lagging : Reader → Text → Time → PartitionPosition → Result PartitionSnapshot
lagging reader topic observed_at position = do
  record_position ←
      context "read Kafka backlog oldest record"
        (reader.first_record_at_or_after topic position.partition position.next_offset)
  refuse_if (ltb_ℤ record_position.offset position.next_offset)
      (message "record offset before requested offset")
  refuse_if (leb_ℤ position.end_offset record_position.offset)
      (message "record offset at or beyond log end")
  refuse_if (eqb_ℤ record_position.timestamp (pos 0))
      (message "oldest record timestamp must not be zero")
  ok (record {
    partition = position.partition;
    lag = lag_of position;
    oldest_uncommitted_age = age_of observed_at record_position.timestamp;
  })

-- The body of the loop over the positions.
unfoldable pub partition_snapshot :
    Reader → Text → Time → List ℤ → PartitionPosition → Result PartitionSnapshot
partition_snapshot reader topic observed_at seen position = do
  refuse_if (ltb_ℤ position.partition (pos 0)) (message "partition must be non-negative")
  refuse_if (exists_partition position.partition seen) (message "appears more than once")
  refuse_if (ltb_ℤ position.next_offset (pos 0)) (message "next offset must be non-negative")
  refuse_if (ltb_ℤ position.end_offset position.next_offset)
      (message "end offset is before next offset")
  if eqb_ℤ (lag_of position) (pos 0)
      then ok
          (record { partition = position.partition; lag = pos 0; oldest_uncommitted_age = pos 0 })
      else lagging reader topic observed_at position

unfoldable pub partition_snapshots :
    Reader → Text → Time → List ℤ → List PartitionPosition → Result (List PartitionSnapshot)
partition_snapshots reader topic observed_at seen [] = ok []
partition_snapshots reader topic observed_at seen (position ∷ positions) = do
  first ← partition_snapshot reader topic observed_at seen position
  rest ← partition_snapshots reader topic observed_at (position.partition ∷ seen) positions
  ok (first ∷ rest)

-- The loop of validateSnapshot.
unfoldable pub validate_partitions : List ℤ → List PartitionSnapshot → Result (Unit {0})
validate_partitions seen [] = ok tt
validate_partitions seen (p ∷ ps) = do
  refuse_if (ltb_ℤ p.partition (pos 0)) (message "partition must be non-negative")
  refuse_if (exists_partition p.partition seen) (message "appears more than once")
  refuse_if (ltb_ℤ p.lag (pos 0)) (message "lag must be non-negative")
  refuse_if (ltb_ℤ p.oldest_uncommitted_age (pos 0)) (message "oldest age must be non-negative")
  refuse_if (eqb_ℤ p.lag (pos 0) && not (eqb_ℤ p.oldest_uncommitted_age (pos 0)))
      (message "oldest age must be zero when lag is zero")
  validate_partitions (p.partition ∷ seen) ps

abbrev pub no_partitions : List PartitionSnapshot → Bool
no_partitions [] = true
no_partitions (p ∷ ps) = false

unfoldable pub validate_snapshot : Snapshot → Result (Unit {0})
validate_snapshot s = do
  refuse_if (eqb_text (trim_space s.group) []) (message "consumer group must not be blank")
  refuse_if (eqb_text (trim_space s.topic) []) (message "topic must not be blank")
  refuse_if (eqb_ℤ s.observed_at (pos 0)) (message "snapshot time must not be zero")
  refuse_if (no_partitions s.partitions) (message "must contain at least one partition")
  validate_partitions [] s.partitions

abbrev pub no_positions : List PartitionPosition → Bool
no_positions [] = true
no_positions (p ∷ ps) = false

-- Source.Snapshot
unfoldable pub snapshot : Reader → Text → Text → Result Snapshot
snapshot reader group topic = do
  refuse_if (eqb_text (trim_space group) []) (message "consumer group must not be blank")
  refuse_if (eqb_text (trim_space topic) []) (message "topic must not be blank")
  positions ←
      context "read Kafka backlog partition positions"
        (reader.partition_positions (trim_space group) (trim_space topic))
  refuse_if (no_positions positions) (message "partition positions must not be empty")
  refuse_if (eqb_ℤ reader.now (pos 0)) (message "observation time must not be zero")
  partitions ← partition_snapshots reader (trim_space topic) reader.now [] positions
  let taken : Snapshot = record {
    group = trim_space group;
    topic = trim_space topic;
    observed_at = reader.now;
    partitions = partitions;
  }
  context "validate Kafka backlog snapshot" (validate_snapshot taken)
  ok taken

-- An offset that the broker lists or that a group has committed.
pub record ListedOffset : Type 0 where
  pub error : Option GoError
  pub offset : ℤ

abbrev pub found : String → Option ListedOffset → Result ListedOffset
found text none = err (message text)
found text (some listed) = ok listed

-- A commit outside the retained log is resolved to its start, as is -1, which says that there is none.
abbrev pub next_offset_of : ℤ → ℤ → ℤ → ℤ
next_offset_of start end_offset commit =
    if ltb_ℤ commit start || ltb_ℤ end_offset commit then start else commit

-- The body of the loop of PositionReader.PartitionPositions: what is looked up for one partition.
unfoldable pub partition_position :
    ℤ → Option ListedOffset → Option ListedOffset → Option ListedOffset → Result PartitionPosition
partition_position partition start_found end_found commit_found = do
  start ← found "has no start offset" start_found
  last ← found "has no end offset" end_found
  check start.error
  check last.error
  refuse_if (ltb_ℤ start.offset (pos 0)) (message "invalid start offset")
  refuse_if (ltb_ℤ last.offset start.offset) (message "end offset before start offset")
  commit ← found "has no consumer-group offset response" commit_found
  check commit.error
  ok (record {
    partition = partition;
    next_offset = next_offset_of start.offset last.offset commit.offset;
    end_offset = last.offset;
  })
