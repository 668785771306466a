-- ===== src/Observability/Tests.antt =====
-- internal/observability/kafkabacklog: the theorem on two partitions, of which one is behind.
use variable_star_classifica.Prelude.{◌≡◌, refl, List, [], ◌∷◌, codes, pos}
use variable_star_classifica.Errors.{ok}
use variable_star_classifica.Observability.Backlog.{
  PartitionPosition, PartitionSnapshot, Reader, lagging, partition_snapshot, partition_snapshots,
  validate_partitions,
}
use variable_star_classifica.Observability.Backlog.Accounting.{
  AllAccount, partition_snapshots-AllAccount,
}

abbrev two_positions : List PartitionPosition
two_positions =
    record { partition = pos 0; next_offset = pos 4; end_offset = pos 9 }
    ∷ record { partition = pos 1; next_offset = pos 7; end_offset = pos 7 }
    ∷ []

abbrev two_partitions : List PartitionSnapshot
two_partitions =
    record { partition = pos 0; lag = pos 5; oldest_uncommitted_age = pos 40 }
    ∷ record { partition = pos 1; lag = pos 0; oldest_uncommitted_age = pos 0 }
    ∷ []

abbrev reader : Reader
reader = record {
  partition_positions = λ group topic. ok two_positions;
  first_record_at_or_after =
      λ topic partition offset. ok (record { offset = offset; timestamp = pos 60 });
  now = pos 100;
}

two_taken :
    partition_snapshots reader (codes "commands") (pos 100) [] two_positions ≡ ok two_partitions
unfolding partition_snapshots partition_snapshot lagging
two_taken = refl

partition_snapshots-AllAccount_example :
    AllAccount two_positions two_partitions × (validate_partitions [] two_partitions ≡ ok tt)
partition_snapshots-AllAccount_example =
    partition_snapshots-AllAccount reader (codes "commands") (pos 100) [] two_positions
      two_partitions two_taken
