-- ===== src/Kafka/Groups/Order.antt =====
-- internal/adapter/kafka/async_consumer.go: the groups of a batch are the records of each key, in poll
-- order, one group to a key.
use variable_star_classifica.Prelude.{
  fun_ext, subst, ◌≡◌, refl, Bool, false, ◌||◌, List, [], ◌∷◌, ◌++◌, map, lookup, lookup-insert,
  contains, if◌then◌else◌, arith, append-nil, append_assoc,
}
use variable_star_classifica.Kafka.Tracker.{is_some}
use variable_star_classifica.Kafka.Records.{KafkaRecord}
use variable_star_classifica.Kafka.Groups.{
  ProcessingKey, eqb_processing, eqb_processing_iff, processing_eq, record_processing_key,
  group_or_empty, Grouping, add_record, add_records, group_records_for_processing,
}

-- The records of a key, in their order.
abbrev pub with_key : ProcessingKey → List KafkaRecord → List KafkaRecord
with_key k [] = []
with_key k (r ∷ rs) =
    if eqb_processing (record_processing_key r) k then r ∷ with_key k rs else with_key k rs

-- Whether some record has a key.
abbrev pub has_key : ProcessingKey → List KafkaRecord → Bool
has_key k [] = false
has_key k (r ∷ rs) = eqb_processing (record_processing_key r) k || has_key k rs

-- No key stands twice.
abbrev pub NoRepeats : List ProcessingKey → Type 0
NoRepeats [] = Unit
NoRepeats (k ∷ ks) = (contains k ks ≡ false) × NoRepeats ks

pub record Groups (seen : List KafkaRecord) (g : Grouping) : Type 0 where
  pub group : (k : ProcessingKey) → group_or_empty (lookup k g.groups_by_key) ≡ with_key k seen
  pub found : (k : ProcessingKey) → is_some (lookup k g.groups_by_key) ≡ contains k g.order
  pub keys : (k : ProcessingKey) → contains k g.order ≡ has_key k seen
  pub once : NoRepeats g.order

with_key-append_one :
    (k : ProcessingKey) (r : KafkaRecord) (rs : List KafkaRecord)
    → with_key k (rs ++ r ∷ []) ≡ with_key k rs ++ with_key k (r ∷ [])
with_key-append_one k r [] = refl
with_key-append_one k r (q ∷ rs) = ground (arith, with_key-append_one k r rs)

has_key-append_one :
    (k : ProcessingKey) (r : KafkaRecord) (rs : List KafkaRecord)
    → has_key k (rs ++ r ∷ []) ≡ (has_key k rs || eqb_processing (record_processing_key r) k)
has_key-append_one k r [] = ground arith
has_key-append_one k r (q ∷ rs) = ground (arith, has_key-append_one k r rs)

contains-append_key :
    (k j : ProcessingKey) (ks : List ProcessingKey)
    → contains k (ks ++ j ∷ []) ≡ (contains k ks || eqb_processing j k)
contains-append_key k j [] = ground arith
contains-append_key k j (i ∷ ks) = ground (arith, contains-append_key k j ks)

NoRepeats-append_one :
    (k : ProcessingKey) (ks : List ProcessingKey)
    → NoRepeats ks
    → contains k ks ≡ false
    → NoRepeats (ks ++ k ∷ [])
NoRepeats-append_one k [] n h = (refl, tt)
NoRepeats-append_one k (j ∷ ks) n h = (
  ground (arith, contains-append_key j k ks, eqb_processing_iff j k, eqb_processing_iff k j),
  NoRepeats-append_one k ks n.1 (ground arith),
)

module _ (seen : List KafkaRecord) (g : Grouping) (h : Groups seen g) (r : KafkaRecord) where
  group-add_record :
      (k : ProcessingKey)
      → group_or_empty (lookup k (add_record g r).groups_by_key) ≡ with_key k (seen ++ r ∷ [])
  unfolding add_record
  group-add_record k =
      rw
        (
          lookup-insert (record_processing_key r) k
              (group_or_empty (lookup (record_processing_key r) g.groups_by_key) ++ r ∷ [])
              g.groups_by_key,
          with_key-append_one k r seen,
        )
        (ground (
          arith,
          h.group k,
          h.group (record_processing_key r),
          eqb_processing_iff (record_processing_key r) k,
          append-nil (with_key k seen),
        ))

  found-add_record :
      (k : ProcessingKey)
      → is_some (lookup k (add_record g r).groups_by_key) ≡ contains k (add_record g r).order
  unfolding add_record
  found-add_record k =
      rw
        (lookup-insert (record_processing_key r) k
          (group_or_empty (lookup (record_processing_key r) g.groups_by_key) ++ r ∷ [])
          g.groups_by_key)
        (ground (
          arith,
          h.found k,
          h.found (record_processing_key r),
          contains-append_key k (record_processing_key r) g.order,
          eqb_processing_iff (record_processing_key r) k,
        ))

  keys-add_record :
      (k : ProcessingKey) → contains k (add_record g r).order ≡ has_key k (seen ++ r ∷ [])
  unfolding add_record
  keys-add_record k = ground (
    arith,
    h.keys k,
    h.found (record_processing_key r),
    contains-append_key k (record_processing_key r) g.order,
    has_key-append_one k r seen,
    eqb_processing_iff (record_processing_key r) k,
  )

  once-add_record : NoRepeats (add_record g r).order
  unfolding add_record
  once-add_record = ground (
    arith,
    h.once,
    h.found (record_processing_key r),
    NoRepeats-append_one (record_processing_key r) g.order,
  )

  add_record-Groups : Groups (seen ++ r ∷ []) (add_record g r)
  add_record-Groups = record {
    group = group-add_record;
    found = found-add_record;
    keys = keys-add_record;
    once = once-add_record;
  }

add_records-Groups :
    (seen rest : List KafkaRecord) (g : Grouping)
    → Groups seen g
    → Groups (seen ++ rest) (add_records g rest)
unfolding add_records
add_records-Groups seen [] g h = rw append-nil h
add_records-Groups seen (r ∷ rest) g h =
    subst (λ all. Groups all (add_records (add_record g r) rest)) (append_assoc seen (r ∷ []) rest)
      (add_records-Groups (seen ++ r ∷ []) rest (add_record g r) (add_record-Groups seen g h r))

map-with_key :
    (f : ProcessingKey → List KafkaRecord) (records : List KafkaRecord) (ks : List ProcessingKey)
    → ((k : ProcessingKey) → f k ≡ with_key k records)
    → map f ks ≡ map (λ k. with_key k records) ks
map-with_key f records ks h = rw (fun_ext h)

-- The groups of a batch: for some keys, without a repetition and exactly those of the records, the
-- records of each key in poll order.
pub group_records-with_key :
    (records : List KafkaRecord)
    → (ks : List ProcessingKey) × (group_records_for_processing records
        ≡ map (λ k. with_key k records) ks)
      × NoRepeats ks
      × ((k : ProcessingKey) → contains k ks ≡ has_key k records)
unfolding group_records_for_processing
group_records-with_key records =
    let start : Grouping = record { groups_by_key = []; order = [] } in
    let g : Grouping = add_records start records in
    let h : Groups records g =
      add_records-Groups [] records start
        (record { group = λ k. refl; found = λ k. refl; keys = λ k. refl; once = tt }) in
    (
      g.order,
      map-with_key (λ k. group_or_empty (lookup k g.groups_by_key)) records g.order h.group,
      h.once,
      h.keys,
    )
