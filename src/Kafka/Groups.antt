-- ===== src/Kafka/Groups.antt =====
-- internal/adapter/kafka/async_consumer.go: how a batch is split into groups that are processed in
-- order, one goroutine to a group.
pub mod Order
use variable_star_classifica.Prelude.{
  ℕ, ◌≡◌, ◌↔◌, Bool, true, false, not, ◌&&◌, ◌||◌, List, [], ◌∷◌, ◌++◌, map, Option, none, some,
  Text, eqb_text, eqb_text_iff, ℤ, pos, eqb_ℤ, Eq, lookup, insert, length, ltb, if◌then◌else◌,
  arith,
}
use variable_star_classifica.Kafka.Tracker.{is_some}
use variable_star_classifica.Kafka.Records.{KafkaRecord}

pub record ProcessingKey : Type 0 where
  pub topic : Text
  pub partition : ℤ  -- int32
  pub key : Text
  pub keyed : Bool

abbrev eqb_bool : Bool → Bool → Bool
eqb_bool true b = b
eqb_bool false b = not b

abbrev pub eqb_processing : ProcessingKey → ProcessingKey → Bool
eqb_processing a b =
    eqb_text a.topic b.topic
    && (eqb_ℤ a.partition b.partition && (eqb_text a.key b.key && eqb_bool a.keyed b.keyed))

pub eqb_processing_iff : (a b : ProcessingKey) → (eqb_processing a b ≡ true) ↔ (a ≡ b)
eqb_processing_iff a b = ground (arith, eqb_text_iff a.topic b.topic, eqb_text_iff a.key b.key)

instance abbrev pub processing_eq : Eq ProcessingKey
processing_eq = record { beq = eqb_processing; beq_iff = eqb_processing_iff }

-- recordProcessingKey: with no key the partition stands in for it.
unfoldable pub record_processing_key : KafkaRecord → ProcessingKey
record_processing_key r =
    if ltb 0 (length r.key)
    then record { topic = r.topic; partition = pos 0; key = r.key; keyed = true }
    else record { topic = r.topic; partition = r.partition; key = []; keyed = false }

abbrev pub group_or_empty : Option (List KafkaRecord) → List KafkaRecord
group_or_empty none = []
group_or_empty (some g) = g

-- The variables of the first loop.
pub record Grouping : Type 0 where
  pub groups_by_key : List (ProcessingKey × List KafkaRecord)
  pub order : List ProcessingKey

unfoldable pub add_record : Grouping → KafkaRecord → Grouping
add_record g r =
    let key = record_processing_key r in
    let found = lookup key g.groups_by_key in
    record {
      order = if is_some found then g.order else g.order ++ key ∷ [];
      groups_by_key = insert key (group_or_empty found ++ r ∷ []) g.groups_by_key;
    }

unfoldable pub add_records : Grouping → List KafkaRecord → Grouping
add_records g [] = g
add_records g (r ∷ rs) = add_records (add_record g r) rs

-- groupRecordsForProcessing
unfoldable pub group_records_for_processing : List KafkaRecord → List (List KafkaRecord)
unfolding add_records add_record
group_records_for_processing records =
    let g = add_records (record { groups_by_key = []; order = [] }) records in
    map (λ k. group_or_empty (lookup k g.groups_by_key)) g.order
