-- ===== src/Kafka/Tracker.antt =====
-- internal/adapter/kafka/partition_completion_tracker.go: which records of a poll batch are complete,
-- and up to which offset each partition may be committed. A method returns the new tracker beside its
-- result; the partition states that the map points at are its values.
pub mod Prefix
pub mod Partition
pub mod Tracking
use variable_star_classifica.Prelude.{
  ℕ, zero, suc, ◌+◌, ◌-◌, ◌≡◌, ◌↔◌, Bool, true, false, ◌&&◌, List, [], ◌∷◌, ◌++◌, Option, none,
  some, Text, eqb_text, eqb_text_iff, ℤ, pos, eqb_ℤ, ltb_ℤ, Eq, int_eq, contains, delete, lookup,
  insert, length, drop, if◌then◌else◌, arith,
}
use variable_star_classifica.Errors.{
  GoError, message, because, offset_not_tracked, offset_already_tracked, Result, ok, err,
}

pub record PartitionKey : Type 0 where
  pub topic : Text
  pub partition : ℤ  -- int32

abbrev pub eqb_key : PartitionKey → PartitionKey → Bool
eqb_key a b = eqb_text a.topic b.topic && eqb_ℤ a.partition b.partition

pub eqb_key_iff : (a b : PartitionKey) → (eqb_key a b ≡ true) ↔ (a ≡ b)
eqb_key_iff a b = ground (arith, eqb_text_iff a.topic b.topic)

instance abbrev pub key_eq : Eq PartitionKey
key_eq = record { beq = eqb_key; beq_iff = eqb_key_iff }

pub record PartitionState : Type 0 where
  pub offsets : List ℤ  -- int64, in poll order
  pub index : List (ℤ × ℕ)  -- map[int64]int
  pub completed : List ℤ  -- map[int64]struct{}
  pub next : ℕ

abbrev pub empty_state : PartitionState
empty_state = record { offsets = []; index = []; completed = []; next = 0 }

abbrev pub Tracker : Type 0
Tracker = List (PartitionKey × PartitionState)

-- newPartitionCompletionTracker
abbrev pub new_tracker : Tracker
new_tracker = []

abbrev pub is_some {ℓ} : {A : Type ℓ} → Option A → Bool
is_some none = false
is_some (some a) = true

-- offset < state.offsets[count-1], if there is a last one
abbrev pub before_last : ℤ → List ℤ → Bool
before_last offset [] = false
before_last offset (o ∷ []) = ltb_ℤ offset o
before_last offset (o ∷ (p ∷ os)) = before_last offset (p ∷ os)

-- Track, below the lookup of the partition.
unfoldable pub track_state : PartitionState → ℤ → Result PartitionState
track_state s offset =
    if is_some (lookup offset s.index)
    then err (because offset_already_tracked "track")
    else if before_last offset s.offsets
    then err (message "track Kafka offset out of order")
    else ok (record s {
      index = insert offset (length s.offsets) s.index;
      offsets = s.offsets ++ offset ∷ [];
    })

abbrev pub state_or_empty : Option PartitionState → PartitionState
state_or_empty none = empty_state
state_or_empty (some s) = s

abbrev pub store_state : Tracker → PartitionKey → Result PartitionState → Tracker × Option GoError
store_state t key (ok s) = (insert key s t, none)
store_state t key (err e) = (t, some e)

-- A partition that is not in the map gets an empty state, in which no offset is refused.
unfoldable pub track : Tracker → PartitionKey → ℤ → Tracker × Option GoError
track t key offset = store_state t key (track_state (state_or_empty (lookup key t)) offset)

-- What the loop of MarkCompleted leaves: the completed set, the records passed, and completedOffset.
pub record Advance : Type 0 where
  pub completed : List ℤ
  pub passed : ℕ
  pub completed_offset : ℤ

-- The loop, over the offsets from `next` on.
unfoldable pub advance : List ℤ → Advance → Advance
advance [] a = a
advance (candidate ∷ rest) a =
    let more = advance rest (record {
      completed = delete candidate a.completed;
      passed = a.passed + 1;
      completed_offset = candidate;
    }) in
    if contains candidate a.completed then more else a

-- MarkCompleted, below the lookup of the partition: the state, completedOffset and advancedCount.
unfoldable pub mark_state : PartitionState → ℤ → Result (PartitionState × ℤ × ℕ)
unfolding advance
mark_state s offset =
    if is_some (lookup offset s.index)
    then (let a =
          advance (drop s.next s.offsets)
            (record { completed = offset ∷ s.completed; passed = 0; completed_offset = pos 0 }) in
        ok (
          record s { completed = a.completed; next = s.next + a.passed },
          a.completed_offset,
          a.passed,
        ))
    else err (because offset_not_tracked "mark completed")

abbrev pub store_marked :
    Tracker → PartitionKey → Result (PartitionState × ℤ × ℕ) → Tracker × Result (ℤ × ℕ)
store_marked t key (ok (s, offset, count)) = (insert key s t, ok (offset, count))
store_marked t key (err e) = (t, err e)

abbrev pub mark_found :
    Tracker → PartitionKey → ℤ → Option PartitionState → Tracker × Result (ℤ × ℕ)
mark_found t key offset none = (t, err (because offset_not_tracked "mark completed"))
mark_found t key offset (some s) = store_marked t key (mark_state s offset)

unfoldable pub mark_completed : Tracker → PartitionKey → ℤ → Tracker × Result (ℤ × ℕ)
mark_completed t key offset = mark_found t key offset (lookup key t)
