-- ===== src/Kafka/Tracker/Partition.antt =====
-- internal/adapter/kafka/partition_completion_tracker.go: what the state of one partition stands for.
-- It refines the list of the tracked offsets with the set of those that were marked complete.
use variable_star_classifica.Prelude.{
  ℕ, zero, suc, ◌+◌, ◌-◌, ◌≤◌, ◌<◌, ◌≡◌, ◌∙◌, sym, ap, subst, refl, true, false, List, [], ◌∷◌,
  some, ℤ, int_eq, contains, contains-delete, lookup, eqb_ℤ_iff, length, drop, take, get_elem?,
  Bool-cases, inl, inr, arith, drop-add, get_elem?-drop, pos,
}
use native.Mathlib.Nat.{zero-add}
use variable_star_classifica.Errors.{because, offset_not_tracked, ok, err}
use variable_star_classifica.Kafka.Tracker.{
  PartitionState, empty_state, is_some, mark_state, Advance, advance,
}
use variable_star_classifica.Kafka.Tracker.Prefix.{
  completed_prefix, IsAscending, Agree, last_or, AdvancesBy, advance-AdvancesBy,
}

pub record Represents (s : PartitionState) (done : List ℤ) : Type 0 where
  pub ascending : IsAscending s.offsets
  pub indexed : (o : ℤ) → is_some (lookup o s.index) ≡ contains o s.offsets
  pub done_tracked : (o : ℤ) → contains o done ≡ true → contains o s.offsets ≡ true
  pub completed_tracked : (o : ℤ) → contains o s.completed ≡ true → contains o s.offsets ≡ true
  pub next : s.next ≡ completed_prefix done s.offsets
  pub agree : Agree s.completed done (drop s.next s.offsets)

-- Nothing is tracked and nothing is done at the start.
pub empty_state-Represents : Represents empty_state []
empty_state-Represents = record {
  ascending = tt;
  indexed = λ o. refl;
  done_tracked = λ o h. cc;
  completed_tracked = λ o h. cc;
  next = refl;
  agree = tt;
}

-- The prefix for one more record that is done: the old prefix, and what follows it.
prefix-cons :
    (o : ℤ) (done os : List ℤ)
    → completed_prefix (o ∷ done) os
      ≡ completed_prefix done os + completed_prefix (o ∷ done) (drop (completed_prefix done os) os)
prefix-cons o done [] = omega arith
prefix-cons o done (p ∷ os) = elim (Bool-cases (contains p done)) [
  | inl found ↦ ground (arith, prefix-cons o done os)
  | inr missing ↦
      let none_done : 0 ≡ completed_prefix done (p ∷ os) = rw missing in
      subst
        (λ k.
          completed_prefix (o ∷ done) (p ∷ os) ≡ k + completed_prefix (o ∷ done) (drop k (p ∷ os)))
        none_done (sym (zero-add _))
]

Agree-cons : (o : ℤ) (xs ys os : List ℤ) → Agree xs ys os → Agree (o ∷ xs) (o ∷ ys) os
Agree-cons o xs ys [] h = tt
Agree-cons o xs ys (p ∷ os) h = (ground arith, Agree-cons o xs ys os h.1)

pub prefix-le-length : (done os : List ℤ) → completed_prefix done os ≤ length os
prefix-le-length done [] = omega arith
prefix-le-length done (o ∷ os) = ground (arith, prefix-le-length done os)

last_or-get_elem? :
    (m : ℕ) (os : List ℤ) (d : ℤ)
    → suc m ≤ length os
    → get_elem? os m ≡ some (last_or (take (suc m) os) d)
last_or-get_elem? m [] d h = absurd (omega arith)
last_or-get_elem? zero (o ∷ os) d h = refl
last_or-get_elem? (suc m) (o ∷ os) d h = last_or-get_elem? m os o (omega arith)

-- The loop only deletes from the set.
advance-contains :
    (p : ℤ) (os : List ℤ) (a : Advance)
    → contains p (advance os a).completed ≡ true
    → contains p a.completed ≡ true
unfolding advance
advance-contains p [] a h = h
advance-contains p (o ∷ os) a h = elim (Bool-cases (contains o a.completed)) [
  | inl found ↦
      ground (arith, contains-delete o p a.completed, advance-contains p os _ (rw found at h))
  | inr missing ↦ rw missing at h
]

IsAscending-drop : (n : ℕ) (os : List ℤ) → IsAscending os → IsAscending (drop n os)
IsAscending-drop zero os h = h
IsAscending-drop (suc n) [] h = tt
IsAscending-drop (suc n) (o ∷ os) h = IsAscending-drop n os h.1

-- What MarkCompleted gives for a tracked offset.
pub record Marks (s : PartitionState) (done : List ℤ) (o : ℤ) (s' : PartitionState) (c : ℤ) (n : ℕ)
    : Type 0 where
  pub represents : Represents s' (o ∷ done)
  pub same_offsets : s'.offsets ≡ s.offsets
  pub advanced : s'.next ≡ s.next + n
  pub offset : 0 < n → get_elem? s'.offsets (s'.next - 1) ≡ some c

module _ (s : PartitionState) (done : List ℤ) (o : ℤ) (r : Represents s done)
    (tracked : contains o s.offsets ≡ true) where
  start : Advance
  start = record { completed = o ∷ s.completed; passed = 0; completed_offset = pos 0 }

  rest : List ℤ
  rest = drop s.next s.offsets

  loop_advances : AdvancesBy (o ∷ done) rest start (advance rest start)
  unfolding start rest
  loop_advances =
      advance-AdvancesBy (o ∷ done) rest start (IsAscending-drop s.next s.offsets r.ascending)
        (Agree-cons o s.completed done rest r.agree)

  passed_prefix : (advance rest start).passed ≡ completed_prefix (o ∷ done) rest
  unfolding start rest
  passed_prefix = omega (arith, loop_advances.passed)

  new_prefix : s.next + (advance rest start).passed ≡ completed_prefix (o ∷ done) s.offsets
  unfolding start rest
  new_prefix = omega (
    arith,
    prefix-cons o done s.offsets,
    r.next,
    loop_advances.passed,
    ap (λ k. completed_prefix (o ∷ done) (drop k s.offsets)) r.next,
  )

  marked : PartitionState
  marked = record s {
    completed = (advance rest start).completed;
    next = s.next + (advance rest start).passed;
  }

  marked-Represents : Represents marked (o ∷ done)
  unfolding marked rest start
  marked-Represents = record {
    ascending = r.ascending;
    indexed = r.indexed;
    done_tracked = λ p h. ground (arith, r.done_tracked p, eqb_ℤ_iff o p);
    completed_tracked = λ p h.
        ground (arith, r.completed_tracked p, eqb_ℤ_iff o p, advance-contains p rest start h);
    next = new_prefix;
    agree = rw drop-add (
        subst (λ k. Agree (advance rest start).completed (o ∷ done) (drop k rest))
          (sym passed_prefix) loop_advances.agree);
  }

  marked_offset :
      (m : ℕ)
      → (advance rest start).passed ≡ suc m
      → get_elem? s.offsets (s.next + m) ≡ some (advance rest start).completed_offset
  unfolding start rest
  marked_offset m e =
      let whole : completed_prefix (o ∷ done) rest ≡ suc m = sym passed_prefix ∙ e in
      sym (get_elem?-drop s.next m s.offsets)
      ∙ last_or-get_elem? m rest (pos 0) (omega (arith, whole, prefix-le-length (o ∷ done) rest))
      ∙ ap some (ap (λ k. last_or (take k rest) (pos 0)) (sym whole) ∙ sym loop_advances.last)

  marked_advanced :
      0 < (advance rest start).passed
      → get_elem? s.offsets (s.next + (advance rest start).passed - 1)
        ≡ some (advance rest start).completed_offset
  marked_advanced h =
      let one_less : s.next + (advance rest start).passed - 1
          ≡ s.next + ((advance rest start).passed - 1) =
        omega arith in
      rw one_less (marked_offset ((advance rest start).passed - 1) (omega arith))

  -- Marking a tracked offset is accepted, and moves `next` to the longest prefix of complete records.
  pub mark_state-Marks :
      (s' : PartitionState) × (c : ℤ) × (n : ℕ) × (mark_state s o ≡ ok (s', c, n))
      × Marks s done o s' c n
  unfolding mark_state marked rest start
  mark_state-Marks = (
    marked,
    (advance rest start).completed_offset,
    (advance rest start).passed,
    rw (r.indexed o ∙ tracked),
    record {
      represents = marked-Represents;
      same_offsets = refl;
      advanced = refl;
      offset = marked_advanced;
    },
  )

-- An offset that is not tracked is refused.
pub mark_state-untracked :
    (s : PartitionState) (done : List ℤ) (o : ℤ)
    → Represents s done
    → contains o s.offsets ≡ false
    → mark_state s o ≡ err (because offset_not_tracked "mark completed")
unfolding mark_state
mark_state-untracked s done o r h = rw (r.indexed o ∙ h)
