-- ===== src/Kafka/Tracker/Tracking.antt =====
-- internal/adapter/kafka/partition_completion_tracker.go: which offsets Track accepts, and what it does.
use variable_star_classifica.Prelude.{
  ◌≡◌, ◌∙◌, sym, refl, false, ◌||◌, List, [], ◌∷◌, ◌++◌, ℤ, ◌<ℤ◌, int_eq, contains, lookup, insert,
  lookup-insert, eqb_ℤ_iff, length, drop, All, arith, drop-append_le, All-append, ◌↔◌,
}
use variable_star_classifica.Errors.{ok}
use variable_star_classifica.Kafka.Tracker.{PartitionState, is_some, before_last, track_state}
use variable_star_classifica.Kafka.Tracker.Prefix.{completed_prefix, IsAscending, Agree}
use variable_star_classifica.Kafka.Tracker.Partition.{Represents, prefix-le-length}

-- Whether an offset is above every tracked offset.
abbrev pub IsAbove : ℤ → List ℤ → Type 0
IsAbove o os = All (λ p. p <ℤ o) os

IsAbove-not_before :
    (o : ℤ) (os : List ℤ)
    → IsAscending os
    → contains o os ≡ false
    → before_last o os ≡ false
    → IsAbove o os
IsAbove-not_before o [] a c b = tt
IsAbove-not_before o (p ∷ []) a c b = ground (arith, eqb_ℤ_iff p o)
IsAbove-not_before o (p ∷ (q ∷ os)) a c b =
    let above = IsAbove-not_before o (q ∷ os) a.1 (ground arith) b in
    (omega (arith, a.0.0, above.0), above)

not_before-IsAbove :
    (o : ℤ) (os : List ℤ) → IsAbove o os → (contains o os ≡ false) × (before_last o os ≡ false)
not_before-IsAbove o [] h = (refl, refl)
not_before-IsAbove o (p ∷ []) h = ground arith
not_before-IsAbove o (p ∷ (q ∷ os)) h = ground (arith, not_before-IsAbove o (q ∷ os))

IsAscending-append :
    (o : ℤ) (os : List ℤ) → IsAscending os → IsAbove o os → IsAscending (os ++ o ∷ [])
IsAscending-append o [] a h = (tt, tt)
IsAscending-append o (p ∷ os) a h =
    (All-append (λ q. p <ℤ q) os (o ∷ []) a.0 (h.0, tt), IsAscending-append o os a.1 h.1)

contains-append_one :
    (p o : ℤ) (os : List ℤ) → contains p (os ++ o ∷ []) ≡ (contains p os || int_eq.beq o p)
contains-append_one p o [] = ground arith
contains-append_one p o (q ∷ os) = ground (arith, contains-append_one p o os)

prefix-append_undone :
    (o : ℤ) (done os : List ℤ)
    → contains o done ≡ false
    → completed_prefix done (os ++ o ∷ []) ≡ completed_prefix done os
prefix-append_undone o done [] h = rw h
prefix-append_undone o done (p ∷ os) h = rw (prefix-append_undone o done os h)

-- What Track gives for an offset that it accepts.
pub record Tracks (s : PartitionState) (done : List ℤ) (o : ℤ) (s' : PartitionState) : Type 0 where
  pub represents : Represents s' done
  pub appended : s'.offsets ≡ s.offsets ++ o ∷ []

module _ (s : PartitionState) (done : List ℤ) (o : ℤ) (r : Represents s done) where
  not_contained :
      contains o s.offsets ≡ false → (contains o done ≡ false) × (contains o s.completed ≡ false)
  not_contained h = ground (arith, r.done_tracked o, r.completed_tracked o)

  tracked_state : PartitionState
  tracked_state = record s {
    index = insert o (length s.offsets) s.index;
    offsets = s.offsets ++ o ∷ [];
  }

  -- Track accepts an offset exactly when it is above every offset tracked before.
  pub track_state-ok_iff : ((s' : PartitionState) × (track_state s o ≡ ok s')) ↔ IsAbove o s.offsets
  unfolding track_state tracked_state
  track_state-ok_iff = (
    λ t.
        IsAbove-not_before o s.offsets r.ascending (ground (arith, r.indexed o, t.1))
          (ground (arith, r.indexed o, t.1)),
    λ h.
        let (fresh, late) = not_before-IsAbove o s.offsets h in
        (tracked_state, rw (r.indexed o ∙ fresh) (rw late)),
  )

  indexed-tracked :
      (p : ℤ) → is_some (lookup p tracked_state.index) ≡ contains p tracked_state.offsets
  unfolding tracked_state
  indexed-tracked p =
      rw (lookup-insert o p (length s.offsets) s.index, contains-append_one p o s.offsets)
        (ground (arith, r.indexed p, eqb_ℤ_iff o p))

  Agree-tracked :
      contains o s.offsets ≡ false → Agree s.completed done (drop s.next (s.offsets ++ o ∷ []))
  Agree-tracked h =
      let (undone, incomplete) = not_contained h in
      rw
        (drop-append_le s.next s.offsets (o ∷ [])
          (omega (arith, r.next, prefix-le-length done s.offsets)))
        (All-append (λ p. contains p s.completed ≡ contains p done) (drop s.next s.offsets) (o ∷ [])
          r.agree (incomplete ∙ sym undone, tt))

  tracked_state-Represents : IsAbove o s.offsets → Represents tracked_state done
  unfolding tracked_state
  tracked_state-Represents above =
      let fresh = (not_before-IsAbove o s.offsets above).0 in
      record {
        ascending = IsAscending-append o s.offsets r.ascending above;
        indexed = indexed-tracked;
        done_tracked = λ p h. rw (contains-append_one p o s.offsets, r.done_tracked p h);
        completed_tracked = λ p h. rw (contains-append_one p o s.offsets, r.completed_tracked p h);
        next = r.next ∙ sym (prefix-append_undone o done s.offsets (not_contained fresh).0);
        agree = Agree-tracked fresh;
      }

  -- An accepted Track appends the offset and leaves what is done as it was.
  pub track_state-Tracks : (s' : PartitionState) → track_state s o ≡ ok s' → Tracks s done o s'
  unfolding track_state tracked_state
  track_state-Tracks s' h =
      let same : s' ≡ tracked_state = ground arith in
      rw same (record {
        represents = tracked_state-Represents (track_state-ok_iff.0 (s', h));
        appended = refl;
      })
