-- ===== src/Kafka/Tracker/Prefix.antt =====
-- The specification of the completion tracker: the longest prefix of a partition's records all of which
-- are done.
use variable_star_classifica.Prelude.{
  ℕ, zero, suc, ◌+◌, ◌≡◌, ◌∙◌, refl, true, false, List, [], ◌∷◌, ℤ, ◌<ℤ◌, int_eq, contains, delete,
  contains-delete, drop, take, All, if◌then◌else◌, Bool-cases, inl, inr, arith,
}
use variable_star_classifica.Kafka.Tracker.{Advance, advance}

-- How many records stand before the first one that is not done.
abbrev pub completed_prefix : List ℤ → List ℤ → ℕ
completed_prefix done [] = 0
completed_prefix done (o ∷ os) = if contains o done then suc (completed_prefix done os) else 0

-- Offsets in strictly ascending order.
abbrev pub IsAscending : List ℤ → Type 0
IsAscending [] = Unit
IsAscending (o ∷ os) = All (λ p. o <ℤ p) os × IsAscending os

-- Two sets agree on the given offsets.
abbrev pub Agree : List ℤ → List ℤ → List ℤ → Type 0
Agree xs ys os = All (λ o. contains o xs ≡ contains o ys) os

Agree-delete :
    (o : ℤ) (xs ys os : List ℤ) → All (λ p. o <ℤ p) os → Agree xs ys os → Agree (delete o xs) ys os
Agree-delete o xs ys [] h a = tt
Agree-delete o xs ys (p ∷ os) h a =
    (ground (arith, contains-delete o p xs), Agree-delete o xs ys os h.1 a.1)

pub Agree-drop : (n : ℕ) (xs ys os : List ℤ) → Agree xs ys os → Agree xs ys (drop n os)
Agree-drop zero xs ys os a = a
Agree-drop (suc n) xs ys [] a = tt
Agree-drop (suc n) xs ys (o ∷ os) a = Agree-drop n xs ys os a.1

-- The last element, or a value that is given for the empty list.
abbrev pub last_or : List ℤ → ℤ → ℤ
last_or [] d = d
last_or (x ∷ xs) d = last_or xs x

-- The loop of MarkCompleted passes the records of the longest done prefix and no others, remembers the
-- last of them, and leaves a set that still agrees on the records behind.
pub record AdvancesBy (done os : List ℤ) (a b : Advance) : Type 0 where
  pub passed : b.passed ≡ a.passed + completed_prefix done os
  pub last : b.completed_offset ≡ last_or (take (completed_prefix done os) os) a.completed_offset
  pub agree : Agree b.completed done (drop (completed_prefix done os) os)

AdvancesBy-pass :
    (done os : List ℤ) (o : ℤ) (a a' b : Advance)
    → contains o done ≡ true
    → a'.passed ≡ a.passed + 1
    → a'.completed_offset ≡ o
    → AdvancesBy done os a' b
    → AdvancesBy done (o ∷ os) a b
AdvancesBy-pass done os o a a' b found one at r = record {
  passed = rw found (omega (arith, r.passed));
  last = rw found (rw (← at) r.last);
  agree = rw found r.agree;
}

AdvancesBy-stop :
    (done os : List ℤ) (o : ℤ) (a : Advance)
    → contains o done ≡ false
    → Agree a.completed done (o ∷ os)
    → AdvancesBy done (o ∷ os) a a
AdvancesBy-stop done os o a missing agree = record {
  passed = rw missing (omega arith);
  last = rw missing;
  agree = rw missing agree;
}

pub advance-AdvancesBy :
    (done os : List ℤ) (a : Advance)
    → IsAscending os
    → Agree a.completed done os
    → AdvancesBy done os a (advance os a)
unfolding advance
advance-AdvancesBy done [] a asc agree = record { passed = omega arith; last = refl; agree = tt }
advance-AdvancesBy done (o ∷ os) a asc agree = elim (Bool-cases (contains o done)) [
  | inl found ↦ rw (agree.0 ∙ found) (
      AdvancesBy-pass done os o a _ _ found refl refl
        (advance-AdvancesBy done os _ asc.1 (Agree-delete o a.completed done os asc.0 agree.1)))
  | inr missing ↦ rw (agree.0 ∙ missing) (AdvancesBy-stop done os o a missing agree)
]
