-- ===== src/Application/LightCurves/Preparation.antt =====
-- internal/application/light_curve_preparer.go: what a prepared revision is, and when there is one.
use mathlib.Core.List.{Perm}
use mathlib.Core.List.Perm
use variable_star_classifica.Prelude.{
  ℕ, ◌≤◌, ◌≡◌, sym, subst, true, false, List, [], ◌∷◌, if-elim, ℤ, pos, ◌<ℤ◌, ◌≤ℤ◌, eqb_ℤ_iff, All,
  length, arith,
}
use variable_star_classifica.Errors.{ok}
use variable_star_classifica.Application.LightCurves.{
  LightCurveEpoch, LightCurveRevision, is_finite64, is_finite32, order64, order32, check_epoch,
  check_epochs, earlier, insert_epoch, sort_epochs, has_duplicate, prepare_light_curve_revision,
  minimum_light_curve_epoch_count, maximum_light_curve_epoch_count,
}

-- A usable epoch: finite values, and a positive error.
pub record IsUsable (e : LightCurveEpoch) : Type 0 where
  pub time : is_finite64 e.observation_time ≡ true
  pub magnitude : is_finite32 e.magnitude ≡ true
  pub magnitude_error : is_finite32 e.magnitude_error ≡ true
  pub positive : pos 0 <ℤ order32 e.magnitude_error

abbrev time_of : LightCurveEpoch → ℤ
time_of e = order64 e.observation_time

-- Sorted by time: strictly, or not.
abbrev pub IsAscending : List LightCurveEpoch → Type 0
IsAscending [] = Unit
IsAscending (e ∷ es) = All (λ f. time_of e <ℤ time_of f) es × IsAscending es

abbrev IsSorted : List LightCurveEpoch → Type 0
IsSorted [] = Unit
IsSorted (e ∷ es) = All (λ f. time_of e ≤ℤ time_of f) es × IsSorted es

check_epochs-IsUsable : (es : List LightCurveEpoch) → check_epochs es ≡ ok tt → All IsUsable es
unfolding check_epochs check_epoch
check_epochs-IsUsable [] h = tt
check_epochs-IsUsable (e ∷ es) h = (
  record {
    time = ground arith;
    magnitude = ground arith;
    magnitude_error = ground arith;
    positive = ground arith;
  },
  check_epochs-IsUsable es (ground arith),
)

insert_epoch-perm :
    (e : LightCurveEpoch) (es : List LightCurveEpoch) → Perm (insert_epoch e es) (e ∷ es)
unfolding insert_epoch
insert_epoch-perm e [] = Perm.rfl
insert_epoch-perm e (f ∷ fs) =
    if-elim (λ zs. Perm zs (e ∷ f ∷ fs)) (earlier f e)
      (λ h. Perm.trans (Perm.cons f (insert_epoch-perm e fs)) (Perm.swap e f fs)) (λ h. Perm.rfl)

sort_epochs-perm : (es : List LightCurveEpoch) → Perm (sort_epochs es) es
unfolding sort_epochs
sort_epochs-perm [] = Perm.rfl
sort_epochs-perm (e ∷ es) =
    Perm.trans (insert_epoch-perm e (sort_epochs es)) (Perm.cons e (sort_epochs-perm es))

insert_epoch-All :
    (P : LightCurveEpoch → Type 0) (e : LightCurveEpoch) (es : List LightCurveEpoch)
    → P e
    → All P es
    → All P (insert_epoch e es)
unfolding insert_epoch
insert_epoch-All P e [] h k = (h, tt)
insert_epoch-All P e (f ∷ fs) h k =
    if-elim (All P) (earlier f e) (λ _. (k.0, insert_epoch-All P e fs h k.1)) (λ _. (h, k))

All-le :
    (s t : ℤ) (es : List LightCurveEpoch)
    → s ≤ℤ t
    → All (λ f. t ≤ℤ time_of f) es
    → All (λ f. s ≤ℤ time_of f) es
All-le s t [] h k = tt
All-le s t (e ∷ es) h k = (ground arith, All-le s t es h k.1)

insert_epoch-IsSorted :
    (e : LightCurveEpoch) (es : List LightCurveEpoch) → IsSorted es → IsSorted (insert_epoch e es)
unfolding insert_epoch
insert_epoch-IsSorted e [] h = (tt, tt)
insert_epoch-IsSorted e (f ∷ fs) h =
    if-elim IsSorted (earlier f e)
      (λ first. (
        insert_epoch-All (λ g. time_of f ≤ℤ time_of g) e fs (ground arith) h.0,
        insert_epoch-IsSorted e fs h.1,
      ))
      (λ last.
        let order : time_of e ≤ℤ time_of f = ground arith in
        ((order, All-le (time_of e) (time_of f) fs order h.0), h))

sort_epochs-IsSorted : (es : List LightCurveEpoch) → IsSorted (sort_epochs es)
unfolding sort_epochs
sort_epochs-IsSorted [] = tt
sort_epochs-IsSorted (e ∷ es) = insert_epoch-IsSorted e (sort_epochs es) (sort_epochs-IsSorted es)

-- Sorted without equal neighbours is strictly sorted.
All-lt :
    (s t : ℤ) (es : List LightCurveEpoch)
    → s <ℤ t
    → All (λ f. t ≤ℤ time_of f) es
    → All (λ f. s <ℤ time_of f) es
All-lt s t [] h k = tt
All-lt s t (e ∷ es) h k = (ground arith, All-lt s t es h k.1)

distinct-IsAscending :
    (es : List LightCurveEpoch) → IsSorted es → has_duplicate es ≡ false → IsAscending es
unfolding has_duplicate
distinct-IsAscending [] h d = tt
distinct-IsAscending (e ∷ []) h d = (tt, tt)
distinct-IsAscending (e ∷ (f ∷ fs)) h d =
    let less : time_of e <ℤ time_of f = ground (arith, eqb_ℤ_iff (time_of e) (time_of f)) in
    (
      (less, All-lt (time_of e) (time_of f) fs less h.1.0),
      distinct-IsAscending (f ∷ fs) h.1 (ground arith),
    )

-- What the code promises of a prepared revision.
pub record IsPrepared (revision : LightCurveRevision) (declared : ℕ) (out : LightCurveRevision)
    : Type 0 where
  pub same_epochs : Perm out.epochs revision.epochs
  pub ascending : IsAscending out.epochs
  pub usable : All IsUsable revision.epochs
  pub counted : length revision.epochs ≡ declared
  pub at_least : minimum_light_curve_epoch_count ≤ declared
  pub at_most : declared ≤ maximum_light_curve_epoch_count
  pub rest : record out { epochs = revision.epochs } ≡ revision

-- A prepared revision has the epochs of the given one in strictly ascending order of their times, each
-- of them finite and with a positive error, as many as were declared, from 3 to 1024; and everything
-- else is as it was.
pub prepare_light_curve_revision-IsPrepared :
    (revision : LightCurveRevision) (declared : ℕ) (out : LightCurveRevision)
    → prepare_light_curve_revision revision declared ≡ ok out
    → IsPrepared revision declared out
unfolding prepare_light_curve_revision
prepare_light_curve_revision-IsPrepared revision declared out h =
    let sorted : out.epochs ≡ sort_epochs revision.epochs = ground arith in
    let distinct : has_duplicate (sort_epochs revision.epochs) ≡ false = ground arith in
    record {
      same_epochs =
          subst (λ es. Perm es revision.epochs) (sym sorted) (sort_epochs-perm revision.epochs);
      ascending = subst IsAscending (sym sorted) (
          distinct-IsAscending (sort_epochs revision.epochs) (sort_epochs-IsSorted revision.epochs)
            distinct);
      usable = check_epochs-IsUsable revision.epochs (ground arith);
      counted = ground arith;
      at_least = ground arith;
      at_most = ground arith;
      rest = ground arith;
    }
