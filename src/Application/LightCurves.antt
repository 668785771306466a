-- ===== src/Application/LightCurves.antt =====
-- internal/domain/light_curve.go and internal/application/light_curve_preparer.go. A float is its IEEE
-- bit pattern; sort.Slice is an insertion sort, which is enough, since the sorted list is the only one
-- when no two times are equal, and is refused otherwise.
pub mod Preparation
use variable_star_classifica.Prelude.{
  ℕ, zero, suc, ◌-◌, ◌/◌, ◌%◌, ◌^◌, Bool, true, false, not, ◌&&◌, ◌||◌, List, [], ◌∷◌, Option, none,
  some, Text, ltb, ◌==◌, if◌then◌else◌, ℤ, pos, negsuc, ltb_ℤ, leb_ℤ, eqb_ℤ, length,
}
use variable_star_classifica.Errors.{
  light_curve_epoch_count_mismatch, insufficient_light_curve_epochs, too_many_light_curve_epochs,
  invalid_observation_time, invalid_magnitude, invalid_magnitude_error, duplicate_observation_time,
  because, Result, ok, err, ◌>>=◌, ◌>>◌, refuse_if,
}

pub record LightCurveEpoch : Type 0 where
  pub observation_time : ℕ  -- float64
  pub magnitude : ℕ  -- float32
  pub magnitude_error : ℕ  -- float32

pub record LightCurveRevision : Type 0 where
  pub object_id : Text
  pub revision : ℤ
  pub eligible_epoch_count : ℕ  -- uint32
  pub quality_policy_version : Option Text
  pub epochs : List LightCurveEpoch

-- Neither NaN nor an infinity: the exponent is not all ones.
abbrev pub is_finite64 : ℕ → Bool
is_finite64 b = not (((b / 2 ^ 52) % 2 ^ 11) == (2 ^ 11 - 1))

abbrev pub is_finite32 : ℕ → Bool
is_finite32 b = not (((b / 2 ^ 23) % 2 ^ 8) == (2 ^ 8 - 1))

abbrev negate : ℕ → ℤ
negate zero = pos 0
negate (suc n) = negsuc n

-- The order of the finite floats is that of their signed magnitudes; both zeros are 0.
abbrev pub order64 : ℕ → ℤ
order64 b = if ltb b (2 ^ 63) then pos b else negate (b - 2 ^ 63)

abbrev pub order32 : ℕ → ℤ
order32 b = if ltb b (2 ^ 31) then pos b else negate (b - 2 ^ 31)

abbrev pub minimum_light_curve_epoch_count : ℕ
minimum_light_curve_epoch_count = 3

abbrev pub maximum_light_curve_epoch_count : ℕ
maximum_light_curve_epoch_count = 1024

-- The body of the loop over the epochs.
unfoldable pub check_epoch : LightCurveEpoch → Result (Unit {0})
check_epoch e = do
  refuse_if (not (is_finite64 e.observation_time)) (because invalid_observation_time "epoch")
  refuse_if (not (is_finite32 e.magnitude)) (because invalid_magnitude "epoch")
  refuse_if (not (is_finite32 e.magnitude_error) || leb_ℤ (order32 e.magnitude_error) (pos 0))
      (because invalid_magnitude_error "epoch")

unfoldable pub check_epochs : List LightCurveEpoch → Result (Unit {0})
unfolding check_epoch
check_epochs [] = ok tt
check_epochs (e ∷ es) = do check_epoch e; check_epochs es

-- The comparison that sort.Slice is given.
abbrev pub earlier : LightCurveEpoch → LightCurveEpoch → Bool
earlier a b = ltb_ℤ (order64 a.observation_time) (order64 b.observation_time)

unfoldable pub insert_epoch : LightCurveEpoch → List LightCurveEpoch → List LightCurveEpoch
insert_epoch e [] = e ∷ []
insert_epoch e (f ∷ fs) =
    let rest = insert_epoch e fs in if earlier f e then f ∷ rest else e ∷ f ∷ fs

unfoldable pub sort_epochs : List LightCurveEpoch → List LightCurveEpoch
unfolding insert_epoch
sort_epochs [] = []
sort_epochs (e ∷ es) = insert_epoch e (sort_epochs es)

-- The loop over neighbours in the sorted list.
unfoldable pub has_duplicate : List LightCurveEpoch → Bool
has_duplicate [] = false
has_duplicate (e ∷ []) = false
has_duplicate (e ∷ (f ∷ fs)) =
    eqb_ℤ (order64 e.observation_time) (order64 f.observation_time) || has_duplicate (f ∷ fs)

-- PrepareLightCurveRevision
unfoldable pub prepare_light_curve_revision : LightCurveRevision → ℕ → Result LightCurveRevision
unfolding check_epochs sort_epochs has_duplicate
prepare_light_curve_revision revision declared = do
  let actual = length revision.epochs
  refuse_if
      (not (declared == revision.eligible_epoch_count)
        || not (revision.eligible_epoch_count == actual))
      (because light_curve_epoch_count_mismatch "count")
  refuse_if (ltb actual minimum_light_curve_epoch_count)
      (because insufficient_light_curve_epochs "count")
  refuse_if (ltb maximum_light_curve_epoch_count actual)
      (because too_many_light_curve_epochs "count")
  check_epochs revision.epochs
  let sorted = sort_epochs revision.epochs
  refuse_if (has_duplicate sorted) (because duplicate_observation_time "time")
  ok (record revision { epochs = sorted })
