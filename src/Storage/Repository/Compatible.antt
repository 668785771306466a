-- ===== src/Storage/Repository/Compatible.antt =====
-- internal/adapter/postgres/classification_repository.go: FindLatestCompatibleCoarse gives the newest
-- compatible run before the target revision.
use variable_star_classifica.Prelude.{
  ◌≡◌, sym, ap, subst, refl, ◌⊎◌, inl, inr, true, false, List, [], ◌∷◌, Option, none, some, ◌≤ℤ◌,
  ◌<ℤ◌, arith, if-elim, eqb_text_iff,
}
use variable_star_classifica.Storage.{Row}
use variable_star_classifica.Storage.Repository.{
  CompatibleCoarseQuery, is_compatible, comes_before, better, latest_compatible,
}
use variable_star_classifica.Storage.Repository.Current.{IsIn}

-- A run whose coarse probabilities the target may reuse.
pub record IsCompatible (q : CompatibleCoarseQuery) (r : Row) : Type 0 where
  pub object : r.object_id ≡ q.object_id
  pub bundle : r.model_bundle_version ≡ q.model_bundle_version
  pub executed : r.xgboost_executed ≡ true
  pub before : r.light_curve_revision <ℤ q.target_light_curve_revision

is_compatible→IsCompatible :
    (q : CompatibleCoarseQuery) (r : Row) → is_compatible q r ≡ true → IsCompatible q r
is_compatible→IsCompatible q r h = record {
  object = ground (arith, eqb_text_iff r.object_id q.object_id);
  bundle = ground (arith, eqb_text_iff r.model_bundle_version q.model_bundle_version);
  executed = ground arith;
  before = ground arith;
}

IsCompatible→is_compatible :
    (q : CompatibleCoarseQuery) (r : Row) → IsCompatible q r → is_compatible q r ≡ true
IsCompatible→is_compatible q r h = ground (
  arith,
  h.object,
  h.bundle,
  h.executed,
  h.before,
  eqb_text_iff r.object_id q.object_id,
  eqb_text_iff r.model_bundle_version q.model_bundle_version,
)

-- The newest of the compatible rows.
pub record IsNewest (q : CompatibleCoarseQuery) (runs : List Row) (r : Row) : Type 0 where
  pub stored : IsIn r runs
  pub compatible : IsCompatible q r
  pub newest :
      (s : Row) → IsIn s runs → IsCompatible q s → s.light_curve_revision ≤ℤ r.light_curve_revision

better-revision :
    (r s : Row)
    → (s.light_curve_revision ≤ℤ (better r (some s)).light_curve_revision)
      × (r.light_curve_revision ≤ℤ (better r (some s)).light_curve_revision)
better-revision r s =
    if-elim
      (λ (x : Row).
        (s.light_curve_revision ≤ℤ x.light_curve_revision)
        × (r.light_curve_revision ≤ℤ x.light_curve_revision))
      (comes_before s r) (λ h. (ground arith, ground arith)) (λ h. (ground arith, ground arith))

better-cases : (r s : Row) → (better r (some s) ≡ r) ⊎ (better r (some s) ≡ s)
better-cases r s =
    if-elim (λ (x : Row). (x ≡ r) ⊎ (x ≡ s)) (comes_before s r) (λ h. inr refl) (λ h. inl refl)

-- What the statement promises of the row that it gives, or does not.
abbrev pub IsLatest : CompatibleCoarseQuery → List Row → Option Row → Type 0
IsLatest q runs none = (s : Row) → IsIn s runs → ¬ IsCompatible q s
IsLatest q runs (some r) = IsNewest q runs r

incompatible_absurd :
    (q : CompatibleCoarseQuery) (r s : Row) → is_compatible q r ≡ false → s ≡ r → ¬ IsCompatible q s
incompatible_absurd q r s other same h =
    cc (other, IsCompatible→is_compatible q r (subst (IsCompatible q) same h))

skip-IsLatest :
    (q : CompatibleCoarseQuery) (r : Row) (rs : List Row) (rest : Option Row)
    → is_compatible q r ≡ false
    → IsLatest q rs rest
    → IsLatest q (r ∷ rs) rest
skip-IsLatest q r rs none other h = λ s i. out s i
  where
    out : (s : Row) → IsIn s (r ∷ rs) → ¬ IsCompatible q s
    out s (inl same) = incompatible_absurd q r s other same
    out s (inr i) = h s i
skip-IsLatest q r rs (some t) other h = record {
  stored = inr h.stored;
  compatible = h.compatible;
  newest = λ s i c. bound s c i;
}
  where
    bound :
        (s : Row)
        → IsCompatible q s
        → IsIn s (r ∷ rs)
        → s.light_curve_revision ≤ℤ t.light_curve_revision
    bound s c (inl same) = absurd (incompatible_absurd q r s other same c)
    bound s c (inr i) = h.newest s i c

take-IsLatest :
    (q : CompatibleCoarseQuery) (r : Row) (rs : List Row) (rest : Option Row)
    → IsCompatible q r
    → IsLatest q rs rest
    → IsLatest q (r ∷ rs) (some (better r rest))
take-IsLatest q r rs none fits h = record {
  stored = inl refl;
  compatible = fits;
  newest = λ s i c. bound s c i;
}
  where
    bound :
        (s : Row)
        → IsCompatible q s
        → IsIn s (r ∷ rs)
        → s.light_curve_revision ≤ℤ r.light_curve_revision
    bound s c (inl same) = ground (arith, ap (λ z. z.light_curve_revision) same)
    bound s c (inr i) = absurd (h s i c)
take-IsLatest q r rs (some t) fits h = record {
  stored = stored (better-cases r t);
  compatible = compatible (better-cases r t);
  newest = λ s i c. bound s c i;
}
  where
    stored : (better r (some t) ≡ r) ⊎ (better r (some t) ≡ t) → IsIn (better r (some t)) (r ∷ rs)
    stored (inl e) = inl e
    stored (inr e) = inr (subst (λ x. IsIn x rs) (sym e) h.stored)

    compatible :
        (better r (some t) ≡ r) ⊎ (better r (some t) ≡ t) → IsCompatible q (better r (some t))
    compatible (inl e) = subst (IsCompatible q) (sym e) fits
    compatible (inr e) = subst (IsCompatible q) (sym e) h.compatible

    bound :
        (s : Row)
        → IsCompatible q s
        → IsIn s (r ∷ rs)
        → s.light_curve_revision ≤ℤ (better r (some t)).light_curve_revision
    bound s c (inl same) =
        subst (λ x. x.light_curve_revision ≤ℤ (better r (some t)).light_curve_revision) (sym same)
          (better-revision r t).1
    bound s c (inr i) = omega (arith, h.newest s i c, (better-revision r t).0)

-- The row that FindLatestCompatibleCoarse reads is a stored run of the object under the same bundle
-- that executed XGBoost, before the target revision, and no other such run is newer; no row is read
-- only when there is none.
pub latest_compatible-IsLatest :
    (q : CompatibleCoarseQuery) (runs : List Row) → IsLatest q runs (latest_compatible q runs)
unfolding latest_compatible
latest_compatible-IsLatest q [] = λ s i c. i
latest_compatible-IsLatest q (r ∷ rs) =
    if-elim (IsLatest q (r ∷ rs)) (is_compatible q r)
      (λ fits.
        take-IsLatest q r rs (latest_compatible q rs) (is_compatible→IsCompatible q r fits)
          (latest_compatible-IsLatest q rs))
      (λ other.
        skip-IsLatest q r rs (latest_compatible q rs) other (latest_compatible-IsLatest q rs))
