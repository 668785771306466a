-- ===== src/Application/CoarseMode.antt =====
-- internal/application/coarse_mode_selector.go: whether the coarse probabilities are computed or
-- reused. The resolver, the finder and the context answer in the order in which they are asked.
use variable_star_classifica.Prelude.{
  ℕ, ◌≤◌, ◌<◌, ◌≡◌, ◌≢◌, subst, Bool-cases, refl, inl, inr, true, not, ◌||◌, Option, none, some,
  Text, eqb_text, eqb_text_iff, ltb, leb, if◌then◌else◌, ℤ, pos, leb_ℤ, ◌<ℤ◌, arith, [],
}
use variable_star_classifica.Errors.{
  insufficient_light_curve_epochs, too_many_light_curve_epochs, invalid_model_bundle_metadata,
  invalid_compatible_coarse_result, compatible_coarse_not_found, because, message, wrap, is,
  GoError, Result, Result-cases, ok, err, ◌>>=◌, ◌>>◌, context, check, refuse_if,
}
use variable_star_classifica.Application.LightCurves.{
  minimum_light_curve_epoch_count, maximum_light_curve_epoch_count,
}
use variable_star_classifica.Storage.Repository.{CompatibleCoarseQuery, CompatibleCoarseResult}

-- CoarseMode
pub data CoarseMode : Type 0 where
  unspecified_mode compute_current reuse_previous compute_bootstrap : CoarseMode

-- ModelBundleMetadata
pub record ModelBundleMetadata : Type 0 where
  pub model_bundle_version : Text

pub record CoarseModeSelection : Type 0 where
  pub mode : CoarseMode
  pub model_bundle : ModelBundleMetadata
  pub reused_coarse : Option CompatibleCoarseResult

-- What the ports answer; the three looks at ctx.Err() in their order.
pub record Ports : Type 0 where
  pub before : Option GoError
  pub resolve : Text → Result ModelBundleMetadata
  pub after_resolve : Option GoError
  pub find : CompatibleCoarseQuery → Result CompatibleCoarseResult
  pub after_find : Option GoError

abbrev pub maximum_compute_current_epoch_count : ℕ
maximum_compute_current_epoch_count = 20

-- validateModelBundleMetadata
unfoldable pub validate_model_bundle_metadata : Text → ModelBundleMetadata → Result (Unit {0})
validate_model_bundle_metadata requested m =
    refuse_if (not (eqb_text m.model_bundle_version requested))
      (because invalid_model_bundle_metadata "model_bundle_version")

-- validateCompatibleCoarseResult
unfoldable pub validate_compatible_coarse_result : ℤ → CompatibleCoarseResult → Result (Unit {0})
validate_compatible_coarse_result target r = do
  refuse_if (eqb_text r.source_run_id []) (because invalid_compatible_coarse_result "source run ID")
  refuse_if (leb_ℤ r.source_light_curve_revision (pos 0))
      (because invalid_compatible_coarse_result "source revision")
  refuse_if (leb_ℤ target r.source_light_curve_revision)
      (because invalid_compatible_coarse_result "source revision")
  refuse_if
      (ltb r.source_epoch_count minimum_light_curve_epoch_count
        || ltb maximum_light_curve_epoch_count r.source_epoch_count)
      (because invalid_compatible_coarse_result "source epoch count")

-- The rest of Select, once the finder has answered.
unfoldable pub select_found :
    Option GoError
    → ℤ
    → ModelBundleMetadata
    → Result CompatibleCoarseResult
    → Result CoarseModeSelection
unfolding validate_compatible_coarse_result
select_found over target bundle (err e) =
    if is compatible_coarse_not_found e
    then ok (record { mode = compute_bootstrap; model_bundle = bundle; reused_coarse = none })
    else err (wrap "find latest compatible coarse classification" e)
select_found over target bundle (ok r) = do
  check over
  validate_compatible_coarse_result target r
  ok (record { mode = reuse_previous; model_bundle = bundle; reused_coarse = some r })

-- CoarseModeSelector.Select
unfoldable pub select : Ports → Text → ℤ → ℕ → Text → Result CoarseModeSelection
unfolding validate_model_bundle_metadata select_found
select ports object target count version = do
  check ports.before
  refuse_if (eqb_text object []) (message "select coarse mode: object ID must not be empty")
  refuse_if (leb_ℤ target (pos 0))
      (message "select coarse mode: target light curve revision must be greater than zero")
  refuse_if (eqb_text version [])
      (message "select coarse mode: model bundle version must not be empty")
  refuse_if (ltb count minimum_light_curve_epoch_count)
      (because insufficient_light_curve_epochs "count")
  refuse_if (ltb maximum_light_curve_epoch_count count)
      (because too_many_light_curve_epochs "count")
  bundle ← context "resolve model bundle" (ports.resolve version)
  check ports.after_resolve
  validate_model_bundle_metadata version bundle
  if leb count maximum_compute_current_epoch_count
      then ok (record { mode = compute_current; model_bundle = bundle; reused_coarse = none })
      else select_found ports.after_find target bundle (
          ports.find (record {
            object_id = object;
            model_bundle_version = version;
            target_light_curve_revision = target;
          }))

-- What each mode stands for.
pub record Reuses (ports : Ports) (object : Text) (target : ℤ) (version : Text)
    (r : CompatibleCoarseResult) : Type 0 where
  pub found :
      ports.find (record {
        object_id = object;
        model_bundle_version = version;
        target_light_curve_revision = target;
      })
      ≡ ok r
  pub has_run : r.source_run_id ≢ []
  pub positive : pos 0 <ℤ r.source_light_curve_revision
  pub earlier : r.source_light_curve_revision <ℤ target
  pub at_least : minimum_light_curve_epoch_count ≤ r.source_epoch_count
  pub at_most : r.source_epoch_count ≤ maximum_light_curve_epoch_count

abbrev pub FitsMode :
    Ports → Text → ℤ → ℕ → Text → CoarseMode → Option CompatibleCoarseResult → Type 0
FitsMode ports object target count version compute_current none =
    count ≤ maximum_compute_current_epoch_count
FitsMode ports object target count version compute_bootstrap none =
    (maximum_compute_current_epoch_count < count)
    × ((e : GoError) × (ports.find (record {
      object_id = object;
      model_bundle_version = version;
      target_light_curve_revision = target;
    })
          ≡ err e)
        × (is compatible_coarse_not_found e ≡ true))
FitsMode ports object target count version reuse_previous (some r) =
    (maximum_compute_current_epoch_count < count) × Reuses ports object target version r
FitsMode ports object target count version _ _ = ⊥

-- A selection that fits what the ports answered.
pub record IsSelection (ports : Ports) (object : Text) (target : ℤ) (count : ℕ) (version : Text)
    (s : CoarseModeSelection) : Type 0 where
  pub fits : FitsMode ports object target count version s.mode s.reused_coarse
  pub resolved : ports.resolve version ≡ ok s.model_bundle
  pub same_version : s.model_bundle.model_bundle_version ≡ version
  pub at_least : minimum_light_curve_epoch_count ≤ count
  pub at_most : count ≤ maximum_light_curve_epoch_count

module _ (ports : Ports) (object : Text) (target : ℤ) (count : ℕ) (version : Text) where
  abbrev query : CompatibleCoarseQuery
  query = record {
    object_id = object;
    model_bundle_version = version;
    target_light_curve_revision = target;
  }

  select_found-FitsMode :
      (bundle : ModelBundleMetadata) (found : Result CompatibleCoarseResult)
      (s : CoarseModeSelection)
      → maximum_compute_current_epoch_count < count
      → ports.find query ≡ found
      → select_found ports.after_find target bundle found ≡ ok s
      → FitsMode ports object target count version s.mode s.reused_coarse
        × (s.model_bundle ≡ bundle)
  unfolding select_found validate_compatible_coarse_result
  select_found-FitsMode bundle (err e) s many at h =
      let made : record { mode = compute_bootstrap; model_bundle = bundle; reused_coarse = none }
          ≡ s =
        ground arith in
      (
        subst (λ z. FitsMode ports object target count version z.mode z.reused_coarse) made
            (many, (e, at, ground arith)),
        ground arith,
      )
  select_found-FitsMode bundle (ok r) s many at h =
      let made : record { mode = reuse_previous; model_bundle = bundle; reused_coarse = some r }
          ≡ s =
        ground arith in
      (
        subst (λ z. FitsMode ports object target count version z.mode z.reused_coarse) made
            (
              many,
              record {
                found = at;
                has_run = λ e. ground (arith, eqb_text_iff r.source_run_id []);
                positive = ground arith;
                earlier = ground arith;
                at_least = ground arith;
                at_most = ground arith;
              },
            ),
        ground arith,
      )

  -- What Select returns follows the rule: up to 20 epochs the coarse probabilities are computed; above,
  -- they are reused from the run that the finder gave, which is older and has a permitted number of
  -- epochs, and computed as a bootstrap only if the finder said that there is no such run. The bundle
  -- is the one that was asked for.
  pub select-IsSelection :
      (s : CoarseModeSelection)
      → select ports object target count version ≡ ok s
      → IsSelection ports object target count version s
  unfolding select validate_model_bundle_metadata
  select-IsSelection s h = elim (Result-cases (ports.resolve version)) [
    | inr (e, failed) ↦ absurd (ground arith)
    | inl (bundle, resolved) ↦ elim (Bool-cases (leb count maximum_compute_current_epoch_count)) [
      | inl few ↦
          let made : record { mode = compute_current; model_bundle = bundle; reused_coarse = none }
              ≡ s =
            ground arith in
          record {
            fits =
                subst (λ z. FitsMode ports object target count version z.mode z.reused_coarse) made
                  (ground arith);
            resolved = ground arith;
            same_version = ground (arith, eqb_text_iff bundle.model_bundle_version version);
            at_least = ground arith;
            at_most = ground arith;
          }
      | inr many ↦
          let later : select_found ports.after_find target bundle (ports.find query) ≡ ok s =
            ground arith in
          let (fits, same) =
            select_found-FitsMode bundle (ports.find query) s (ground arith) refl later in
          record {
            fits = fits;
            resolved = ground arith;
            same_version = ground (arith, eqb_text_iff bundle.model_bundle_version version);
            at_least = ground arith;
            at_most = ground arith;
          }
    ]
  ]
