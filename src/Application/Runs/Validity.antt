-- ===== src/Application/Runs/Validity.antt =====
-- internal/application/classification_run_builder.go: a run that was built meets what the result writer
-- demands of a run.
use variable_star_classifica.Prelude.{
  ℕ, ◌≤◌, ◌≡◌, refl, subst, inl, inr, true, false, ◌||◌, [], Option, none, some, Text, eqb_text,
  pos, leb_ℤ, eqb_ℤ, eqb_ℤ_iff, ltb, arith, Bool,
}
use variable_star_classifica.Errors.{Result-cases, ok}
use variable_star_classifica.Application.LightCurves.{
  minimum_light_curve_epoch_count, maximum_light_curve_epoch_count,
}
use variable_star_classifica.Application.CoarseMode.{
  CoarseMode, unspecified_mode, compute_current, reuse_previous, compute_bootstrap,
}
use variable_star_classifica.Application.Commands.{is_present}
use variable_star_classifica.Application.Inputs.{PreparedClassificationInput}
use variable_star_classifica.Application.Predictions.{predicted_coarse_class, predicted_leaf_class}
use variable_star_classifica.Application.Predictions.Maximum.{
  predicted_coarse_class-valid, predicted_leaf_class-valid,
}
use variable_star_classifica.Application.ResultRules.{
  coarse_source_broken, validate_decoded_classification_run,
}
use variable_star_classifica.Application.Runs.{
  CoarseSource, ClassificationRunBuildRequest, is_valid_run_execution_mode,
  validate_serving_bundle_for_run, validate_prepared_classification_for_run, source_for_mode,
  map_classification_coarse_source, run_from, build_classification_run,
}
use variable_star_classifica.Domain.Identity.{UuidLibrary, generate_run_id}
use variable_star_classifica.Domain.Classification.{
  ClassificationRun, HasArrays, coarse_source_valid,
}
use variable_star_classifica.Storage.Repository.{CompatibleCoarseResult}

-- The source that was mapped is the source of the run.
record HasSource (run : ClassificationRun) (source : CoarseSource) : Type 0 where
  kind : run.coarse_source_type ≡ source.source_type
  id : run.coarse_source_run_id ≡ source.source_run_id
  revision : run.coarse_source_light_curve_revision ≡ source.light_curve_revision
  count : run.coarse_source_epoch_count ≡ source.epoch_count

source-valid :
    (run : ClassificationRun) (mode : CoarseMode) (reused : Option CompatibleCoarseResult)
    (probabilities : Bool) (source : CoarseSource)
    → source_for_mode mode reused probabilities run.xgboost_executed run.light_curve_revision
        run.effective_epoch_count
      ≡ ok source
    → HasSource run source
    → (coarse_source_valid run.coarse_source_type ≡ true) × (coarse_source_broken run ≡ false)
unfolding source_for_mode coarse_source_broken coarse_source_valid
source-valid run unspecified_mode reused probabilities source h s = absurd (cc h)
source-valid run compute_current none probabilities source h s =
    (ground (arith, s.kind), ground (arith, s.kind, s.id, s.revision, s.count))
source-valid run compute_current (some r) probabilities source h s = absurd (ground arith)
source-valid run reuse_previous none probabilities source h s = absurd (ground arith)
source-valid run reuse_previous (some r) probabilities source h s =
    (ground (arith, s.kind), ground (arith, s.kind, s.id, s.revision, s.count))
source-valid run compute_bootstrap none probabilities source h s =
    (ground (arith, s.kind), ground (arith, s.kind, s.id, s.revision, s.count))
source-valid run compute_bootstrap (some r) probabilities source h s = absurd (ground arith)

-- What is known of a run that was built.
pub record IsBuilt (lib : UuidLibrary) (request : ClassificationRunBuildRequest)
    (run : ClassificationRun) : Type 0 where
  pub run_id : Text
  pub count : ℕ
  pub source : CoarseSource
  pub with_id : generate_run_id lib request.job_id ≡ ok run_id
  pub candidate : leb_ℤ request.candidate_revision (pos 0) ≡ false
  pub mode : is_valid_run_execution_mode request.execution_mode ≡ true
  pub completed : eqb_ℤ request.completed_at (pos 0) ≡ false
  pub prepared : validate_prepared_classification_for_run request.prepared ≡ ok count
  pub bundle :
      validate_serving_bundle_for_run request.prepared.selection.model_bundle.model_bundle_version
        request.serving_bundle
      ≡ ok tt
  pub mapped :
      map_classification_coarse_source request.prepared request.output.xgboost_executed count
      ≡ ok source
  pub is_run : run ≡ run_from request run_id count source

module _ (lib : UuidLibrary) (request : ClassificationRunBuildRequest)
    (run : ClassificationRun) where
  pub build-IsBuilt : build_classification_run lib request ≡ ok run → IsBuilt lib request run
  unfolding build_classification_run
  build-IsBuilt h = elim (Result-cases (generate_run_id lib request.job_id)) [
    | inr (e, p) ↦ absurd (ground arith)
    | inl (id, with_id) ↦
        elim (Result-cases (validate_prepared_classification_for_run request.prepared)) [
          | inr (e, p) ↦ absurd (ground arith)
          | inl (count, prepared) ↦
              elim (Result-cases (
                map_classification_coarse_source request.prepared request.output.xgboost_executed
                  count)) [
                    | inr (e, p) ↦ absurd (ground arith)
                    | inl (source, mapped) ↦ record {
                      run_id = id;
                      count = count;
                      source = source;
                      with_id = with_id;
                      candidate = ground arith;
                      mode = ground arith;
                      completed = ground arith;
                      prepared = prepared;
                      bundle = ground arith;
                      mapped = mapped;
                      is_run = ground arith;
                    }
                  ]
        ]
  ]

-- What validatePreparedClassificationForRun establishes.
pub record IsCounted (prepared : PreparedClassificationInput) (count : ℕ) : Type 0 where
  pub object : eqb_text prepared.revision.object_id [] ≡ false
  pub revision : leb_ℤ prepared.revision.revision (pos 0) ≡ false
  pub at_least : minimum_light_curve_epoch_count ≤ count
  pub at_most : count ≤ maximum_light_curve_epoch_count

pub prepared-IsCounted :
    (prepared : PreparedClassificationInput) (count : ℕ)
    → validate_prepared_classification_for_run prepared ≡ ok count
    → IsCounted prepared count
unfolding validate_prepared_classification_for_run
prepared-IsCounted prepared count h = record {
  object = ground arith;
  revision = ground arith;
  at_least = ground arith;
  at_most = ground arith;
}

serving-not_empty :
    (prepared serving : Text)
    → validate_serving_bundle_for_run prepared serving ≡ ok tt
    → eqb_text serving [] ≡ false
unfolding validate_serving_bundle_for_run
serving-not_empty prepared serving h = ground arith

module _ (lib : UuidLibrary) (request : ClassificationRunBuildRequest) (run : ClassificationRun)
    (b : IsBuilt lib request run) (arrays : HasArrays run) where
  abbrev made : ClassificationRun
  made = run_from request b.run_id b.count b.source

  sourced :
      (coarse_source_valid made.coarse_source_type ≡ true) × (coarse_source_broken made ≡ false)
  unfolding map_classification_coarse_source
  sourced =
      source-valid made request.prepared.selection.mode request.prepared.selection.reused_coarse
        (is_present request.prepared.input.reused_coarse_probabilities) b.source b.mapped
        (record { kind = refl; id = refl; revision = refl; count = refl })

  made-arrays : HasArrays made
  made-arrays = subst HasArrays b.is_run arrays

  made-validated : validate_decoded_classification_run made ≡ ok tt
  unfolding validate_decoded_classification_run
  made-validated =
      let c = prepared-IsCounted request.prepared b.count b.prepared in
      rw (
        c.object,
        b.candidate,
        c.revision,
        in_range b.count c.at_least c.at_most,
        b.mode,
        sourced.0,
        serving-not_empty _ request.serving_bundle b.bundle,
        predicted_coarse_class-valid request.output.coarse_probabilities made-arrays.coarse,
        predicted_leaf_class-valid request.output.leaf_probabilities made-arrays.leaf,
        b.completed,
        (eqb_ℤ_iff (predicted_coarse_class request.output.coarse_probabilities) _).1 refl,
        (eqb_ℤ_iff (predicted_leaf_class request.output.leaf_probabilities) _).1 refl,
        sourced.1,
      )
    where
      in_range :
          (n : ℕ)
          → minimum_light_curve_epoch_count ≤ n
          → n ≤ maximum_light_curve_epoch_count
          → (ltb n minimum_light_curve_epoch_count || ltb maximum_light_curve_epoch_count n) ≡ false
      in_range n lo hi = ground arith

  pub build-validated : validate_decoded_classification_run run ≡ ok tt
  build-validated = rw b.is_run made-validated
