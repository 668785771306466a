-- ===== src/Application/Inputs/Preparation.antt =====
-- internal/application/classification_input_preparer.go: the prepared input is the requested one.
use variable_star_classifica.Prelude.{
  ◌≡◌, ◌∙◌, sym, ap, inl, inr, Text, ℤ, eqb_text_iff, eqb_ℤ_iff, ◌%◌, ◌^◌, length, arith,
}
use variable_star_classifica.Errors.{Result, Result-cases, ok}
use variable_star_classifica.Application.LightCurves.{
  LightCurveRevision, prepare_light_curve_revision,
}
use variable_star_classifica.Application.LightCurves.Preparation.{
  prepare_light_curve_revision-IsPrepared,
}
use variable_star_classifica.Application.CoarseMode.{
  CoarseModeSelection, select, IsSelection, select-IsSelection,
}
use variable_star_classifica.Application.Inputs.{
  Sources, read_revision, ClassificationInputPreparationRequest, PreparedClassificationInput,
  prepare,
}

-- The revision and the bundle of the request.
pub record IsRequested (sources : Sources) (request : ClassificationInputPreparationRequest)
    (p : PreparedClassificationInput) : Type 0 where
  pub object : p.revision.object_id ≡ request.object_id
  pub revision : p.revision.revision ≡ request.light_curve_revision
  pub selected :
      IsSelection sources.ports request.object_id request.light_curve_revision
        (length p.revision.epochs % 2 ^ 32)
        request.model_bundle_version
        p.selection

module _ (sources : Sources) (request : ClassificationInputPreparationRequest)
    (p : PreparedClassificationInput) where
  abbrev object_of : LightCurveRevision → Text
  object_of r = r.object_id

  abbrev revision_of : LightCurveRevision → ℤ
  revision_of r = r.revision

  abbrev select_for : LightCurveRevision → Result CoarseModeSelection
  select_for c =
      select sources.ports request.object_id request.light_curve_revision (length c.epochs % 2 ^ 32)
        request.model_bundle_version

  read-same :
      (r : LightCurveRevision)
      → read_revision sources request.object_id request.light_curve_revision ≡ ok r
      → (r.object_id ≡ request.object_id) × (r.revision ≡ request.light_curve_revision)
  unfolding read_revision
  read-same r h =
      elim (Result-cases (sources.get_revision request.object_id request.light_curve_revision)) [
        | inr (e, q) ↦ absurd (ground arith)
        | inl (c, q) ↦
            let same : c ≡ r = ground arith in
            (
              ap object_of (sym same) ∙ ground (arith, eqb_text_iff c.object_id request.object_id),
              ap revision_of (sym same)
                  ∙ ground (arith, eqb_ℤ_iff c.revision request.light_curve_revision),
            )
      ]

  prepared-same :
      (r c : LightCurveRevision)
      → read_revision sources request.object_id request.light_curve_revision ≡ ok r
      → prepare_light_curve_revision r request.declared_eligible_epoch_count ≡ ok c
      → (c.object_id ≡ request.object_id) × (c.revision ≡ request.light_curve_revision)
  prepared-same r c h s =
      let rest =
        (prepare_light_curve_revision-IsPrepared r request.declared_eligible_epoch_count c
          s).rest in
      let (object, revision) = read-same r h in
      (ap object_of rest ∙ object, ap revision_of rest ∙ revision)

  chosen :
      (c : LightCurveRevision)
      → select_for c ≡ ok p.selection
      → c ≡ p.revision
      → IsSelection sources.ports request.object_id request.light_curve_revision
          (length p.revision.epochs % 2 ^ 32)
          request.model_bundle_version
          p.selection
  chosen c h same =
      select-IsSelection sources.ports request.object_id request.light_curve_revision
        (length p.revision.epochs % 2 ^ 32) request.model_bundle_version p.selection
        (ap select_for (sym same) ∙ h)

  pub prepare-IsRequested : prepare sources request ≡ ok p → IsRequested sources request p
  unfolding prepare
  prepare-IsRequested h =
      elim (Result-cases (read_revision sources request.object_id request.light_curve_revision)) [
        | inr (e, q) ↦ absurd (ground arith)
        | inl (r, q) ↦
            elim (Result-cases
              (prepare_light_curve_revision r request.declared_eligible_epoch_count)) [
                | inr (e, s) ↦ absurd (ground arith)
                | inl (c, s) ↦ elim (Result-cases (select_for c)) [
                  | inr (e, t) ↦ absurd (ground arith)
                  | inl (selection, t) ↦
                      let same : c ≡ p.revision = ground arith in
                      let same_selection : selection ≡ p.selection = ground arith in
                      let (object, revision) = prepared-same r c q s in
                      record {
                        object = ap object_of (sym same) ∙ object;
                        revision = ap revision_of (sym same) ∙ revision;
                        selected = chosen c (t ∙ ap ok same_selection) same;
                      }
                ]
              ]
      ]
