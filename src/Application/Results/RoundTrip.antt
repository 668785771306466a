-- ===== src/Application/Results/RoundTrip.antt =====
-- internal/application/classification_result.go and classification_result_decode.go: the result writer
-- reads the run whose result message was built.
use variable_star_classifica.Prelude.{
  ◌≡◌, ◌≢◌, ◌∙◌, ◌<◌, ◌^◌, refl, sym, ap, subst, inl, inr, Bool-cases, false, List, [], ◌∷◌, Option,
  none, some, Text, eqb_text, eqb_text_iff, eqb_text_no, pos, length, arith,
}
use variable_star_classifica.Errors.{Result, ok, ◌>>◌}
use variable_star_classifica.Application.Messaging.{
  MessageHeader, OutboundMessage, InboundMessage, Delivers,
}
use variable_star_classifica.Application.Proto.{
  TraceContext, ClassificationResult, Protobuf, empty_result,
}
use variable_star_classifica.Application.Commands.RoundTrip.{trace-round_trip}
use variable_star_classifica.Application.Probabilities.{
  map_coarse_probabilities, map_fine_probabilities, map_leaf_probabilities,
  decode_result_coarse_probabilities, decode_result_fine_probabilities,
  decode_result_leaf_probabilities,
}
use variable_star_classifica.Application.Results.{
  decode_classification_result_source_run_id, validate_identity, built_result,
  build_classification_result_message, map_classification_result,
  decode_classification_result_message,
}
use variable_star_classifica.Domain.Identity.{UuidLibrary}
use variable_star_classifica.Domain.Classification.{
  ClassificationRun, HasArrays, Float32, coarse_probability_count,
  conditional_fine_probability_count, leaf_probability_count,
}

coarse-round_trip :
    (ps : List Float32)
    → length ps ≡ coarse_probability_count
    → decode_result_coarse_probabilities (map_coarse_probabilities ps) ≡ ps
coarse-round_trip (a ∷ (b ∷ (c ∷ (d ∷ (e ∷ (f ∷ (g ∷ []))))))) h = refl
coarse-round_trip (a ∷ (b ∷ (c ∷ (d ∷ (e ∷ (f ∷ (g ∷ (x ∷ ps)))))))) h = absurd (omega arith)
coarse-round_trip _ h = absurd (omega arith)

fine-round_trip :
    (ps : List Float32)
    → length ps ≡ conditional_fine_probability_count
    → decode_result_fine_probabilities (map_fine_probabilities ps) ≡ ps
fine-round_trip (a ∷ (b ∷ (c ∷ (d ∷ (e ∷ (f ∷ (g ∷ (h ∷ (i ∷ (j ∷ [])))))))))) l = refl
fine-round_trip (a ∷ (b ∷ (c ∷ (d ∷ (e ∷ (f ∷ (g ∷ (h ∷ (i ∷ (j ∷ (x ∷ ps))))))))))) l =
    absurd (omega arith)
fine-round_trip _ l = absurd (omega arith)

leaf-round_trip :
    (ps : List Float32)
    → length ps ≡ leaf_probability_count
    → decode_result_leaf_probabilities (map_leaf_probabilities ps) ≡ ps
leaf-round_trip (a ∷ (b ∷ (c ∷ (d ∷ (e ∷ (f ∷ (g ∷ (h ∷ (i ∷ (j ∷ (k ∷ (m ∷ [])))))))))))) l = refl
leaf-round_trip (a ∷ (b ∷ (c ∷ (d ∷ (e ∷ (f ∷ (g ∷ (h ∷ (i ∷ (j ∷ (k ∷ (m ∷ (x ∷ ps))))))))))))) l =
    absurd (omega arith)
leaf-round_trip _ l = absurd (omega arith)

object-result :
    {T : Type 0} (a b : ClassificationResult T)
    → ◌≡◌ {A = Result (ClassificationResult T)} (ok a) (ok b)
    → b.object_id ≡ a.object_id
object-result a b h = cc h

-- The canonical text of a UUID other than nil.
abbrev pub IsCanonicalUuid : UuidLibrary → Text → Type 0
IsCanonicalUuid lib value = (u : lib.Uuid) × (lib.to_string u ≡ value) × (lib.is_nil u ≡ false)

-- The decoder accepts every canonical source, and keeps it.
decode_source_run_id-canonical :
    (lib : UuidLibrary) (source : Option Text)
    → ((s : Text) → source ≡ some s → IsCanonicalUuid lib s)
    → decode_classification_result_source_run_id lib source ≡ ok source
unfolding decode_classification_result_source_run_id
decode_source_run_id-canonical lib none h = refl
decode_source_run_id-canonical lib (some s) h =
    let (u, text, other) = h s refl in
    let parsed : lib.parse s ≡ some u =
      subst (λ t. lib.parse t ≡ some u) text (lib.parse-to_string u) in
    rw (parsed, other, text, (eqb_text_iff s s).1 refl) refl

-- A run that fits into a message: the lengths of its arrays, its uint8 fields, a source that is absent
-- or a canonical UUID, and no time of storage yet.
pub record FitsMessage (lib : UuidLibrary) (run : ClassificationRun) : Type 0 where
  pub arrays : HasArrays run
  pub mode : run.execution_mode < 2 ^ 8
  pub source_type : run.coarse_source_type < 2 ^ 8
  pub source : (s : Text) → run.coarse_source_run_id ≡ some s → IsCanonicalUuid lib s
  pub not_stored : run.persisted_at ≡ pos 0
  pub object : run.object_id ≢ []

module _ (lib : UuidLibrary) (pb : Protobuf) where
  open pb use {new_timestamp, check_valid, as_time, as_time-new_timestamp, results}

  module _ (run : ClassificationRun) (trace : TraceContext) (fits : FitsMessage lib run)
      (valid : check_valid (new_timestamp run.completed_at) ≡ none) where
    map-built : map_classification_result lib pb (built_result lib pb run trace) ≡ ok run
    unfolding map_classification_result
    map-built =
        rw
          (
            valid,
            decode_source_run_id-canonical lib run.coarse_source_run_id fits.source,
            as_time-new_timestamp run.completed_at,
            coarse-round_trip run.coarse_probabilities fits.arrays.coarse,
            fine-round_trip run.fine_conditional_probabilities fits.arrays.fine,
            leaf-round_trip run.leaf_probabilities fits.arrays.leaf,
          )
          (ground (arith, fits.mode, fits.source_type, fits.not_stored))

    value-not_empty :
        (value : Text)
        → results.marshal (built_result lib pb run trace) ≡ ok value
        → eqb_text value [] ≡ false
    value-not_empty value marshalled = elim (Bool-cases (eqb_text value [])) [
      | inr other ↦ other
      | inl same ↦ absurd (
          fits.object (
            object-result empty_result (built_result lib pb run trace) (
              sym results.unmarshal_nothing
              ∙ results.unmarshal-marshal (built_result lib pb run trace) []
                  (marshalled ∙ ap ok ((eqb_text_iff value []).0 same)))))
    ]

    build_result-value :
        (topic : Text) (headers : List MessageHeader) (o : OutboundMessage)
        → build_classification_result_message lib pb topic run trace headers ≡ ok o
        → (results.marshal (built_result lib pb run trace) ≡ ok o.value)
          × (o.topic ≡ topic)
          × (o.key ≡ run.object_id)
    unfolding build_classification_result_message
    build_result-value topic headers o h = (ground arith, ground arith, ground arith)

    -- If a run has arrays of the model's sizes, a mode and a source type that a uint8 can hold, an
    -- object ID, a coarse source that is absent or the canonical text of a UUID other than nil, no
    -- time of storage, and a completion time that a Timestamp can hold, then decoding its delivered
    -- result message is exactly the check of the run's ids and relations: it gives back the run and
    -- the trace context unchanged if they hold, and the error of that check if they do not.
    pub decode-build_result :
        (topic : Text) (headers : List MessageHeader) (o : OutboundMessage) (m : InboundMessage)
        → topic ≢ []
        → build_classification_result_message lib pb topic run trace headers ≡ ok o
        → Delivers o m
        → decode_classification_result_message lib pb topic m ≡ (
            validate_identity lib run.object_id run
            >> ok (record { run = run; trace_context = trace }))
    unfolding decode_classification_result_message
    decode-build_result topic headers o m named h d =
        let (marshalled, same_topic, same_key) = build_result-value topic headers o h in
        rw (
          d.same_topic,
          d.same_key,
          d.same_value,
          same_topic,
          same_key,
          eqb_text_no topic [] named,
          (eqb_text_iff topic topic).1 refl,
          eqb_text_no run.object_id [] fits.object,
          value-not_empty o.value marshalled,
          results.unmarshal-marshal (built_result lib pb run trace) o.value marshalled,
          map-built,
          trace-round_trip trace,
        )
