-- ===== src/Application/ResultTests.antt =====
-- internal/application: the theorems on a run, its result and the result writer.
use variable_star_classifica.Prelude.{
  ℕ, ◌≡◌, ◌∙◌, refl, true, [], ◌∷◌, none, some, Text, trim_space, arith,
}
use variable_star_classifica.Errors.{Result, ok, ◌>>◌}
use variable_star_classifica.Application.Candidates.{no_trace}
use variable_star_classifica.Application.Handlers.{saved}
use variable_star_classifica.Domain.Identity.{
  generate_job_id, generate_run_id, validate_job_identity, validate_identity_string,
  validate_execution_mode,
}
use variable_star_classifica.Domain.Classification.{
  ClassificationRun, coarse_source_valid, coarse_class_valid, leaf_class_valid,
}
use variable_star_classifica.Application.ResultRules.{
  validate_decoded_classification_run, coarse_source_broken, computed_relations_broken,
}
use variable_star_classifica.Application.Predictions.{
  predicted_coarse_class, predicted_leaf_class, first_maximum_index, first_maximum_from,
}
use variable_star_classifica.Application.Runs.{is_valid_run_execution_mode}
use variable_star_classifica.Application.Results.{
  validate_identity, decode_classification_result_message,
}
use variable_star_classifica.Application.Results.RoundTrip.{
  FitsMessage, IsCanonicalUuid, decode-build_result,
}
use variable_star_classifica.Application.Handlers.Writer.{
  saver, timeout_saver, save_unless, after_save, save_decoded, write_unless, writer_handle,
}
use variable_star_classifica.Application.Handlers.Writer.Saving.{IsSaved, writer_handle-IsSaved}
use variable_star_classifica.Storage.Repository.{SaveRunResult}
use variable_star_classifica.Application.Fixtures.{
  earlier_uuid, result_is_built, result_message, plain_protobuf, as_read, as_read-Delivers,
  at_start, calm, result_topic, the_run, known_uuids,
}

-- The source of the run is an earlier run's UUID.
the_source : (s : Text) → the_run.coarse_source_run_id ≡ some s → IsCanonicalUuid known_uuids s
the_source s h = (earlier_uuid, cc h, refl)

the_run-FitsMessage : FitsMessage known_uuids the_run
the_run-FitsMessage = record {
  arrays = record { coarse = refl; fine = refl; leaf = refl };
  mode = omega arith;
  source_type = omega arith;
  source = the_source;
  not_stored = refl;
  object = λ e. absurd (cc e);
}

decode-build_result_example :
    decode_classification_result_message known_uuids plain_protobuf result_topic
      (as_read result_message)
    ≡ (validate_identity known_uuids the_run.object_id the_run
        >> ok (record { run = the_run; trace_context = no_trace }))
decode-build_result_example =
    decode-build_result known_uuids plain_protobuf the_run no_trace the_run-FitsMessage refl
      result_topic [] result_message (as_read result_message) (λ e. absurd (cc e)) result_is_built
      (as_read-Delivers result_message)

result_is_decoded :
    decode_classification_result_message known_uuids plain_protobuf result_topic
      (as_read result_message)
    ≡ ok (record { run = the_run; trace_context = no_trace })
unfolding validate_identity generate_job_id validate_job_identity validate_identity_string
    validate_execution_mode trim_space validate_decoded_classification_run coarse_source_broken
    computed_relations_broken predicted_coarse_class predicted_leaf_class first_maximum_index
    first_maximum_from is_valid_run_execution_mode coarse_source_valid coarse_class_valid
    leaf_class_valid generate_run_id
result_is_decoded = decode-build_result_example ∙ refl

-- A repository that stores every run.
abbrev stores : ClassificationRun → ℕ → Result SaveRunResult
stores run t = ok (record { run_inserted = true; current_advanced = true })

result_is_written :
    writer_handle calm
      (timeout_saver calm (saver stores))
      plain_protobuf
      known_uuids
      result_topic
      (as_read result_message)
      at_start
    ≡ (none, record { tick = 3; trace = saved the_run none ∷ [] })
unfolding writer_handle write_unless save_decoded timeout_saver save_unless after_save
result_is_written = rw result_is_decoded refl

writer_handle-IsSaved_example :
    IsSaved calm stores plain_protobuf known_uuids result_topic
      (as_read result_message)
      (saved the_run none ∷ [])
writer_handle-IsSaved_example =
    writer_handle-IsSaved calm stores plain_protobuf known_uuids result_topic
      (as_read result_message) at_start (record { tick = 3; trace = saved the_run none ∷ [] })
      result_is_written
