-- ===== src/Storage/Tests/Inserting.antt =====
-- internal/adapter/postgres/classification_repository.go: a run that names its source is inserted, and
-- read from its row.
use variable_star_classifica.Prelude.{
  ◌≡◌, ◌≢◌, refl, true, false, List, [], ◌∷◌, Option, none, some, Text, codes, pos, text_eq,
}
use variable_star_classifica.Errors.{ok}
use variable_star_classifica.Domain.Classification.{ClassificationRun, HasArrays}
use variable_star_classifica.Storage.{
  InsertArguments, Row, insert_arguments, scanned, to_domain, postgres_integer,
}
use variable_star_classifica.Storage.Tables.{
  Database, one_row, insert_classification_run, insert_row, cast_row, cast_ids, cast_source,
  run_check,
}
use variable_star_classifica.Storage.Repository.RoundTrip.{IsColumnar, insert_run-to_domain}
use variable_star_classifica.Domain.Classification.{coarse_class_valid, leaf_class_valid}
use variable_star_classifica.Storage.Tests.{plain_server, first_run, zeros7}

abbrev first_arguments : InsertArguments
first_arguments = record {
  run_id = codes "run-1";
  job_id = codes "job-1";
  object_id = codes "ZTF18";
  candidate_revision = pos 1;
  light_curve_revision = pos 4;
  effective_epoch_count = pos 12;
  execution_mode = 1;
  coarse_source_type = 1;
  coarse_source_run_id = none;
  coarse_source_light_curve_revision = pos 4;
  coarse_source_epoch_count = pos 12;
  xgboost_executed = true;
  model_bundle_version = codes "bundle-1";
  coarse_probabilities = zeros7;
  fine_conditional_probabilities = 0 ∷ 0 ∷ 0 ∷ zeros7;
  leaf_probabilities = 0 ∷ 0 ∷ 0 ∷ 0 ∷ 0 ∷ zeros7;
  predicted_coarse_class = pos 30;
  predicted_leaf_class = pos 30;
  completed_at = pos 90;
}

-- A later run of the object reuses the coarse probabilities of the first one.
abbrev second_run : ClassificationRun
second_run = record first_run {
  run_id = codes "run-2";
  job_id = codes "job-2";
  light_curve_revision = pos 5;
  effective_epoch_count = 40;
  coarse_source_type = 2;
  coarse_source_run_id = some (codes "run-1");
  xgboost_executed = false;
}

abbrev second_arguments : InsertArguments
second_arguments = record first_arguments {
  run_id = codes "run-2";
  job_id = codes "job-2";
  light_curve_revision = pos 5;
  effective_epoch_count = pos 40;
  coarse_source_type = 2;
  coarse_source_run_id = some (codes "run-1");
  xgboost_executed = false;
}

second_arguments_built : insert_arguments second_run ≡ ok second_arguments
unfolding insert_arguments postgres_integer
second_arguments_built = refl

abbrev first_row : Row
first_row = record {
  run_id = codes "run-1";
  job_id = codes "job-1";
  object_id = codes "ZTF18";
  candidate_revision = pos 1;
  light_curve_revision = pos 4;
  effective_epoch_count = pos 12;
  execution_mode = 1;
  coarse_source_type = 1;
  coarse_source_run_id = none;
  coarse_source_light_curve_revision = pos 4;
  coarse_source_epoch_count = pos 12;
  xgboost_executed = true;
  model_bundle_version = codes "bundle-1";
  coarse_probabilities = zeros7;
  fine_conditional_probabilities = 0 ∷ 0 ∷ 0 ∷ zeros7;
  leaf_probabilities = 0 ∷ 0 ∷ 0 ∷ 0 ∷ 0 ∷ zeros7;
  predicted_coarse_class = pos 30;
  predicted_leaf_class = pos 30;
  completed_at = pos 90;
  persisted_at = pos 100;
}

abbrev second_row : Row
second_row = record first_row {
  run_id = codes "run-2";
  job_id = codes "job-2";
  light_curve_revision = pos 5;
  effective_epoch_count = pos 40;
  coarse_source_type = 2;
  coarse_source_run_id = some (codes "run-1");
  xgboost_executed = false;
  persisted_at = pos 200;
}

abbrev first_database : Database
first_database = record { runs = first_row ∷ []; current = [] }

second_run-IsColumnar : IsColumnar plain_server second_run
second_run-IsColumnar = record {
  run_id = refl;
  job_id = refl;
  source = λ s e. (refl, not_empty s e);
  completed = refl;
}
  where
    not_empty : (s : Text) → ◌≡◌ {A = Option Text} (some (codes "run-1")) (some s) → s ≢ []
    not_empty s e = λ z. absurd (cc (e, z))

second_run-HasArrays : HasArrays second_run
second_run-HasArrays = record { coarse = refl; fine = refl; leaf = refl }

second_run_inserted :
    insert_classification_run plain_server (pos 200) second_arguments first_database
    ≡ one_row (record { runs = second_row ∷ (first_row ∷ []); current = [] })
unfolding insert_classification_run insert_row cast_row cast_ids cast_source run_check
    coarse_class_valid leaf_class_valid
second_run_inserted = refl

insert_run-to_domain_example :
    (row : Row) × (◌≡◌ {A = List Row} (second_row ∷ (first_row ∷ [])) (row ∷ (first_row ∷ [])))
    × (to_domain (scanned row) ≡ ok (record second_run { persisted_at = pos 200 }))
insert_run-to_domain_example =
    insert_run-to_domain plain_server second_run second_run-IsColumnar second_run-HasArrays
      second_arguments second_arguments_built (pos 200) first_database
      (record { runs = second_row ∷ (first_row ∷ []); current = [] }) second_run_inserted
