-- ===== src/Storage.antt =====
-- internal/adapter/postgres/classification_repository.go and migrations/00002: a row of
-- classification_runs, the arguments that a run is inserted with, and the run that a row is read as.
pub mod Tables
pub mod Repository
mod Tests
use variable_star_classifica.Prelude.{
  ℕ, suc, ◌-◌, ◌^◌, Bool, true, false, List, Option, none, some, Text, String, eqb_text, ◌==◌, ltb,
  if◌then◌else◌, ℤ, pos, negsuc, length, [],
}
use variable_star_classifica.Errors.{
  message, field_message, GoError, Result, ok, err, ◌>>=◌, ◌>>◌, refuse_if,
}
use variable_star_classifica.Domain.Classification.{
  ClassificationRun, HasArrays, Float32, coarse_probability_count,
  conditional_fine_probability_count, leaf_probability_count,
}
use variable_star_classifica.Application.Messaging.{Time}

-- A row of classification_runs; a source run that is `none` is NULL.
pub record Row : Type 0 where
  pub run_id : Text
  pub job_id : Text
  pub object_id : Text
  pub candidate_revision : ℤ
  pub light_curve_revision : ℤ
  pub effective_epoch_count : ℤ  -- INTEGER
  pub execution_mode : ℕ  -- SMALLINT
  pub coarse_source_type : ℕ  -- SMALLINT
  pub coarse_source_run_id : Option Text
  pub coarse_source_light_curve_revision : ℤ
  pub coarse_source_epoch_count : ℤ  -- INTEGER
  pub xgboost_executed : Bool
  pub model_bundle_version : Text
  pub coarse_probabilities : List Float32
  pub fine_conditional_probabilities : List Float32
  pub leaf_probabilities : List Float32
  pub predicted_coarse_class : ℤ
  pub predicted_leaf_class : ℤ
  pub completed_at : Time
  pub persisted_at : Time

-- classificationRunRecord: a row as it is scanned.
pub record ClassificationRunRecord : Type 0 where
  pub run_id : Text
  pub job_id : Text
  pub object_id : Text
  pub candidate_revision : ℤ
  pub light_curve_revision : ℤ
  pub effective_epoch_count : ℤ  -- INTEGER
  pub execution_mode : ℕ  -- SMALLINT
  pub coarse_source_type : ℕ  -- SMALLINT
  pub coarse_source_run_id : Text
  pub coarse_source_light_curve_revision : ℤ
  pub coarse_source_epoch_count : ℤ  -- INTEGER
  pub xgboost_executed : Bool
  pub model_bundle_version : Text
  pub coarse_probabilities : List Float32
  pub fine_conditional_probabilities : List Float32
  pub leaf_probabilities : List Float32
  pub predicted_coarse_class : ℤ
  pub predicted_leaf_class : ℤ
  pub completed_at : Time
  pub persisted_at : Time

-- The arguments of insertClassificationRunSQL, in their order.
pub record InsertArguments : Type 0 where
  pub run_id : Text
  pub job_id : Text
  pub object_id : Text
  pub candidate_revision : ℤ
  pub light_curve_revision : ℤ
  pub effective_epoch_count : ℤ  -- INTEGER
  pub execution_mode : ℕ  -- SMALLINT
  pub coarse_source_type : ℕ  -- SMALLINT
  pub coarse_source_run_id : Option Text
  pub coarse_source_light_curve_revision : ℤ
  pub coarse_source_epoch_count : ℤ  -- INTEGER
  pub xgboost_executed : Bool
  pub model_bundle_version : Text
  pub coarse_probabilities : List Float32
  pub fine_conditional_probabilities : List Float32
  pub leaf_probabilities : List Float32
  pub predicted_coarse_class : ℤ
  pub predicted_leaf_class : ℤ
  pub completed_at : Time

-- postgresInteger
unfoldable pub postgres_integer : String → ℕ → Result ℤ
postgres_integer field value =
    if ltb (2 ^ 31 - 1) value
    then err (field_message field "exceeds PostgreSQL INTEGER")
    else ok (pos value)

-- uint32FromPostgresInteger
unfoldable pub uint32_from_postgres_integer : String → ℤ → Result ℕ
uint32_from_postgres_integer field (negsuc n) = err (field_message field "is negative")
uint32_from_postgres_integer field (pos n) = ok n

abbrev pub from_nullable : Text → Option Text
from_nullable t = if eqb_text t [] then none else some t

-- classificationRunInsertArgument
unfoldable pub insert_arguments : ClassificationRun → Result InsertArguments
unfolding postgres_integer
insert_arguments run = do
  effective ← postgres_integer "effective epoch count" run.effective_epoch_count
  source ← postgres_integer "coarse source epoch count" run.coarse_source_epoch_count
  ok record {
    run_id = run.run_id;
    job_id = run.job_id;
    object_id = run.object_id;
    candidate_revision = run.candidate_revision;
    light_curve_revision = run.light_curve_revision;
    effective_epoch_count = effective;
    execution_mode = run.execution_mode;
    coarse_source_type = run.coarse_source_type;
    coarse_source_run_id = run.coarse_source_run_id;
    coarse_source_light_curve_revision = run.coarse_source_light_curve_revision;
    coarse_source_epoch_count = source;
    xgboost_executed = run.xgboost_executed;
    model_bundle_version = run.model_bundle_version;
    coarse_probabilities = run.coarse_probabilities;
    fine_conditional_probabilities = run.fine_conditional_probabilities;
    leaf_probabilities = run.leaf_probabilities;
    predicted_coarse_class = run.predicted_coarse_class;
    predicted_leaf_class = run.predicted_leaf_class;
    completed_at = run.completed_at;
  }

-- COALESCE(r.coarse_source_run_id::text, '')
abbrev pub coalesced : Option Text → Text
coalesced none = []
coalesced (some t) = t

-- classificationRunSelectColumns, scanned into scanDestinations
unfoldable pub scanned : Row → ClassificationRunRecord
scanned r = record {
  run_id = r.run_id;
  job_id = r.job_id;
  object_id = r.object_id;
  candidate_revision = r.candidate_revision;
  light_curve_revision = r.light_curve_revision;
  effective_epoch_count = r.effective_epoch_count;
  execution_mode = r.execution_mode;
  coarse_source_type = r.coarse_source_type;
  coarse_source_run_id = coalesced r.coarse_source_run_id;
  coarse_source_light_curve_revision = r.coarse_source_light_curve_revision;
  coarse_source_epoch_count = r.coarse_source_epoch_count;
  xgboost_executed = r.xgboost_executed;
  model_bundle_version = r.model_bundle_version;
  coarse_probabilities = r.coarse_probabilities;
  fine_conditional_probabilities = r.fine_conditional_probabilities;
  leaf_probabilities = r.leaf_probabilities;
  predicted_coarse_class = r.predicted_coarse_class;
  predicted_leaf_class = r.predicted_leaf_class;
  completed_at = r.completed_at;
  persisted_at = r.persisted_at;
}

abbrev differs : ℕ → ℕ → Bool
differs n m = if n == m then false else true

-- toDomain
unfoldable pub to_domain : ClassificationRunRecord → Result ClassificationRun
unfolding uint32_from_postgres_integer
to_domain row = do
  effective ← uint32_from_postgres_integer "effective epoch count" row.effective_epoch_count
  source ← uint32_from_postgres_integer "coarse source epoch count" row.coarse_source_epoch_count
  refuse_if (differs (length row.coarse_probabilities) coarse_probability_count)
      (message "coarse probability count")
  refuse_if (differs (length row.fine_conditional_probabilities) conditional_fine_probability_count)
      (message "conditional fine probability count")
  refuse_if (differs (length row.leaf_probabilities) leaf_probability_count)
      (message "leaf probability count")
  ok record {
    run_id = row.run_id;
    job_id = row.job_id;
    object_id = row.object_id;
    candidate_revision = row.candidate_revision;
    light_curve_revision = row.light_curve_revision;
    effective_epoch_count = effective;
    execution_mode = row.execution_mode;
    coarse_source_type = row.coarse_source_type;
    coarse_source_run_id = from_nullable row.coarse_source_run_id;
    coarse_source_light_curve_revision = row.coarse_source_light_curve_revision;
    coarse_source_epoch_count = source;
    xgboost_executed = row.xgboost_executed;
    model_bundle_version = row.model_bundle_version;
    coarse_probabilities = row.coarse_probabilities;
    fine_conditional_probabilities = row.fine_conditional_probabilities;
    leaf_probabilities = row.leaf_probabilities;
    predicted_coarse_class = row.predicted_coarse_class;
    predicted_leaf_class = row.predicted_leaf_class;
    completed_at = row.completed_at;
    persisted_at = row.persisted_at;
  }
