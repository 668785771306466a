-- ===== src/Storage/Tables.antt =====
-- migrations/00002 and the SQL of internal/adapter/postgres/classification_repository.go: the two
-- tables with their constraints, and the statements as functions on them. What the server does to a
-- value of type uuid or timestamptz is a parameter.
use variable_star_classifica.Prelude.{
  Bool, true, false, not, ◌&&◌, ◌||◌, List, [], ◌∷◌, Option, none, some, Text, eqb_text, text_eq,
  ◌==◌, leb, if◌then◌else◌, ℤ, pos, ltb_ℤ, leb_ℤ, eqb_ℤ, length, lookup, insert,
}
use variable_star_classifica.Application.Messaging.{Time}
use variable_star_classifica.Domain.Classification.{coarse_class_valid, leaf_class_valid}
use variable_star_classifica.Storage.{InsertArguments, Row}

-- The server's reading of a uuid, in its canonical form, and its rounding of a time.
pub record Server : Type 0 where
  pub uuid : Text → Option Text
  pub timestamptz : Time → Time

-- A row of current_classifications, without its key.
pub record Pointer : Type 0 where
  pub run_id : Text
  pub light_curve_revision : ℤ
  pub updated_at : Time

-- The rows of classification_runs stand with the latest first.
pub record Database : Type 0 where
  pub runs : List Row
  pub current : List (Text × Pointer)

abbrev last_is_space : Text → Bool
last_is_space [] = false
last_is_space (c ∷ []) = c == 32
last_is_space (c ∷ (d ∷ s)) = last_is_space (d ∷ s)

abbrev first_is_space : Text → Bool
first_is_space [] = false
first_is_space (c ∷ s) = c == 32

-- t <> '' AND t = btrim(t)
abbrev pub text_check : Text → Bool
text_check t = not (eqb_text t []) && not (first_is_space t) && not (last_is_space t)

-- coarse_source_run_id IS NULL
abbrev pub is_null : Option Text → Bool
is_null none = true
is_null (some t) = false

-- Whether a source is this run; NULL is none.
abbrev pub is_run : Option Text → Text → Bool
is_run none run = false
is_run (some t) run = eqb_text t run

abbrev source_check : Row → Bool
source_check r =
    (r.coarse_source_type == 1
      && r.xgboost_executed
      && is_null r.coarse_source_run_id
      && eqb_ℤ r.coarse_source_light_curve_revision r.light_curve_revision
      && eqb_ℤ r.coarse_source_epoch_count r.effective_epoch_count)
    || (r.coarse_source_type == 2
        && not r.xgboost_executed
        && not (is_null r.coarse_source_run_id)
        && ltb_ℤ r.coarse_source_light_curve_revision r.light_curve_revision)
    || (r.coarse_source_type == 3
        && r.xgboost_executed
        && is_null r.coarse_source_run_id
        && eqb_ℤ r.coarse_source_light_curve_revision r.light_curve_revision
        && eqb_ℤ r.coarse_source_epoch_count r.effective_epoch_count)

-- The CHECK constraints of classification_runs.
unfoldable pub run_check : Row → Bool
run_check r =
    text_check r.object_id
    && ltb_ℤ (pos 0) r.candidate_revision
    && ltb_ℤ (pos 0) r.light_curve_revision
    && leb_ℤ (pos 3) r.effective_epoch_count
    && (leb 1 r.execution_mode && leb r.execution_mode 3)
    && (leb 1 r.coarse_source_type && leb r.coarse_source_type 3)
    && ltb_ℤ (pos 0) r.coarse_source_light_curve_revision
    && leb_ℤ (pos 3) r.coarse_source_epoch_count
    && not (is_run r.coarse_source_run_id r.run_id)
    && source_check r
    && text_check r.model_bundle_version
    && length r.coarse_probabilities == 7
    && length r.fine_conditional_probabilities == 10
    && length r.leaf_probabilities == 12
    && coarse_class_valid r.predicted_coarse_class
    && leaf_class_valid r.predicted_leaf_class

abbrev pub any_row : (Row → Bool) → List Row → Bool
any_row p [] = false
any_row p (r ∷ rs) = p r || any_row p rs

-- What a statement that returns at most one row does.
pub data Outcome : Type 0 where
  refused : Outcome  -- an error
  no_rows : Outcome
  one_row : Database → Outcome

-- A source that is no NULL is read as a uuid.
unfoldable pub cast_source : Server → Option Text → Option (Option Text)
cast_source server none = some none
cast_source server (some t) = elim (server.uuid t) [ none ↦ none | some u ↦ some (some u) ]

-- The row of some arguments, once its ids are read; persisted_at is DEFAULT clock_timestamp().
unfoldable pub cast_ids :
    Time → Time → InsertArguments → Option Text → Option Text → Option (Option Text) → Option Row
cast_ids completed clock a (some run) (some job) (some source) = some record {
  run_id = run;
  job_id = job;
  object_id = a.object_id;
  candidate_revision = a.candidate_revision;
  light_curve_revision = a.light_curve_revision;
  effective_epoch_count = a.effective_epoch_count;
  execution_mode = a.execution_mode;
  coarse_source_type = a.coarse_source_type;
  coarse_source_run_id = source;
  coarse_source_light_curve_revision = a.coarse_source_light_curve_revision;
  coarse_source_epoch_count = a.coarse_source_epoch_count;
  xgboost_executed = a.xgboost_executed;
  model_bundle_version = a.model_bundle_version;
  coarse_probabilities = a.coarse_probabilities;
  fine_conditional_probabilities = a.fine_conditional_probabilities;
  leaf_probabilities = a.leaf_probabilities;
  predicted_coarse_class = a.predicted_coarse_class;
  predicted_leaf_class = a.predicted_leaf_class;
  completed_at = completed;
  persisted_at = clock;
}
cast_ids completed clock a _ _ _ = none

-- The values as the columns take them.
unfoldable pub cast_row : Server → Time → InsertArguments → Option Row
unfolding cast_source cast_ids
cast_row server clock a =
    cast_ids (server.timestamptz a.completed_at) clock a (server.uuid a.run_id)
      (server.uuid a.job_id) (cast_source server a.coarse_source_run_id)

-- FOREIGN KEY coarse_source_run_id
abbrev pub source_exists : List Row → Option Text → Bool
source_exists runs none = true
source_exists runs (some source) = any_row (λ q. eqb_text q.run_id source) runs

unfoldable pub insert_row : Option Row → Database → Outcome
insert_row none db = refused
insert_row (some r) db =
    if not (run_check r)
    then refused
    else if any_row (λ q. eqb_text q.run_id r.run_id || eqb_text q.job_id r.job_id) db.runs
    then no_rows
    else if not (source_exists db.runs r.coarse_source_run_id)
    then refused
    else one_row (record db { runs = r ∷ db.runs })

-- insertClassificationRunSQL
unfoldable pub insert_classification_run : Server → Time → InsertArguments → Database → Outcome
unfolding insert_row
insert_classification_run server clock arguments db =
    insert_row (cast_row server clock arguments) db

abbrev pub used_elsewhere : Text → Text → List (Text × Pointer) → Bool
used_elsewhere object run [] = false
used_elsewhere object run ((o, p) ∷ ps) =
    (eqb_text p.run_id run && not (eqb_text o object)) || used_elsewhere object run ps

abbrev pub write_current : Text → Pointer → Database → Outcome
write_current object p db =
    if used_elsewhere object p.run_id db.current
    then refused
    else if not (any_row (λ q. eqb_text q.run_id p.run_id) db.runs)
    then refused
    else one_row (record db { current = insert object p db.current })

abbrev pub advance_from : Text → Pointer → Database → Option Pointer → Outcome
advance_from object p db none = write_current object p db
advance_from object p db (some now) =
    if ltb_ℤ now.light_curve_revision p.light_curve_revision
    then write_current object p db
    else no_rows

unfoldable pub advance_pointer : Text → ℤ → Time → Database → Option Text → Outcome
advance_pointer object revision clock db none = refused
advance_pointer object revision clock db (some run) =
    if not (text_check object && ltb_ℤ (pos 0) revision)
    then refused
    else advance_from object
        (record { run_id = run; light_curve_revision = revision; updated_at = clock }) db
        (lookup object db.current)

-- advanceCurrentClassificationSQL
unfoldable pub advance_current_classification : Server → Time → Text → Text → ℤ → Database → Outcome
unfolding advance_pointer
advance_current_classification server clock object run revision db =
    advance_pointer object revision clock db (server.uuid run)

-- inspectExistingRunIdentitySQL, on canonical ids: the same run, the job with another run, and the run
-- with another job.
unfoldable pub inspect_existing : Text → Text → List Row → Bool × Bool × Bool
inspect_existing run job runs = (
  any_row (λ q. eqb_text q.run_id run && eqb_text q.job_id job) runs,
  any_row (λ q. eqb_text q.job_id job && not (eqb_text q.run_id run)) runs,
  any_row (λ q. eqb_text q.run_id run && not (eqb_text q.job_id job)) runs,
)
