-- ===== src/Storage/Repository/RoundTrip.antt =====
-- internal/adapter/postgres/classification_repository.go: the run that is read from the row that a run
-- was inserted as.
use variable_star_classifica.Prelude.{
  ◌≡◌, ◌≢◌, refl, ap, subst, [], ◌∷◌, Option, none, some, Text, eqb_text_iff, arith,
}
use variable_star_classifica.Errors.{ok}
use variable_star_classifica.Application.Messaging.{Time}
use variable_star_classifica.Domain.Classification.{ClassificationRun, HasArrays}
use variable_star_classifica.Storage.{
  InsertArguments, Row, insert_arguments, postgres_integer, uint32_from_postgres_integer, coalesced,
  from_nullable, scanned, to_domain,
}
use variable_star_classifica.Storage.Tables.{
  Server, Database, one_row, cast_source, cast_ids, cast_row, insert_classification_run,
}
use variable_star_classifica.Storage.Repository.Steps.{insert_row-one_row}

-- A run whose values the columns take as they are: its ids are UUIDs in the server's form, a source is
-- not the empty text, and its completion time needs no rounding.
pub record IsColumnar (server : Server) (run : ClassificationRun) : Type 0 where
  pub run_id : server.uuid run.run_id ≡ some run.run_id
  pub job_id : server.uuid run.job_id ≡ some run.job_id
  pub source : (s : Text) → run.coarse_source_run_id ≡ some s → (server.uuid s ≡ some s) × (s ≢ [])
  pub completed : server.timestamptz run.completed_at ≡ run.completed_at

cast_source-same :
    (server : Server) (source : Option Text)
    → ((s : Text) → source ≡ some s → (server.uuid s ≡ some s) × (s ≢ []))
    → cast_source server source ≡ some source
unfolding cast_source
cast_source-same server none h = refl
cast_source-same server (some s) h = rw (cast_source, (h s refl).0) refl

from_nullable-coalesced :
    (source : Option Text)
    → ((s : Text) → source ≡ some s → s ≢ [])
    → from_nullable (coalesced source) ≡ source
from_nullable-coalesced none h = refl
from_nullable-coalesced (some s) h = ground (arith, h s refl, eqb_text_iff s [])

-- The row that takes some arguments as they are.
abbrev placed : Time → InsertArguments → Row
placed clock a = record {
  run_id = a.run_id;
  job_id = a.job_id;
  object_id = a.object_id;
  candidate_revision = a.candidate_revision;
  light_curve_revision = a.light_curve_revision;
  effective_epoch_count = a.effective_epoch_count;
  execution_mode = a.execution_mode;
  coarse_source_type = a.coarse_source_type;
  coarse_source_run_id = a.coarse_source_run_id;
  coarse_source_light_curve_revision = a.coarse_source_light_curve_revision;
  coarse_source_epoch_count = a.coarse_source_epoch_count;
  xgboost_executed = a.xgboost_executed;
  model_bundle_version = a.model_bundle_version;
  coarse_probabilities = a.coarse_probabilities;
  fine_conditional_probabilities = a.fine_conditional_probabilities;
  leaf_probabilities = a.leaf_probabilities;
  predicted_coarse_class = a.predicted_coarse_class;
  predicted_leaf_class = a.predicted_leaf_class;
  completed_at = a.completed_at;
  persisted_at = clock;
}

module _ (server : Server) (run : ClassificationRun) (columnar : IsColumnar server run)
    (arrays : HasArrays run) (arguments : InsertArguments)
    (built : insert_arguments run ≡ ok arguments) where
  argument_ids :
      (arguments.run_id ≡ run.run_id)
      × (arguments.job_id ≡ run.job_id)
      × (arguments.coarse_source_run_id ≡ run.coarse_source_run_id)
      × (arguments.completed_at ≡ run.completed_at)
  unfolding insert_arguments postgres_integer
  argument_ids = (ground arith, ground arith, ground arith, ground arith)

  placed-cast : (clock : Time) → cast_row server clock arguments ≡ some (placed clock arguments)
  unfolding cast_row cast_ids
  placed-cast clock =
      let (a, b, c, d) = argument_ids in
      rw
        (
          a,
          b,
          c,
          d,
          columnar.run_id,
          columnar.job_id,
          columnar.completed,
          cast_source-same server run.coarse_source_run_id columnar.source,
        )
        refl

  placed-to_domain :
      (clock : Time)
      → to_domain (scanned (placed clock arguments)) ≡ ok (record run { persisted_at = clock })
  unfolding insert_arguments postgres_integer uint32_from_postgres_integer scanned to_domain
  placed-to_domain clock = ground (
    arith,
    from_nullable-coalesced run.coarse_source_run_id (λ s e. (columnar.source s e).1),
    arrays.coarse,
    arrays.fine,
    arrays.leaf,
  )

  cast-to_domain :
      (clock : Time) (row : Row)
      → cast_row server clock arguments ≡ some row
      → to_domain (scanned row) ≡ ok (record run { persisted_at = clock })
  cast-to_domain clock row h =
      let same : placed clock arguments ≡ row = cc (h, placed-cast clock) in
      subst (λ r. to_domain (scanned r) ≡ ok (record run { persisted_at = clock })) same
        (placed-to_domain clock)

  -- A run with arrays of the model's sizes whose ids are UUIDs in the server's form, whose source,
  -- if any, is not the empty text, whose completion time needs no rounding, and whose insertion
  -- adds a row, comes back from that row as it was, with the server's clock as its time of storage:
  -- the row is the latest of the table, and SELECT and toDomain read the run from it.
  pub insert_run-to_domain :
      (clock : Time) (db db' : Database)
      → insert_classification_run server clock arguments db ≡ one_row db'
      → (row : Row) × (db'.runs ≡ row ∷ db.runs)
        × (to_domain (scanned row) ≡ ok (record run { persisted_at = clock }))
  unfolding insert_classification_run
  insert_run-to_domain clock db db' h =
      let (row, cast, _, _, same) = insert_row-one_row (cast_row server clock arguments) db db' h in
      (row, ap (λ d. d.runs) same, cast-to_domain clock row cast)
