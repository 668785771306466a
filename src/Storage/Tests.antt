-- ===== src/Storage/Tests.antt =====
-- internal/adapter/postgres/classification_repository.go: the theorems on an empty database, in which a
-- production run is saved.
mod Inserting
use variable_star_classifica.Prelude.{
  ℕ, ◌≡◌, ◌≢◌, ◌⊎◌, refl, true, false, List, [], ◌∷◌, Option, none, some, Text, codes, pos, ◌≤ℤ◌,
  lookup, text_eq,
}
use variable_star_classifica.Errors.{GoError, ok, err}
use variable_star_classifica.Domain.Classification.{ClassificationRun, HasArrays}
use variable_star_classifica.Storage.{
  InsertArguments, Row, insert_arguments, scanned, to_domain, postgres_integer,
}
use variable_star_classifica.Storage.Tables.{
  Server, Pointer, Database, one_row, insert_classification_run, insert_row, cast_row, cast_ids,
  cast_source, run_check, advance_current_classification, advance_pointer,
}
use variable_star_classifica.Storage.Repository.{
  SaveRunResult, Connection, save_run_and_maybe_advance_current, begin, transaction, after_insert,
  after_advance, commit, CompatibleCoarseQuery, latest_compatible,
}
use variable_star_classifica.Storage.Repository.RoundTrip.{IsColumnar, insert_run-to_domain}
use variable_star_classifica.Storage.Repository.Steps.{Refines}
use variable_star_classifica.Storage.Repository.Refinement.{save_run-Refines}
use variable_star_classifica.Storage.Repository.Idempotence.{
  nothing_done, save_run-idempotent, save_run-monotone,
}
use variable_star_classifica.Storage.Repository.Current.{IsConsistent, save_run-IsConsistent}
use variable_star_classifica.Storage.Repository.Compatible.{IsLatest, latest_compatible-IsLatest}
use variable_star_classifica.Domain.Classification.{coarse_class_valid, leaf_class_valid}

-- Every text is a uuid, and times are kept.
abbrev pub plain_server : Server
plain_server = record { uuid = λ t. some t; timestamptz = λ t. t }

abbrev good_connection : Connection
good_connection = record {
  begin_error = none;
  insert_error = none;
  inspect_error = none;
  advance_error = none;
  commit_error = none;
  commit_applied = true;
  clock = pos 100;
}

abbrev pub zeros7 : List ℕ
zeros7 = 0 ∷ 0 ∷ 0 ∷ 0 ∷ 0 ∷ 0 ∷ 0 ∷ []

abbrev pub first_run : ClassificationRun
first_run = record {
  run_id = codes "run-1";
  job_id = codes "job-1";
  object_id = codes "ZTF18";
  candidate_revision = pos 1;
  light_curve_revision = pos 4;
  effective_epoch_count = 12;
  execution_mode = 1;
  coarse_source_type = 1;
  coarse_source_run_id = none;
  coarse_source_light_curve_revision = pos 4;
  coarse_source_epoch_count = 12;
  xgboost_executed = true;
  model_bundle_version = codes "bundle-1";
  coarse_probabilities = zeros7;
  fine_conditional_probabilities = 0 ∷ 0 ∷ 0 ∷ zeros7;
  leaf_probabilities = 0 ∷ 0 ∷ 0 ∷ 0 ∷ 0 ∷ zeros7;
  predicted_coarse_class = pos 30;
  predicted_leaf_class = pos 30;
  completed_at = pos 90;
  persisted_at = pos 0;
}

abbrev empty_database : Database
empty_database = record { runs = []; current = [] }

abbrev both_done : SaveRunResult
both_done = record { run_inserted = true; current_advanced = true }

abbrev saved_database : Database
saved_database =
    (save_run_and_maybe_advance_current plain_server good_connection first_run empty_database).1

first_run_saved :
    save_run_and_maybe_advance_current plain_server good_connection first_run empty_database
    ≡ (ok both_done, saved_database)
unfolding save_run_and_maybe_advance_current begin transaction after_insert after_advance commit
    insert_arguments postgres_integer insert_classification_run insert_row cast_row cast_ids
    cast_source run_check coarse_class_valid leaf_class_valid advance_current_classification
    advance_pointer
first_run_saved = refl

save_run-Refines_example :
    Refines plain_server first_run empty_database
      (save_run_and_maybe_advance_current plain_server good_connection first_run empty_database)
save_run-Refines_example = save_run-Refines plain_server good_connection first_run empty_database

empty_database-IsConsistent : IsConsistent empty_database
empty_database-IsConsistent = record {
  keys = tt;
  newest = λ r i. absurd i;
  pointed = λ object p found. absurd (cc found);
}

save_run-IsConsistent_example :
    IsConsistent
      (save_run_and_maybe_advance_current plain_server good_connection first_run empty_database).1
save_run-IsConsistent_example =
    save_run-IsConsistent plain_server good_connection first_run empty_database
      empty_database-IsConsistent

save_run-idempotent_example :
    ((save_run_and_maybe_advance_current plain_server good_connection first_run saved_database).1
      ≡ saved_database)
    × (((save_run_and_maybe_advance_current plain_server good_connection first_run saved_database).0
          ≡ ok nothing_done)
        ⊎ ((e : GoError) × ((save_run_and_maybe_advance_current plain_server good_connection
                first_run saved_database).0
              ≡ err e)))
save_run-idempotent_example =
    save_run-idempotent plain_server good_connection good_connection first_run empty_database
      saved_database both_done first_run_saved

abbrev first_pointer : Pointer
first_pointer = record {
  run_id = codes "run-1";
  light_curve_revision = pos 4;
  updated_at = pos 100;
}

first_run_is_current : lookup (codes "ZTF18") saved_database.current ≡ some first_pointer
unfolding save_run_and_maybe_advance_current begin transaction after_insert after_advance commit
    insert_arguments postgres_integer insert_classification_run insert_row cast_row cast_ids
    cast_source run_check coarse_class_valid leaf_class_valid advance_current_classification
    advance_pointer
first_run_is_current = refl

save_run-monotone_example :
    (q : Pointer) × (lookup
        (codes "ZTF18")
        (save_run_and_maybe_advance_current plain_server good_connection first_run
          saved_database).1.current
      ≡ some q)
    × (first_pointer.light_curve_revision ≤ℤ q.light_curve_revision)
save_run-monotone_example =
    save_run-monotone plain_server good_connection first_run saved_database (codes "ZTF18")
      first_pointer first_run_is_current

abbrev later_query : CompatibleCoarseQuery
later_query = record {
  object_id = codes "ZTF18";
  model_bundle_version = codes "bundle-1";
  target_light_curve_revision = pos 9;
}

latest_compatible-IsLatest_example :
    IsLatest later_query saved_database.runs (latest_compatible later_query saved_database.runs)
latest_compatible-IsLatest_example = latest_compatible-IsLatest later_query saved_database.runs
