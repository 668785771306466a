-- ===== src/Storage/Repository.antt =====
-- internal/adapter/postgres/classification_repository.go: SaveRunAndMaybeAdvanceCurrent, GetCurrent and
-- FindLatestCompatibleCoarse. A transaction sees the database that it began with; the connection may
-- fail at every call, and a failed COMMIT may have taken effect.
pub mod Steps
pub mod Refinement
pub mod Idempotence
pub mod Current
pub mod Compatible
pub mod RoundTrip
use variable_star_classifica.Prelude.{
  ℕ, ◌≡◌, Bool, true, false, not, ◌&&◌, ◌||◌, List, [], ◌∷◌, Option, none, some, Text, eqb_text,
  text_eq, ltb_text, ◌==◌, if◌then◌else◌, ℤ, ltb_ℤ, eqb_ℤ, length, lookup,
}
use variable_star_classifica.Errors.{
  message, wrap, sentinel, classification_run_conflict, current_classification_not_found,
  compatible_coarse_not_found, GoError, Result, ok, err, ◌>>=◌, ◌>>◌, context, refuse_if,
}
use variable_star_classifica.Application.Messaging.{Time}
use variable_star_classifica.Domain.Identity.{execution_mode_production}
use variable_star_classifica.Domain.Classification.{
  ClassificationRun, Float32, coarse_probability_count,
}
use variable_star_classifica.Storage.{
  InsertArguments, Row, insert_arguments, scanned, to_domain, uint32_from_postgres_integer,
}
use variable_star_classifica.Storage.Tables.{
  Server, Pointer, Database, Outcome, refused, no_rows, one_row, any_row, insert_classification_run,
  advance_current_classification, inspect_existing,
}

-- application.SaveRunResult
pub record SaveRunResult : Type 0 where
  pub run_inserted : Bool
  pub current_advanced : Bool

-- What the connection does in one transaction; a nil error is `none`.
pub record Connection : Type 0 where
  pub begin_error : Option GoError
  pub insert_error : Option GoError
  pub inspect_error : Option GoError
  pub advance_error : Option GoError
  pub commit_error : Option GoError
  pub commit_applied : Bool  -- whether a COMMIT that failed took effect
  pub clock : Time

abbrev refusal : GoError
refusal = message "the server refused the statement"

abbrev pub Saved : Type 0
Saved = Result SaveRunResult × Database

-- tx.Commit, from the database before the transaction and the one after.
unfoldable pub commit : Connection → SaveRunResult → Database → Database → Option GoError → Saved
commit conn result before after none = (ok result, after)
commit conn result before after (some e) = (
  err (wrap "commit classification transaction" e),
  if conn.commit_applied then after else before,
)

-- advanceCurrentClassification, and the commit.
unfoldable pub after_advance : Connection → Database → Database → Option GoError → Outcome → Saved
unfolding commit
after_advance conn before inserted (some e) outcome =
    (err (wrap "advance current classification" e), before)
after_advance conn before inserted none refused =
    (err (wrap "advance current classification" refusal), before)
after_advance conn before inserted none no_rows =
    commit conn (record { run_inserted = true; current_advanced = false }) before inserted
      conn.commit_error
after_advance conn before inserted none (one_row advanced) =
    commit conn (record { run_inserted = true; current_advanced = true }) before advanced
      conn.commit_error

-- existingRunIsIdempotent; a rollback follows.
unfoldable pub existing_run_is_idempotent : Option GoError → Bool × Bool × Bool → Result Bool
existing_run_is_idempotent (some e) (same, job_conflict, run_conflict) =
    err (wrap "inspect existing classification run" e)
existing_run_is_idempotent none (same, job_conflict, run_conflict) =
    if same
    then ok true
    else if job_conflict || run_conflict
    then ok false
    else err (message "classification run insert skipped without a matching unique conflict")

unfoldable pub after_inspect : Result Bool → Result SaveRunResult
after_inspect (err e) = err e
after_inspect (ok true) = ok (record { run_inserted = false; current_advanced = false })
after_inspect (ok false) = err (sentinel classification_run_conflict)

module _ (server : Server) (conn : Connection) (run : ClassificationRun) (db : Database) where
  unfoldable pub inspect : Option Text → Option Text → Result SaveRunResult
  unfolding existing_run_is_idempotent after_inspect
  inspect (some r) (some j) =
      after_inspect (existing_run_is_idempotent conn.inspect_error (inspect_existing r j db.runs))
  inspect _ _ = err (wrap "inspect existing classification run" refusal)

  unfoldable pub after_insert : Option GoError → Outcome → Saved
  unfolding inspect after_advance
  after_insert (some e) outcome = (err (wrap "insert classification run" e), db)
  after_insert none refused = (err (wrap "insert classification run" refusal), db)
  after_insert none no_rows = (inspect (server.uuid run.run_id) (server.uuid run.job_id), db)
  after_insert none (one_row inserted) =
      if run.execution_mode == execution_mode_production
      then after_advance conn db inserted conn.advance_error (
          advance_current_classification server conn.clock run.object_id run.run_id
            run.light_curve_revision inserted)
      else commit conn (record { run_inserted = true; current_advanced = false }) db inserted
          conn.commit_error

  unfoldable pub transaction : Option GoError → InsertArguments → Saved
  unfolding after_insert
  transaction (some e) arguments = (err (wrap "save classification transaction" e), db)
  transaction none arguments =
      after_insert conn.insert_error (insert_classification_run server conn.clock arguments db)

  unfoldable pub begin : Result InsertArguments → Saved
  unfolding transaction
  begin (err e) = (err (wrap "save classification run" e), db)
  begin (ok arguments) = transaction conn.begin_error arguments

-- SaveRunAndMaybeAdvanceCurrent
unfoldable pub save_run_and_maybe_advance_current :
    Server → Connection → ClassificationRun → Database → Saved
unfolding begin
save_run_and_maybe_advance_current server conn run db =
    begin server conn run db (insert_arguments run)

-- domain.CurrentClassification
pub record CurrentClassification : Type 0 where
  pub run : ClassificationRun
  pub updated_at : Time

abbrev pub find_row : (Row → Bool) → List Row → Option Row
find_row p [] = none
find_row p (r ∷ rs) = if p r then some r else find_row p rs

-- The join of getCurrentClassificationSQL: run_id is a key, so one row at most.
unfoldable pub join_current : Text → List Row → Option Pointer → Option (Row × Pointer)
join_current object runs none = none
join_current object runs (some p) =
    elim (find_row
      (λ r.
        eqb_text r.run_id p.run_id
        && eqb_text r.object_id object
        && eqb_ℤ r.light_curve_revision p.light_curve_revision)
      runs) [ none ↦ none | some r ↦ some (r, p) ]

unfoldable pub decode_current : Option (Row × Pointer) → Result CurrentClassification
decode_current none = err (sentinel current_classification_not_found)
decode_current (some (row, p)) = do
  run ← context "decode current classification" (to_domain (scanned row))
  ok (record { run = run; updated_at = p.updated_at })

-- GetCurrent, on a connection that answers
unfoldable pub get_current : Text → Database → Result CurrentClassification
unfolding join_current decode_current
get_current object db = decode_current (join_current object db.runs (lookup object db.current))

-- application.CompatibleCoarseQuery and CompatibleCoarseResult
pub record CompatibleCoarseQuery : Type 0 where
  pub object_id : Text
  pub model_bundle_version : Text
  pub target_light_curve_revision : ℤ

pub record CompatibleCoarseResult : Type 0 where
  pub source_run_id : Text
  pub source_light_curve_revision : ℤ
  pub source_epoch_count : ℕ
  pub probabilities : List Float32

-- The WHERE of findLatestCompatibleCoarseSQL.
abbrev pub is_compatible : CompatibleCoarseQuery → Row → Bool
is_compatible q r =
    eqb_text r.object_id q.object_id
    && eqb_text r.model_bundle_version q.model_bundle_version
    && r.xgboost_executed
    && ltb_ℤ r.light_curve_revision q.target_light_curve_revision

-- Its ORDER BY: whether the first row comes before the second.
abbrev pub comes_before : Row → Row → Bool
comes_before a b =
    ltb_ℤ b.light_curve_revision a.light_curve_revision
    || (eqb_ℤ b.light_curve_revision a.light_curve_revision
        && (ltb_ℤ b.persisted_at a.persisted_at
            || (eqb_ℤ b.persisted_at a.persisted_at && ltb_text b.run_id a.run_id)))

abbrev pub better : Row → Option Row → Row
better r none = r
better r (some s) = if comes_before s r then s else r

-- ... and its LIMIT 1.
unfoldable pub latest_compatible : CompatibleCoarseQuery → List Row → Option Row
latest_compatible q [] = none
latest_compatible q (r ∷ rs) =
    let rest = latest_compatible q rs in if is_compatible q r then some (better r rest) else rest

unfoldable pub decode_compatible : Option Row → Result CompatibleCoarseResult
decode_compatible none = err (sentinel compatible_coarse_not_found)
decode_compatible (some r) = do
  epochs ← uint32_from_postgres_integer "compatible coarse epoch count" r.effective_epoch_count
  refuse_if (not (length r.coarse_probabilities == coarse_probability_count))
      (message "compatible coarse probability count")
  ok record {
    source_run_id = r.run_id;
    source_light_curve_revision = r.light_curve_revision;
    source_epoch_count = epochs;
    probabilities = r.coarse_probabilities;
  }

-- FindLatestCompatibleCoarse, on a connection that answers
unfoldable pub find_latest_compatible_coarse :
    CompatibleCoarseQuery → Database → Result CompatibleCoarseResult
unfolding latest_compatible decode_compatible
find_latest_compatible_coarse q db = decode_compatible (latest_compatible q db.runs)
