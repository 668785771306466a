-- ===== src/Storage/Repository/Steps.antt =====
-- internal/adapter/postgres/classification_repository.go: what SaveRunAndMaybeAdvanceCurrent may do to
-- the tables, as a step relation that it refines.
use variable_star_classifica.Prelude.{
  ◌≡◌, ◌≢◌, refl, ◌⊎◌, Bool, true, false, not, ◌&&◌, ◌||◌, ◌∷◌, Option, none, some, Text, eqb_text,
  text_eq, ℤ, ltb_ℤ, pos, lookup, insert, arith, if-holds,
}
use variable_star_classifica.Errors.{GoError, ok, err}
use variable_star_classifica.Domain.Identity.{execution_mode_production}
use variable_star_classifica.Domain.Classification.{ClassificationRun}
use variable_star_classifica.Application.Messaging.{Time}
use variable_star_classifica.Storage.{InsertArguments, Row, insert_arguments, postgres_integer}
use variable_star_classifica.Storage.Tables.{
  Server, Pointer, Database, Outcome, refused, no_rows, one_row, any_row, run_check, cast_ids,
  insert_row, advance_from, advance_pointer, text_check,
}
use variable_star_classifica.Storage.Repository.{SaveRunResult, Saved}

-- A row with the run's id or its job's.
abbrev pub same_ids : Row → Row → Bool
same_ids r q = eqb_text q.run_id r.run_id || eqb_text q.job_id r.job_id

-- The row that is stored for a run.
pub record IsRowOf (server : Server) (run : ClassificationRun) (r : Row) : Type 0 where
  pub run_id : server.uuid run.run_id ≡ some r.run_id
  pub job_id : server.uuid run.job_id ≡ some r.job_id
  pub object_id : r.object_id ≡ run.object_id
  pub light_curve_revision : r.light_curve_revision ≡ run.light_curve_revision
  pub execution_mode : r.execution_mode ≡ run.execution_mode
  pub checked : run_check r ≡ true

pub data Step (server : Server) (run : ClassificationRun) (db : Database)
    : SaveRunResult → Database → Type 0 where
  -- The same run was there.
  existing :
      {r j : Text}
      → server.uuid run.run_id ≡ some r
      → server.uuid run.job_id ≡ some j
      → any_row (λ q. eqb_text q.run_id r && eqb_text q.job_id j) db.runs ≡ true
      → Step server run db (record { run_inserted = false; current_advanced = false }) db
  -- A run that is no production run, or is not newer than the current one, joins the history.
  history :
      (r : Row)
      → IsRowOf server run r
      → any_row (same_ids r) db.runs ≡ false
      → (run.execution_mode ≢ execution_mode_production)
        ⊎ ((p : Pointer) × (lookup run.object_id db.current ≡ some p)
            × (ltb_ℤ p.light_curve_revision run.light_curve_revision ≡ false))
      → Step server run db
          (record { run_inserted = true; current_advanced = false })
          (record db { runs = r ∷ db.runs })
  -- A newer production run becomes the current one as well.
  advanced :
      (r : Row) (at : Time)
      → IsRowOf server run r
      → any_row (same_ids r) db.runs ≡ false
      → run.execution_mode ≡ execution_mode_production
      → ((p : Pointer)
          → lookup run.object_id db.current ≡ some p
          → ltb_ℤ p.light_curve_revision run.light_curve_revision ≡ true)
      → Step server run db
          (record { run_inserted = true; current_advanced = true })
          (record {
            runs = r ∷ db.runs;
            current =
                insert run.object_id
                  (record {
                    run_id = r.run_id;
                    light_curve_revision = run.light_curve_revision;
                    updated_at = at;
                  })
                  db.current;
          })

-- A result is what a step gives; an error leaves the tables alone, or hides a step that was committed.
pub data Refines (server : Server) (run : ClassificationRun) (db : Database) : Saved → Type 0 where
  done :
      {result : SaveRunResult} {db' : Database}
      → Step server run db result db'
      → Refines server run db (ok result, db')
  failed : (e : GoError) → Refines server run db (err e, db)
  unknown :
      (e : GoError) {result : SaveRunResult} {db' : Database}
      → Step server run db result db'
      → Refines server run db (err e, db')

pub insert_row-one_row :
    (c : Option Row) (db db' : Database)
    → insert_row c db ≡ one_row db'
    → (r : Row) × (c ≡ some r)
      × (run_check r ≡ true)
      × (any_row (same_ids r) db.runs ≡ false)
      × (db' ≡ record db { runs = r ∷ db.runs })
unfolding insert_row
insert_row-one_row none db db' h = cc
insert_row-one_row (some r) db db' h = (r, refl, ground arith, ground arith, ground arith)

pub cast_ids-some :
    (completed clock : Time) (arguments : InsertArguments) (a b : Option Text)
    (c : Option (Option Text)) (q : Row)
    → cast_ids completed clock arguments a b c ≡ some q
    → (a ≡ some q.run_id)
      × (b ≡ some q.job_id)
      × (q.object_id ≡ arguments.object_id)
      × (q.light_curve_revision ≡ arguments.light_curve_revision)
      × (q.execution_mode ≡ arguments.execution_mode)
unfolding cast_ids
cast_ids-some completed clock r (some a) (some b) (some c) q h =
    (ground arith, ground arith, ground arith, ground arith, ground arith)
cast_ids-some completed clock r none b c q h = cc
cast_ids-some completed clock r (some a) none c q h = cc
cast_ids-some completed clock r (some a) (some b) none q h = cc

pub insert_arguments-ok :
    (run : ClassificationRun) (row : InsertArguments)
    → insert_arguments run ≡ ok row
    → (row.run_id ≡ run.run_id)
      × (row.job_id ≡ run.job_id)
      × (row.object_id ≡ run.object_id)
      × (row.light_curve_revision ≡ run.light_curve_revision)
      × (row.execution_mode ≡ run.execution_mode)
unfolding insert_arguments postgres_integer
insert_arguments-ok run row h =
    (ground arith, ground arith, ground arith, ground arith, ground arith)

advance_from-one_row :
    (object : Text) (p : Pointer) (db db' : Database) (now : Option Pointer)
    → advance_from object p db now ≡ one_row db'
    → (db' ≡ record db { current = insert object p db.current })
      × ((q : Pointer) → now ≡ some q → ltb_ℤ q.light_curve_revision p.light_curve_revision ≡ true)
advance_from-one_row object p db db' none h = (ground arith, λ q e. absurd (cc e))
advance_from-one_row object p db db' (some q) h = (ground arith, λ r e. ground arith)

advance_from-no_rows :
    (object : Text) (p : Pointer) (db : Database) (now : Option Pointer)
    → advance_from object p db now ≡ no_rows
    → (q : Pointer) × (now ≡ some q) × (ltb_ℤ q.light_curve_revision p.light_curve_revision ≡ false)
advance_from-no_rows object p db none h = absurd (ground arith)
advance_from-no_rows object p db (some q) h = (q, refl, ground arith)

-- What the statement wrote, or kept.
abbrev pub AdvancesPointer : Text → ℤ → Time → Database → Option Text → Outcome → Type 0
AdvancesPointer object revision clock db run refused = Unit
AdvancesPointer object revision clock db run no_rows =
    (p : Pointer) × (lookup object db.current ≡ some p)
    × (ltb_ℤ p.light_curve_revision revision ≡ false)
AdvancesPointer object revision clock db run (one_row db') =
    (u : Text) × (run ≡ some u)
    × (db' ≡ record db {
      current =
          insert object (record { run_id = u; light_curve_revision = revision; updated_at = clock })
            db.current;
    })
    × ((p : Pointer)
        → lookup object db.current ≡ some p
        → ltb_ℤ p.light_curve_revision revision ≡ true)

advance_from-AdvancesPointer :
    (object : Text) (clock : Time) (u : Text) (revision : ℤ) (db : Database) (out : Outcome)
    → advance_from object
        (record { run_id = u; light_curve_revision = revision; updated_at = clock })
        db
        (lookup object db.current)
      ≡ out
    → AdvancesPointer object revision clock db (some u) out
advance_from-AdvancesPointer object clock u revision db refused h = tt
advance_from-AdvancesPointer object clock u revision db no_rows h =
    advance_from-no_rows object _ db (lookup object db.current) h
advance_from-AdvancesPointer object clock u revision db (one_row db') h =
    let (same, newer) = advance_from-one_row object _ db db' (lookup object db.current) h in
    (u, refl, same, newer)

pub advance_pointer-AdvancesPointer :
    (object : Text) (revision : ℤ) (clock : Time) (db : Database) (run : Option Text)
    → AdvancesPointer object revision clock db run (advance_pointer object revision clock db run)
unfolding advance_pointer
advance_pointer-AdvancesPointer object revision clock db none = tt
advance_pointer-AdvancesPointer object revision clock db (some u) =
    if-holds (AdvancesPointer object revision clock db (some u))
      (not (text_check object && ltb_ℤ (pos 0) revision)) tt
      (advance_from-AdvancesPointer object clock u revision db _ refl)
