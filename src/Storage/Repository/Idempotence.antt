-- ===== src/Storage/Repository/Idempotence.antt =====
-- internal/adapter/postgres/classification_repository.go: saving a run again, and the order in which
-- runs arrive.
use variable_star_classifica.Prelude.{
  ◌≡◌, ◌⊎◌, inl, inr, ap, sym, subst, refl, inl, inr, Bool, true, false, ◌&&◌, List, [], ◌∷◌, some,
  Text, eqb_text, text_eq, eqb_text_iff, ◌≤ℤ◌, lookup, lookup-insert, arith, Bool-cases,
}
use variable_star_classifica.Errors.{GoError, ok, err}
use variable_star_classifica.Domain.Classification.{ClassificationRun}
use variable_star_classifica.Storage.{Row}
use variable_star_classifica.Storage.Tables.{Server, Pointer, Database, any_row}
use variable_star_classifica.Storage.Repository.{
  SaveRunResult, Connection, Saved, save_run_and_maybe_advance_current,
}
use variable_star_classifica.Storage.Repository.Refinement.{save_run-Refines}
use variable_star_classifica.Storage.Repository.Steps.{
  same_ids, IsRowOf, Step, existing, history, advanced, Refines, done, failed, unknown,
}

-- The result for a run that was there.
abbrev pub nothing_done : SaveRunResult
nothing_done = record { run_inserted = false; current_advanced = false }

abbrev has_ids : Text → Text → Row → Bool
has_ids r j q = eqb_text q.run_id r && eqb_text q.job_id j

-- The run is in the table, with its job.
record IsSaved (server : Server) (run : ClassificationRun) (db : Database) : Type 0 where
  run_id : Text
  job_id : Text
  reads_run : server.uuid run.run_id ≡ some run_id
  reads_job : server.uuid run.job_id ≡ some job_id
  there : any_row (has_ids run_id job_id) db.runs ≡ true

any_row-same_ids :
    (r : Row) (rs : List Row)
    → any_row (has_ids r.run_id r.job_id) rs ≡ true
    → any_row (same_ids r) rs ≡ true
any_row-same_ids r [] h = absurd (cc h)
any_row-same_ids r (q ∷ rs) h = ground (arith, any_row-same_ids r rs)

has_ids_self : (r : Row) → has_ids r.run_id r.job_id r ≡ true
has_ids_self r = ground (arith, eqb_text_iff r.run_id r.run_id, eqb_text_iff r.job_id r.job_id)

module _ (server : Server) (run : ClassificationRun) where
  row-IsSaved :
      (r : Row) (rs : List Row) (current : List (Text × Pointer))
      → IsRowOf server run r
      → IsSaved server run (record { runs = r ∷ rs; current = current })
  row-IsSaved r rs current row = record {
    run_id = r.run_id;
    job_id = r.job_id;
    reads_run = row.run_id;
    reads_job = row.job_id;
    there = ground (arith, has_ids_self r);
  }

  Step-IsSaved :
      {db : Database} {result : SaveRunResult} {db' : Database}
      → Step server run db result db'
      → IsSaved server run db'
  Step-IsSaved (existing a b same) = record {
    run_id = _;
    job_id = _;
    reads_run = a;
    reads_job = b;
    there = same;
  }
  Step-IsSaved {db = db} (history r row fresh why) = row-IsSaved r db.runs db.current row
  Step-IsSaved {db = db} (advanced r at row fresh production newer) = row-IsSaved r db.runs _ row

  fresh-absurd :
      (db : Database) (r : Row)
      → IsSaved server run db
      → IsRowOf server run r
      → any_row (same_ids r) db.runs ≡ false
      → ⊥
  fresh-absurd db r saved row fresh =
      let a : saved.run_id ≡ r.run_id = cc (saved.reads_run, row.run_id) in
      let b : saved.job_id ≡ r.job_id = cc (saved.reads_job, row.job_id) in
      let there : any_row (has_ids r.run_id r.job_id) db.runs ≡ true =
        subst (λ j. any_row (has_ids r.run_id j) db.runs ≡ true) b
          (subst (λ i. any_row (has_ids i saved.job_id) db.runs ≡ true) a saved.there) in
      cc (fresh, any_row-same_ids r db.runs there)

  -- A step of a run that is saved changes nothing.
  saved-Step :
      {db : Database} {result : SaveRunResult} {db' : Database}
      → IsSaved server run db
      → Step server run db result db'
      → (result ≡ record { run_inserted = false; current_advanced = false }) × (db' ≡ db)
  saved-Step saved (existing a b same) = (refl, refl)
  saved-Step {db = db} saved (history r row fresh why) = absurd (fresh-absurd db r saved row fresh)
  saved-Step {db = db} saved (advanced r at row fresh production newer) =
      absurd (fresh-absurd db r saved row fresh)

  -- What a save leaves of the tables when nothing may change.
  Refines-unchanged :
      (db : Database) (saved : Saved)
      → IsSaved server run db
      → Refines server run db saved
      → (saved.1 ≡ db) × ((saved.0 ≡ ok nothing_done) ⊎ ((e : GoError) × (saved.0 ≡ err e)))
  Refines-unchanged db _ there (done s) =
      let (nothing, same) = saved-Step there s in (same, inl (ap ok nothing))
  Refines-unchanged db _ there (failed e) = (refl, inr (e, refl))
  Refines-unchanged db _ there (unknown e s) = ((saved-Step there s).1, inr (e, refl))

  ok-IsSaved :
      (db : Database) (saved : Saved) {result : SaveRunResult}
      → saved.0 ≡ ok result
      → Refines server run db saved
      → IsSaved server run saved.1
  ok-IsSaved db _ h (done s) = Step-IsSaved s
  ok-IsSaved db _ h (failed e) = absurd (cc h)
  ok-IsSaved db _ h (unknown e s) = absurd (cc h)

-- Once a run has been saved with a nil error, saving it again never changes the tables, whatever the
-- connection does then: it says that nothing was inserted or advanced, or it gives an error.
pub save_run-idempotent :
    (server : Server) (first second : Connection) (run : ClassificationRun) (db db' : Database)
    (result : SaveRunResult)
    → save_run_and_maybe_advance_current server first run db ≡ (ok result, db')
    → ((save_run_and_maybe_advance_current server second run db').1 ≡ db')
      × (((save_run_and_maybe_advance_current server second run db').0 ≡ ok nothing_done)
          ⊎ ((e : GoError) × ((save_run_and_maybe_advance_current server second run db').0
                ≡ err e)))
save_run-idempotent server first second run db db' result h =
    let there =
      ok-IsSaved server run db (ok result, db') refl
        (subst (Refines server run db) h (save_run-Refines server first run db)) in
    Refines-unchanged server run db' _ there (save_run-Refines server second run db')

-- The current run of an object never becomes older, whatever run is saved and whatever fails.
pub save_run-monotone :
    (server : Server) (conn : Connection) (run : ClassificationRun) (db : Database) (object : Text)
    (p : Pointer)
    → lookup object db.current ≡ some p
    → (q : Pointer) × (lookup object
          (save_run_and_maybe_advance_current server conn run db).1.current
        ≡ some q)
      × (p.light_curve_revision ≤ℤ q.light_curve_revision)
save_run-monotone server conn run db object p found = kept _ (save_run-Refines server conn run db)
  where
    step_kept :
        {result : SaveRunResult} {db' : Database}
        → Step server run db result db'
        → (q : Pointer) × (lookup object db'.current ≡ some q)
          × (p.light_curve_revision ≤ℤ q.light_curve_revision)
    step_kept (existing a b same) = (p, found, ground arith)
    step_kept (history r row fresh why) = (p, found, ground arith)
    step_kept (advanced r at row fresh production newer) =
        let new : Pointer = record {
          run_id = r.run_id;
          light_curve_revision = run.light_curve_revision;
          updated_at = at;
        } in
        elim (Bool-cases (eqb_text run.object_id object)) [
          | inl same ↦ (
            new,
            ground (arith, lookup-insert run.object_id object new db.current, same),
            ground (
              arith,
              newer p (
                  subst (λ o. lookup o db.current ≡ some p)
                    (sym ((eqb_text_iff run.object_id object).0 same)) found),
            ),
          )
          | inr other ↦ (
            p,
            ground (arith, lookup-insert run.object_id object new db.current, other, found),
            ground arith,
          )
        ]

    kept :
        (saved : Saved)
        → Refines server run db saved
        → (q : Pointer) × (lookup object saved.1.current ≡ some q)
          × (p.light_curve_revision ≤ℤ q.light_curve_revision)
    kept _ (done s) = step_kept s
    kept _ (failed e) = (p, found, ground arith)
    kept _ (unknown e s) = step_kept s
