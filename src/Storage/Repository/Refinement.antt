-- ===== src/Storage/Repository/Refinement.antt =====
-- internal/adapter/postgres/classification_repository.go: SaveRunAndMaybeAdvanceCurrent refines the steps.
use variable_star_classifica.Prelude.{
  ◌≡◌, ◌∙◌, sym, ap, subst, refl, inl, inr, Bool, true, false, ◌&&◌, ◌∷◌, Option, none, some, Text,
  eqb_text, text_eq, ◌==◌, ==_iff, if◌then◌else◌, arith, if-elim,
}
use variable_star_classifica.Errors.{wrap, GoError, Result, ok, err}
use variable_star_classifica.Domain.Identity.{execution_mode_production}
use variable_star_classifica.Domain.Classification.{ClassificationRun}
use variable_star_classifica.Application.Messaging.{Time}
use variable_star_classifica.Storage.{InsertArguments, Row, insert_arguments}
use variable_star_classifica.Storage.Tables.{
  Server, Database, Outcome, refused, no_rows, one_row, any_row, cast_row,
  insert_classification_run, advance_pointer, advance_current_classification, inspect_existing,
}
use variable_star_classifica.Storage.Repository.{
  SaveRunResult, Connection, commit, after_advance, existing_run_is_idempotent, after_inspect,
  inspect, after_insert, transaction, begin, save_run_and_maybe_advance_current,
}
use variable_star_classifica.Storage.Repository.Steps.{
  existing, history, advanced, done, failed, unknown, AdvancesPointer, IsRowOf, Refines, Step,
  advance_pointer-AdvancesPointer, cast_ids-some, insert_arguments-ok, insert_row-one_row, same_ids,
}

module _ (server : Server) (conn : Connection) (run : ClassificationRun) (db : Database) where
  commit-Refines :
      (result : SaveRunResult) (after : Database) (e : Option GoError)
      → Step server run db result after
      → Refines server run db (commit conn result db after e)
  unfolding commit
  commit-Refines result after none s = done s
  commit-Refines result after (some e) s =
      elim conn.commit_applied
        as (λ b.
          Refines server run db
            (err (wrap "commit classification transaction" e), if b then after else db)) [
              | true ↦ unknown _ s
              | false ↦ failed _
            ]

  inserted_row :
      (clock : Time) (row : InsertArguments) (db' : Database)
      → insert_arguments run ≡ ok row
      → insert_classification_run server clock row db ≡ one_row db'
      → (r : Row) × IsRowOf server run r
        × (any_row (same_ids r) db.runs ≡ false)
        × (db' ≡ record db { runs = r ∷ db.runs })
  unfolding insert_classification_run cast_row
  inserted_row clock row db' h e =
      let (r, c, checked, fresh, same) = insert_row-one_row (cast_row server clock row) db db' e in
      let (a, b, o, l, x) =
        cast_ids-some (server.timestamptz row.completed_at) clock row _ _ _ r c in
      let (a', b', o', l', x') = insert_arguments-ok run row h in
      (
        r,
        record {
          run_id = ap server.uuid (sym a') ∙ a;
          job_id = ap server.uuid (sym b') ∙ b;
          object_id = o ∙ o';
          light_curve_revision = l ∙ l';
          execution_mode = x ∙ x';
          checked = checked;
        },
        fresh,
        same,
      )

  after_advance-Refines :
      (r : Row) (outcome : Outcome) (e : Option GoError)
      → IsRowOf server run r
      → any_row (same_ids r) db.runs ≡ false
      → run.execution_mode ≡ execution_mode_production
      → AdvancesPointer run.object_id run.light_curve_revision conn.clock
          (record db { runs = r ∷ db.runs })
          (server.uuid run.run_id)
          outcome
      → Refines server run db (after_advance conn db (record db { runs = r ∷ db.runs }) e outcome)
  unfolding after_advance
  after_advance-Refines r outcome (some e) row fresh production a = failed _
  after_advance-Refines r refused none row fresh production a = failed _
  after_advance-Refines r no_rows none row fresh production a =
      commit-Refines _ _ conn.commit_error (history r row fresh (inr a))
  after_advance-Refines r (one_row db') none row fresh production (u, at, same, newer) =
      let id : u ≡ r.run_id = cc (at, row.run_id) in
      commit-Refines _ db' conn.commit_error (
        subst (Step server run db _) (sym (rw id at same))
          (advanced r conn.clock row fresh production newer))

  idempotent-same :
      (e : Option GoError) (r j : Text)
      → existing_run_is_idempotent e (inspect_existing r j db.runs) ≡ ok true
      → any_row (λ q. eqb_text q.run_id r && eqb_text q.job_id j) db.runs ≡ true
  unfolding existing_run_is_idempotent inspect_existing
  idempotent-same (some f) r j h = absurd (cc h)
  idempotent-same none r j h = ground arith

  after_inspect-Refines :
      (r j : Text) (found : Result Bool)
      → server.uuid run.run_id ≡ some r
      → server.uuid run.job_id ≡ some j
      → existing_run_is_idempotent conn.inspect_error (inspect_existing r j db.runs) ≡ found
      → Refines server run db (after_inspect found, db)
  unfolding after_inspect
  after_inspect-Refines r j (err e) a b h = failed _
  after_inspect-Refines r j (ok true) a b h =
      done (existing a b (idempotent-same conn.inspect_error r j h))
  after_inspect-Refines r j (ok false) a b h = failed _

  inspect-Refines :
      (r j : Option Text)
      → server.uuid run.run_id ≡ r
      → server.uuid run.job_id ≡ j
      → Refines server run db (inspect server conn run db r j, db)
  unfolding inspect
  inspect-Refines none j a b = failed _
  inspect-Refines (some r) none a b = failed _
  inspect-Refines (some r) (some j) a b = after_inspect-Refines r j _ a b refl

  after_insert-Refines :
      (row : InsertArguments) (e : Option GoError) (outcome : Outcome)
      → insert_arguments run ≡ ok row
      → insert_classification_run server conn.clock row db ≡ outcome
      → Refines server run db (after_insert server conn run db e outcome)
  unfolding after_insert advance_current_classification
  after_insert-Refines row (some e) outcome h i = failed _
  after_insert-Refines row none refused h i = failed _
  after_insert-Refines row none no_rows h i = inspect-Refines _ _ refl refl
  after_insert-Refines row none (one_row inserted) h i =
      let (r, isrow, fresh, same) = inserted_row conn.clock row inserted h i in
      subst
        (λ d. Refines server run db (
          if run.execution_mode == execution_mode_production
          then after_advance conn db d conn.advance_error (
              advance_pointer run.object_id run.light_curve_revision conn.clock d
                (server.uuid run.run_id))
          else commit conn (record { run_inserted = true; current_advanced = false }) db d
              conn.commit_error))
        (sym same)
        (if-elim (Refines server run db) (run.execution_mode == execution_mode_production)
          (λ production.
            after_advance-Refines r _ conn.advance_error isrow fresh
              ((==_iff run.execution_mode execution_mode_production).0 production)
              (advance_pointer-AdvancesPointer run.object_id run.light_curve_revision conn.clock
                (record db { runs = r ∷ db.runs }) (server.uuid run.run_id)))
          (λ other.
            commit-Refines _ _ conn.commit_error
              (history r isrow fresh (inl (λ p. ground (arith, other, p))))))

  begin-Refines :
      (built : Result InsertArguments)
      → insert_arguments run ≡ built
      → Refines server run db (begin server conn run db built)
  unfolding begin transaction
  begin-Refines (err e) h = failed _
  begin-Refines (ok row) h =
      elim conn.begin_error as (λ e. Refines server run db (transaction server conn run db e row)) [
        | none ↦ after_insert-Refines row conn.insert_error _ h refl
        | some e ↦ failed _
      ]

  -- Whatever the connection does, SaveRunAndMaybeAdvanceCurrent refines the steps: a nil error means
  -- that the step it reports was made, and an error that no step was made, or the whole of one by a
  -- commit that failed to answer.
  pub save_run-Refines :
      Refines server run db (save_run_and_maybe_advance_current server conn run db)
  unfolding save_run_and_maybe_advance_current
  save_run-Refines = begin-Refines (insert_arguments run) refl
