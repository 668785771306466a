-- ===== src/Storage/Repository/Current.antt =====
-- internal/adapter/postgres/classification_repository.go: the current classification of an object is
-- its newest production run, and saving a run again changes nothing.
use variable_star_classifica.Prelude.{
  ◌≡◌, ◌≢◌, ◌∙◌, sym, ap, subst, refl, ◌⊎◌, inl, inr, Bool, true, false, List, [], ◌∷◌, some, Text,
  eqb_text, text_eq, eqb_text_iff, ltb_ℤ, ◌≤ℤ◌, lookup, insert, lookup-insert, arith, Bool-cases,
}
use variable_star_classifica.Domain.Identity.{execution_mode_production}
use variable_star_classifica.Domain.Classification.{ClassificationRun}
use variable_star_classifica.Application.Messaging.{Time}
use variable_star_classifica.Storage.{Row}
use variable_star_classifica.Storage.Tables.{Server, Pointer, Database, any_row}
use variable_star_classifica.Storage.Repository.{
  SaveRunResult, Connection, Saved, save_run_and_maybe_advance_current,
}
use variable_star_classifica.Storage.Repository.Refinement.{save_run-Refines}
use variable_star_classifica.Storage.Repository.Steps.{
  same_ids, IsRowOf, Step, existing, history, advanced, Refines, done, failed, unknown,
}

abbrev pub IsIn : Row → List Row → Type 0
IsIn r [] = ⊥
IsIn r (q ∷ qs) = (r ≡ q) ⊎ IsIn r qs

-- run_id and job_id are keys.
abbrev pub HasKeys : List Row → Type 0
HasKeys [] = Unit
HasKeys (r ∷ rs) = (any_row (same_ids r) rs ≡ false) × HasKeys rs

-- A production run that a pointer stands for.
pub record IsPointedAt (object : Text) (p : Pointer) (r : Row) : Type 0 where
  pub run_id : r.run_id ≡ p.run_id
  pub object_id : r.object_id ≡ object
  pub light_curve_revision : r.light_curve_revision ≡ p.light_curve_revision
  pub production : r.execution_mode ≡ execution_mode_production

pub record IsConsistent (db : Database) : Type 0 where
  pub keys : HasKeys db.runs
  -- An object with a production run has a current run that is not older.
  pub newest :
      (r : Row)
      → IsIn r db.runs
      → r.execution_mode ≡ execution_mode_production
      → (p : Pointer) × (lookup r.object_id db.current ≡ some p)
        × (r.light_curve_revision ≤ℤ p.light_curve_revision)
  -- A current run is one of the object's production runs.
  pub pointed :
      (object : Text) (p : Pointer)
      → lookup object db.current ≡ some p
      → (r : Row) × IsIn r db.runs × IsPointedAt object p r

module _ (server : Server) (run : ClassificationRun) (db : Database) (h : IsConsistent db) where
  history-IsConsistent :
      (r : Row)
      → IsRowOf server run r
      → any_row (same_ids r) db.runs ≡ false
      → (run.execution_mode ≢ execution_mode_production)
        ⊎ ((p : Pointer) × (lookup run.object_id db.current ≡ some p)
            × (ltb_ℤ p.light_curve_revision run.light_curve_revision ≡ false))
      → IsConsistent (record db { runs = r ∷ db.runs })
  history-IsConsistent r row fresh why = record {
    keys = (fresh, h.keys);
    newest = λ q at production. newest_in q production at;
    pointed =
        λ object p found. let (q, at, points) = h.pointed object p found in (q, inr at, points);
  }
    where
      newest_new :
          (run.execution_mode ≢ execution_mode_production)
            ⊎ ((p : Pointer) × (lookup run.object_id db.current ≡ some p)
                × (ltb_ℤ p.light_curve_revision run.light_curve_revision ≡ false))
          → r.execution_mode ≡ execution_mode_production
          → (p : Pointer) × (lookup r.object_id db.current ≡ some p)
            × (r.light_curve_revision ≤ℤ p.light_curve_revision)
      newest_new (inl other) production = absurd (other (sym row.execution_mode ∙ production))
      newest_new (inr (p, found, older)) production =
          (p, rw row.object_id found, ground (arith, row.light_curve_revision, older))

      newest_in :
          (q : Row)
          → q.execution_mode ≡ execution_mode_production
          → IsIn q (r ∷ db.runs)
          → (p : Pointer) × (lookup q.object_id db.current ≡ some p)
            × (q.light_curve_revision ≤ℤ p.light_curve_revision)
      newest_in q production (inl same) =
          subst
            (λ z.
              (p : Pointer) × (lookup z.object_id db.current ≡ some p)
              × (z.light_curve_revision ≤ℤ p.light_curve_revision))
            (sym same) (newest_new why (ap (λ z. z.execution_mode) (sym same) ∙ production))
      newest_in q production (inr at) = h.newest q at production

-- The object of a row has a current run that is not older.
abbrev IsCovered : List (Text × Pointer) → Row → Type 0
IsCovered current q =
    (p : Pointer) × (lookup q.object_id current ≡ some p)
    × (q.light_curve_revision ≤ℤ p.light_curve_revision)

-- A newer pointer in place of the object's old one.
module _ (object : Text) (new : Pointer) (current : List (Text × Pointer))
    (newer : (p : Pointer)
      → lookup object current ≡ some p
      → ltb_ℤ p.light_curve_revision new.light_curve_revision ≡ true) where
  IsCovered-insert : (q : Row) → IsCovered current q → IsCovered (insert object new current) q
  IsCovered-insert q (p, found, order) = elim (Bool-cases (eqb_text object q.object_id)) [
    | inl same ↦
        let at : object ≡ q.object_id = (eqb_text_iff object q.object_id).0 same in
        (
          new,
          ground (arith, lookup-insert object q.object_id new current, same),
          ground (arith, newer p (subst (λ o. lookup o current ≡ some p) (sym at) found), order),
        )
    | inr other ↦
        (p, ground (arith, lookup-insert object q.object_id new current, other, found), order)
  ]

  IsCovered-new :
      (q : Row)
      → q.object_id ≡ object
      → q.light_curve_revision ≡ new.light_curve_revision
      → IsCovered (insert object new current) q
  IsCovered-new q at same = (
    new,
    ground
        (arith, lookup-insert object q.object_id new current, eqb_text_iff object q.object_id, at),
    ground (arith, same),
  )

module _ (server : Server) (run : ClassificationRun) (db : Database) (h : IsConsistent db) where
  advanced-IsConsistent :
      (r : Row) (at : Time)
      → IsRowOf server run r
      → any_row (same_ids r) db.runs ≡ false
      → run.execution_mode ≡ execution_mode_production
      → ((p : Pointer)
          → lookup run.object_id db.current ≡ some p
          → ltb_ℤ p.light_curve_revision run.light_curve_revision ≡ true)
      → IsConsistent (record {
        runs = r ∷ db.runs;
        current =
            insert run.object_id
              (record {
                run_id = r.run_id;
                light_curve_revision = run.light_curve_revision;
                updated_at = at;
              })
              db.current;
      })
  advanced-IsConsistent r at row fresh production newer = record {
    keys = (fresh, h.keys);
    newest = λ q i mode. covers q mode i;
    pointed = λ object p found. points object p (eqb_text run.object_id object) refl found;
  }
    where
      new : Pointer
      new = record {
        run_id = r.run_id;
        light_curve_revision = run.light_curve_revision;
        updated_at = at;
      }

      covers :
          (q : Row)
          → q.execution_mode ≡ execution_mode_production
          → IsIn q (r ∷ db.runs)
          → IsCovered (insert run.object_id new db.current) q
      covers q mode (inl same) =
          IsCovered-new run.object_id new db.current newer q
            (ap (λ z. z.object_id) same ∙ row.object_id)
            (ap (λ z. z.light_curve_revision) same ∙ row.light_curve_revision)
      covers q mode (inr i) =
          IsCovered-insert run.object_id new db.current newer q (h.newest q i mode)

      points :
          (object : Text) (p : Pointer) (b : Bool)
          → eqb_text run.object_id object ≡ b
          → lookup object (insert run.object_id new db.current) ≡ some p
          → (q : Row) × IsIn q (r ∷ db.runs) × IsPointedAt object p q
      points object p true same found =
          let e : new ≡ p =
            ground (arith, lookup-insert run.object_id object new db.current, same, found) in
          (
            r,
            inl refl,
            record {
              run_id = ap (λ z. z.run_id) e;
              object_id = row.object_id ∙ (eqb_text_iff run.object_id object).0 same;
              light_curve_revision = row.light_curve_revision ∙ ap (λ z. z.light_curve_revision) e;
              production = row.execution_mode ∙ production;
            },
          )
      points object p false other found =
          let (q, i, here) =
            h.pointed object p
              (ground (arith, lookup-insert run.object_id object new db.current, other, found)) in
          (q, inr i, here)

  -- Every step keeps the tables consistent.
  Step-IsConsistent :
      {result : SaveRunResult} {db' : Database} → Step server run db result db' → IsConsistent db'
  Step-IsConsistent (existing a b same) = h
  Step-IsConsistent (history r row fresh why) = history-IsConsistent server run db h r row fresh why
  Step-IsConsistent (advanced r at row fresh production newer) =
      advanced-IsConsistent r at row fresh production newer

  Refines-IsConsistent : (saved : Saved) → Refines server run db saved → IsConsistent saved.1
  Refines-IsConsistent _ (done s) = Step-IsConsistent s
  Refines-IsConsistent _ (failed e) = h
  Refines-IsConsistent _ (unknown e s) = Step-IsConsistent s

-- SaveRunAndMaybeAdvanceCurrent keeps the tables consistent whatever the connection does: the ids are
-- keys, every object with a production run has a current run, which is one of its production runs, and
-- no production run of the object is newer.
pub save_run-IsConsistent :
    (server : Server) (conn : Connection) (run : ClassificationRun) (db : Database)
    → IsConsistent db
    → IsConsistent (save_run_and_maybe_advance_current server conn run db).1
save_run-IsConsistent server conn run db h =
    Refines-IsConsistent server run db h _ (save_run-Refines server conn run db)
