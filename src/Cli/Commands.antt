-- ===== src/Cli/Commands.antt =====
-- The commands `bootstrap-admin`, `export` and `seed-demo` of src/factory/cli.py.
use human_data.Cli.Demo.{seed_tables, is_email, seed_expert}
use human_data.Cli.Demo.Run.{seed_demo}
use human_data.Cli.{
  bootstrap_admin, export_dataset, Outcome, prints, exits, fails, add_admin, ends, as_is,
  then_approve,
}
use human_data.Config.{Env}
use human_data.Api.Accounts.{bootstrap, add_user}
use human_data.Prelude.{
  Option, some, none, String, ◌≡◌, Bool-cases, ◌⊎◌, ltb, length, inl, inr, ◌≢◌, refl, Bool, ◌==◌,
  if◌then◌else◌, true, false, arith, ==_refl, ◌∙◌, any,
}
use human_data.Export.{request_export, control_report}
use human_data.Export.Materialize.{Outside, approve_and_materialize}
use human_data.Model.Entities.{Ident, Project, ExportBatch, pending_approval}
use human_data.Store.{
  Db, find, returned, not_clean, control_violation, c6, http, Result, Error, Action, raise_if, ok,
  ◌>>◌, err, is_ok, integrity_error,
}
use human_data.Factory.{committed}
use human_data.Export.Release.{IsReleasable, request_export-IsReleasable}
use human_data.Audit.{record_event}
use human_data.Controls.{assert_export_dual_control}

abbrev printed : {A : Type 0} → Outcome A → Option A
printed (prints a) = some a
printed _ = none

ends_lem :
    {A : Type 0} (db : Db) (run : Result (A × Db))
    → ((ends as_is db run).1 ≡ committed db run) × (printed (ends as_is db run).0 ≡ returned run)
ends_lem db (ok (a, after)) = (refl, refl)
ends_lem db (err e) = (refl, refl)

-- a command that exits where the endpoint answers with an error, and else does the same
guarded_lem :
    {A : Type 0} (b : Bool) (e : Error) (m : Action A) (db : Db)
    → let run = (raise_if b e >> m) db in
      let command : Outcome A × Db = if b then (exits 1, db) else ends as_is db (m db) in
      (command.1 ≡ committed db run) × (printed command.0 ≡ returned run)
guarded_lem true e m db = (refl, refl)
guarded_lem false e m db = ends_lem db (m db)

-- The command and the endpoint that make the first user leave the same tables and give the same key.
pub bootstrap_admin-bootstrap :
    (env : Env) (name email secret : String) (db : Db)
    → let run = bootstrap env (record { name = name; email = email }) secret db in
      let command = bootstrap_admin env name email secret db in
      (command.1 ≡ committed db run) × (printed command.0 ≡ returned run)
unfolding bootstrap_admin bootstrap add_user
bootstrap_admin-bootstrap env name email secret db =
    guarded_lem (ltb 0 (length db.users)) (http 409) (add_admin env name email secret) db

found_lem :
    (env : Env) (outside : Outside) (project_id requested_by approved_by : Ident) (db : Db)
    (project : Project)
    → find (λ (p : Project). p.id) project_id db.projects ≡ some project
    → export_dataset env outside project_id requested_by approved_by db
      ≡ then_approve env outside approved_by db (request_export env project requested_by db)
unfolding export_dataset
found_lem env outside project_id requested_by approved_by db project found =
    rw (found, export_dataset) refl

dirty_lem :
    (env : Env) (project : Project) (requested_by : Ident) (db : Db)
    → (control_report env db project).clean ≡ false
    → request_export env project requested_by db ≡ err not_clean
unfolding request_export
dirty_lem env project requested_by db dirty = rw dirty refl

clean_lem :
    (env : Env) (project : Project) (requested_by : Ident) (db : Db)
    → (control_report env db project).clean ≡ true
    → is_ok (request_export env project requested_by db) ≡ true
unfolding request_export record_event
clean_lem env project requested_by db clean = rw clean refl

self_lem :
    (env : Env) (outside : Outside) (batch : ExportBatch) (by : Ident) (db : Db)
    → batch.status ≡ pending_approval
    → batch.requested_by ≡ by
    → approve_and_materialize env outside batch by db ≡ err (control_violation c6)
unfolding approve_and_materialize assert_export_dual_control
self_lem env outside batch by db waits own = rw (waits, own, ==_refl by) refl

-- what a request leaves, for the two people of an export
abbrev AfterRequest :
    Env → Outside → Db → Project → Ident → Ident → Result (ExportBatch × Db) → Type 0
AfterRequest env outside db project requested_by approved_by r =
    (IsReleasable env db project
      × (requested_by ≡ approved_by)
      × (then_approve env outside approved_by db r
          ≡ (fails (control_violation c6), committed db r)))
    ⊎ (IsReleasable env db project × (requested_by ≢ approved_by))

after_lem :
    (env : Env) (outside : Outside) (db : Db) (project : Project) (requested_by approved_by : Ident)
    (r : Result (ExportBatch × Db))
    → is_ok r ≡ true
    → ((batch : ExportBatch) (after : Db)
        → r ≡ ok (batch, after)
        → IsReleasable env db project
          × (batch.status ≡ pending_approval)
          × (batch.requested_by ≡ requested_by))
    → AfterRequest env outside db project requested_by approved_by r
after_lem env outside db project requested_by approved_by (err e) worked facts = ground arith
after_lem env outside db project requested_by approved_by (ok (batch, after)) worked facts =
    let (r, waits, own) = facts batch after refl in
    elim (Bool-cases (requested_by == approved_by)) [
      | inl same_person ↦
          let same_id : requested_by ≡ approved_by = ground arith in
          inl (
            r,
            same_id,
            rw (self_lem env outside batch approved_by after waits (own ∙ same_id)) refl,
          )
      | inr other ↦ inr (r, λ e. ground arith)
    ]

-- For a project that is there: the command fails and changes nothing, the report not being clean; or
-- the trail verifies, each row has a review and there is a row, and then either one person requests
-- and approves, it fails at the dual control and the request alone stays, or the two differ.
pub export_dataset-guards :
    (env : Env) (outside : Outside) (project_id requested_by approved_by : Ident) (db : Db)
    (project : Project)
    → find (λ (p : Project). p.id) project_id db.projects ≡ some project
    → let run = export_dataset env outside project_id requested_by approved_by db in
      (run ≡ (fails not_clean, db))
      ⊎ (IsReleasable env db project
          × (requested_by ≡ approved_by)
          × (run ≡ (
            fails (control_violation c6),
            committed db (request_export env project requested_by db),
          )))
      ⊎ (IsReleasable env db project × (requested_by ≢ approved_by))
export_dataset-guards env outside project_id requested_by approved_by db project found =
    rw (found_lem env outside project_id requested_by approved_by db project found)
      (elim (Bool-cases (control_report env db project).clean) [
        | inl clean ↦ inr (
            after_lem env outside db project requested_by approved_by
              (request_export env project requested_by db)
              (clean_lem env project requested_by db clean)
              (λ batch after e.
                request_export-IsReleasable env project requested_by db after batch e))
        | inr dirty ↦ inl (rw (dirty_lem env project requested_by db dirty) refl)
      ])

-- Where the demo's author is registered, the command fails and changes nothing: it runs once.
pub seed_demo-again :
    (env : Env) (ops : Ident) (db : Db)
    → any (is_email "alice@example-experts.com") db.experts ≡ true
    → seed_demo env ops db ≡ (fails integrity_error, db)
unfolding seed_demo seed_expert seed_tables
seed_demo-again env ops db there = rw there refl
