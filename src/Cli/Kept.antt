-- ===== src/Cli/Kept.antt =====
-- The commands of src/factory/cli.py keep an invariant of the tables.
use human_data.Cli.Demo.{
  seed_tables, seed_expert, seed_firm, seed_qualification, seed_task, seed_project,
}
use human_data.Cli.Demo.Run.{
  seed_demo, stage, run_command, Command, bootstraps_admin, exports, invoices_firm, seeds,
}
use human_data.Cli.{
  invoiced, Outcome, export_dataset, bootstrap_admin, add_admin, ends, invoice, as_is, then_approve,
  exported, or_exit,
}
use human_data.Prelude.{length, ltb, false, none, some, if◌then◌else◌}
use human_data.Store.{Db, Result, modify, ok, new_id, err, find, ◌>>=◌, ◌>>◌, pure}
use human_data.Config.{Env}
use human_data.Billing.Invariant.{Invariant}
use human_data.Model.Entities.{Ident, Principal, Moment, ExportBatch, Project, Firm, ident}
use human_data.Store.Keeps.{keeps_rules, Holds, Keeps, Keeps-bind}
use human_data.Prelude.{◌≡◌, ℕ, String, List, Bool, true, Option}
use human_data.Qc.Engine.Kept.{submit-Keeps}
use human_data.Audit.{record_event}
use human_data.Model.Json.{Fields, field, text, end}
use human_data.Api.Kept.{
  Registers, approve_and_materialize-Keeps, export_request_export-Keeps, issue_key-Keeps,
}
use human_data.Export.Materialize.{Outside}
use human_data.Api.Accounts.{add_user}
use human_data.Model.Enums.{admin}
use human_data.Auth.{issue_key}
use human_data.Billing.Kept.{generate_invoice-Keeps}

module _ {B : Type 0} (P : Db → Type 0) where
  if_lem :
      (b : Bool) (one other : Outcome B × Db) → P one.1 → P other.1 → P (if b then one else other).1
  if_lem true one other p q = p
  if_lem false one other p q = q

module _ {A B : Type 0} (P : Db → Type 0) where
  ends_lem :
      (show : A → B) (db : Db) (run : Result (A × Db)) → P db → Holds P run → P (ends show db run).1
  ends_lem show db (ok (a, after)) before h = h
  ends_lem show db (err e) before h = before

  or_exit_lem :
      (o : Option A) (db : Db) (rest : A → Outcome B × Db)
      → P db
      → ((a : A) → P (rest a).1)
      → P (or_exit o db rest).1
  or_exit_lem none db rest before k = before
  or_exit_lem (some a) db rest before k = k a

module _ {A B : Type 0} (P : Db → Type 0) where
  stage_lem :
      (db : Db) (run : Result (A × Db)) (rest : A → Db → Outcome B × Db)
      → P db
      → Holds P run
      → ((a : A) (after : Db) → P after → P (rest a after).1)
      → P (stage db run rest).1
  stage_lem db (ok (a, after)) rest before h k = k a after h
  stage_lem db (err e) rest before h k = before

module _ (env : Env) (P : Db → Type 0) (inv : Invariant env P) where
  new_id-Kept : Keeps P new_id
  new_id-Kept = inv.keeps_new_id

  event-Kept :
      (actor : Principal) (action entity_type : String) (entity_id : Ident) (payload : Fields)
      → Keeps P (record_event env actor action entity_type entity_id payload)
  event-Kept = inv.keeps_record_event

  write-Kept :
      (f : Db → Db)
      → ((db : Db) → (f db).audit_events ≡ db.audit_events)
      → ((db : Db) → (f db).usage_events ≡ db.usage_events)
      → ((db : Db) → (f db).rate_cards ≡ db.rate_cards)
      → ((db : Db) → (f db).users ≡ db.users)
      → Keeps P (modify f)
  write-Kept = inv.keeps_write

  ruleset seed_writes = (keeps_rules, new_id-Kept, event-Kept, write-Kept)

  seed_expert-Kept :
      (name email : String) (credentials : List String) (is_reviewer : Bool)
      → Keeps P (seed_expert name email credentials is_reviewer)
  unfolding seed_expert
  seed_expert-Kept name email credentials is_reviewer = search seed_writes depth 24

  seed_qualification-Kept :
      (expert_id : Ident) (exam_score : ℕ) → Keeps P (seed_qualification expert_id exam_score)
  unfolding seed_qualification
  seed_qualification-Kept expert_id exam_score = search seed_writes depth 24

  seed_firm-Kept : Keeps P seed_firm
  unfolding seed_firm
  seed_firm-Kept = search seed_writes depth 24

  seed_project-Kept : (ops firm_id : Ident) → Keeps P (seed_project ops firm_id)
  unfolding seed_project
  seed_project-Kept ops firm_id = search seed_writes depth 24

  seed_task-Kept :
      (project_id : Ident) (prompt : String) (is_gold : Bool) (gold_answer : Option Fields)
      → Keeps P (seed_task project_id prompt is_gold gold_answer)
  unfolding seed_task
  seed_task-Kept project_id prompt is_gold gold_answer = search seed_writes depth 24

  seed_tables-Kept : (ops : Ident) → Keeps P (seed_tables env ops)
  unfolding seed_tables
  seed_tables-Kept ops =
      search
        (
          keeps_rules, event-Kept, seed_expert-Kept, seed_qualification-Kept, seed_firm-Kept,
          seed_project-Kept, seed_task-Kept,
        )
        depth 60

  -- The command keeps every invariant that the operations of the pipeline keep, also where it fails
  -- after a part has committed.
  pub seed_demo-Kept : (ops : Ident) (db : Db) → P db → P (seed_demo env ops db).1
  unfolding seed_demo
  seed_demo-Kept ops db before =
      stage_lem P db _ _ before ((seed_tables-Kept ops).at db before) λ s seeded p.
        stage_lem P seeded _ _ p ((submit-Keeps env P inv s.first _ _).at seeded p) λ a after_a q.
          stage_lem P after_a _ _ q ((submit-Keeps env P inv s.second _ _).at after_a q)
            λ b after_b r.
              stage_lem P after_b _ _ r ((submit-Keeps env P inv s.third _ _).at after_b r)
                λ c after_c t. t

  then_approve-Kept :
      (reg : Registers P) (outside : Outside) (by : Ident) (db : Db)
      (run : Result (ExportBatch × Db))
      → P db
      → Holds P run
      → P (then_approve env outside by db run).1
  then_approve-Kept reg outside by db (ok (batch, after)) before h =
      ends_lem P exported after _ h
        ((approve_and_materialize-Keeps env P inv reg outside batch by).at after h)
  then_approve-Kept reg outside by db (err e) before h = before

  export_dataset-Kept :
      (reg : Registers P) (outside : Outside) (project_id requested_by approved_by : Ident)
      (db : Db)
      → P db
      → P (export_dataset env outside project_id requested_by approved_by db).1
  unfolding export_dataset
  export_dataset-Kept reg outside project_id requested_by approved_by db before =
      or_exit_lem P (find (λ (p : Project). p.id) project_id db.projects) db _ before λ p.
        then_approve-Kept reg outside approved_by db _ before
          ((export_request_export-Keeps env P inv reg p requested_by).at db before)

  add_admin-Kept :
      (reg : Registers P) (name email secret : String) → Keeps P (add_admin env name email secret)
  unfolding add_admin add_user
  add_admin-Kept reg name email secret = record {
    at =
        (Keeps-bind (add_user name email admin none none)
          (λ user. do
            key ← issue_key env user secret
            record_event env (ident user.id) "user.bootstrapped" "user" user.id
                (field "email" (text email) end)
            pure (record { user_id = user.id; api_key = key }))
          (reg.keeps_add_user name email admin none none)
          (λ user.
            Keeps-bind (issue_key env user secret) _ (issue_key-Keeps env P inv reg user secret)
              (λ key. search (keeps_rules, event-Kept) depth 12))).at;
  }

  bootstrap_admin-Kept :
      (reg : Registers P) (name email secret : String) (db : Db)
      → P db
      → P (bootstrap_admin env name email secret db).1
  unfolding bootstrap_admin
  bootstrap_admin-Kept reg name email secret db before =
      if_lem P (ltb 0 (length db.users)) _ _ before
        (ends_lem P as_is db _ before ((add_admin-Kept reg name email secret).at db before))

  invoice-Kept :
      (firm_id : Ident) (period_start period_end : Moment) (issued_by : Ident) (db : Db)
      → P db
      → P (invoice env firm_id period_start period_end issued_by db).1
  unfolding invoice
  invoice-Kept firm_id period_start period_end issued_by db before =
      or_exit_lem P (find (λ (f : Firm). f.id) firm_id db.firms) db _ before λ firm.
        ends_lem P invoiced db _ before
          ((generate_invoice-Keeps env P inv firm period_start period_end issued_by).at db before)

  -- A command keeps every invariant that the operations of the service keep, also where it fails after a
  -- part has committed.
  pub run_command-Kept :
      (reg : Registers P) (outside : Outside) (command : Command) (db : Db)
      → P db
      → P (run_command env outside command db)
  unfolding run_command
  run_command-Kept reg outside (bootstraps_admin name email secret) db before =
      bootstrap_admin-Kept reg name email secret db before
  run_command-Kept reg outside (exports p r a) db before =
      export_dataset-Kept reg outside p r a db before
  run_command-Kept reg outside (invoices_firm f s e by) db before = invoice-Kept f s e by db before
  run_command-Kept reg outside (seeds ops) db before = seed_demo-Kept ops db before
