-- ===== src/Export.antt =====
-- src/factory/export.py: the approved rows, the control report, and the request of an export.
pub mod Rows
pub mod Materialize
pub mod Release
pub mod Storage
use human_data.Prelude.{
  Option, String, List, ◌∷◌, ◌∷◌, ℕ, some, Bool, none, true, select, ◌==◌, [], ◌++◌, any,
  if◌then◌else◌, ltb, order_by, map, false, ◌&&◌, not, length,
}
use human_data.Store.{
  Db, Action, ◌>>=◌, ◌>>◌, gets, raise_if, not_clean, not_pending, new_id, modify, or_raise, find,
  attribute_error, pure, key_error, upload_failed, put,
}
use human_data.Model.Enums.{
  TaskType, ReviewKind, sft, preference, is_approved, auto_llm, eval, human, track_value,
  task_type_value,
}
use human_data.Model.Entities.{
  BatchStatus, Task, ExportBatch, Ident, Project, Submission, Review, pending_approval, released,
  ident, Firm,
}
use human_data.Model.Json.{
  Fields, Json, field, nat, end, text, get, arr, bool, nil, obj, null, Items, cons,
}
use human_data.Config.{Env}
use human_data.Audit.{verify_chain, record_event, chain_head}
use human_data.Controls.{assert_export_dual_control}

abbrev pub Row : Type 0
Row = Task × Submission

abbrev pub ships : Ident → Task → Bool
ships project_id t = t.project_id == project_id && not t.is_gold

abbrev pub is_approved_of : Ident → Submission → Bool
is_approved_of task_id s = s.task_id == task_id && is_approved s.status

-- the join of one task with its approved submissions, and of all
abbrev pub rows_of : Task → List Submission → List Row
rows_of t [] = []
rows_of t (s ∷ ss) =
    let rest = rows_of t ss in if is_approved_of t.id s then (t, s) ∷ rest else rest

abbrev pub join : List Task → List Submission → List Row
join [] ss = []
join (t ∷ ts) ss = rows_of t ss ++ join ts ss

-- one step of the loop over the rows: the row of a task is replaced by one of a later version
unfoldable pub keep_latest : List Row → Row → List Row
keep_latest [] r = r ∷ []
keep_latest (x ∷ xs) r =
    let rest = keep_latest xs r in
    if x.0.id == r.0.id then (if ltb x.1.version r.1.version then r ∷ xs else x ∷ xs) else x ∷ rest

unfoldable pub latest : List Row → List Row → List Row
unfolding keep_latest
latest kept [] = kept
latest kept (r ∷ rs) = latest (keep_latest kept r) rs

unfoldable pub approved_rows : Db → Project → List Row
unfolding latest
approved_rows db project = latest [] (
    join (order_by (λ (t : Task). t.created_at) (select (ships project.id) db.tasks))
      db.submissions)

abbrev pub has_task : Ident → Row → Bool
has_task id r = r.0.id == id

-- `{AUTO_LLM, HUMAN} & kinds`
abbrev pub is_evidence : ReviewKind → Bool
is_evidence auto_llm = true
is_evidence human = true
is_evidence _ = false

abbrev pub has_evidence : List Review → Submission → Bool
has_evidence reviews sub =
    any (λ (r : Review). r.submission_id == sub.id && is_evidence r.kind) reviews

pub record Report : Type 0 where
  pub project_id : Ident
  pub total_tasks : ℕ
  pub approved_records : ℕ
  pub tasks_without_approved_submission : List Ident
  pub approved_without_review_evidence : List Ident
  pub audit_chain_intact : Bool
  pub audit_chain_length : ℕ
  pub clean : Bool

abbrev pub is_nil : {A : Type 0} → List A → Bool
is_nil [] = true
is_nil (x ∷ xs) = false

unfoldable pub control_report : Env → Db → Project → Report
unfolding approved_rows
control_report env db project =
    let tasks = select (ships project.id) db.tasks in
    let approved_list = approved_rows db project in
    let pending_list =
      map (λ (t : Task). t.id)
        (select (λ (t : Task). not (any (has_task t.id) approved_list)) tasks) in
    let unreviewed =
      map (λ (r : Row). r.1.id)
        (select (λ (r : Row). not (has_evidence db.reviews r.1)) approved_list) in
    let chain = verify_chain env db.audit_events in
    record {
      project_id = project.id;
      total_tasks = length tasks;
      approved_records = length approved_list;
      tasks_without_approved_submission = pending_list;
      approved_without_review_evidence = unreviewed;
      audit_chain_intact = chain.0;
      audit_chain_length = chain.1;
      clean = chain.0 && is_nil unreviewed && ltb 0 (length approved_list);
    }

abbrev ids_json : List Ident → Items
ids_json [] = nil
ids_json (id ∷ ids) = cons (nat id) (ids_json ids)

-- the report as the manifest keeps it
abbrev report_fields : Report → Fields
report_fields r = field "project_id" (nat r.project_id) (
    field "total_tasks" (nat r.total_tasks) (
      field "approved_records" (nat r.approved_records) (
        field "tasks_without_approved_submission"
          (arr (ids_json r.tasks_without_approved_submission))
          (field "approved_without_review_evidence"
            (arr (ids_json r.approved_without_review_evidence))
            (field "audit_chain_intact" (bool r.audit_chain_intact) (
              field "audit_chain_length" (nat r.audit_chain_length)
                (field "clean" (bool r.clean) end)))))))

unfoldable pub request_export : Env → Project → Ident → Action ExportBatch
unfolding control_report
request_export env project requested_by = do
  report ← gets (λ db. control_report env db project)
  raise_if (not report.clean) not_clean
  id ← new_id
  now ← gets (λ db. db.clock)
  let batch : ExportBatch = record {
    id = id;
    project_id = project.id;
    requested_by = requested_by;
    approved_by = none;
    path = none;
    manifest = field "control_report" (obj (report_fields report)) end;
    status = pending_approval;
    created_at = now;
  }
  modify (λ db. record db { export_batches = db.export_batches ++ batch ∷ [] })
  record_event env (ident requested_by) "export.requested" "export_batch" batch.id
      (field "project_id" (nat project.id) (field "records" (nat report.approved_records) end))
  pure batch
