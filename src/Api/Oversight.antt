-- ===== src/Api/Oversight.antt =====
-- The exports and the oversight in src/factory/api/main.py.
pub mod Release
use human_data.Export.{request_export as export_request_export, Report, control_report}
use human_data.Export.Materialize.{approve_and_materialize, Outside}
use human_data.Audit.{verify_chain as audit_verify_chain}
use human_data.Prelude.{
  ℕ, List, Bool, Option, String, if◌then◌else◌, ◌+◌, length, not, ◌==◌, select, none, true, some,
  ◌*◌, sum_of, is_some,
}
use human_data.Model.Entities.{ExportBatch, Ident, Expert, Submission, BatchStatus, UsageEvent}
use human_data.Config.{Env}
use human_data.Model.Enums.{
  SubmissionStatus, submitted, DomainTrack, ExpertStatus, auto_check_failed, expert_status_eq,
  submission_status_eq, auto_qc_pending, human_review, needs_revision, approved, rejected,
}
use human_data.Store.{Action, Db, ◌>>◌, ◌>>=◌, gets, pure}
use human_data.Auth.{Actor, Credentials, require_roles, assert_firm_access}
use human_data.Calibration.{CalibrationReport, calibration_report}
use human_data.Model.Json.{Fields}
use human_data.Api.{
  internal, any_authenticated, get_or_404, get_project_or_404, catching, export_response,
  release_response,
}
use human_data.Rounding.{div_round}

unfoldable pub get_control_report : Env → Credentials → Ident → Action Report
get_control_report env credentials project_id = do
  actor ← require_roles env credentials any_authenticated
  p ← get_project_or_404 project_id
  assert_firm_access actor p.firm_id
  gets (λ db. control_report env db p)

unfoldable pub request_export : Env → Credentials → Ident → Action (Ident × BatchStatus)
request_export env credentials project_id = do
  actor ← require_roles env credentials internal
  p ← get_project_or_404 project_id
  batch ← catching export_response (export_request_export env p actor.id)
  pure (batch.id, batch.status)

-- the caller, or in dev mode the body's `approved_by`
abbrev pub approver_of : Env → Actor → Ident → Ident
approver_of env actor approved_by = if not env.settings.auth_disabled then actor.id else approved_by

pub record ReleaseOut : Type 0 where
  pub batch_id : Ident
  pub status : BatchStatus
  pub path : Option String
  pub manifest : Fields

abbrev pub batch_ref : ExportBatch → Ident
batch_ref b = b.id

unfoldable pub approve_export : Env → Outside → Credentials → Ident → Ident → Action ReleaseOut
approve_export env outside credentials batch_id approved_by = do
  actor ← require_roles env credentials internal
  batch ← get_or_404 batch_ref (λ db. db.export_batches) batch_id
  out ←
      catching release_response
        (approve_and_materialize env outside batch (approver_of env actor approved_by))
  pure (record { batch_id = out.id; status = out.status; path = out.path; manifest = out.manifest })

unfoldable pub qc_calibration : Env → Credentials → Option DomainTrack → Action CalibrationReport
qc_calibration env credentials track = do
  require_roles env credentials internal
  gets (λ db. calibration_report env db track)

-- `intact` and `events`
unfoldable pub verify_audit : Env → Credentials → Action (Bool × ℕ)
verify_audit env credentials = do
  require_roles env credentials internal
  gets (λ db. audit_verify_chain env db.audit_events)

-- The two counts by status give, for a status, the number of rows that have it. `approval_rate` is
-- in thousandths.
pub record Metrics : Type 0 where
  pub total_submissions : ℕ
  pub submissions_by_status : SubmissionStatus → ℕ
  pub approval_rate : Option ℕ
  pub human_review_backlog : ℕ
  pub experts_by_status : ExpertStatus → ℕ
  pub uninvoiced_usage_cents : ℕ
  pub qc_model : String

-- the number of rows with a status
abbrev pub submissions_with : List Submission → SubmissionStatus → ℕ
submissions_with subs status =
    length (select (λ (s : Submission). submission_status_eq s.status status) subs)

abbrev pub experts_with : List Expert → ExpertStatus → ℕ
experts_with experts status =
    length (select (λ (e : Expert). expert_status_eq e.status status) experts)

-- `sum(by_status.values())`
abbrev pub sum_by_status : (SubmissionStatus → ℕ) → ℕ
sum_by_status count =
    count submitted
    + count auto_check_failed
    + count auto_qc_pending
    + count human_review
    + count needs_revision
    + count approved
    + count rejected

unfoldable pub metrics_of : Env → Db → Metrics
metrics_of env db =
    let by_status = submissions_with db.submissions in
    let total = sum_by_status by_status in
    record {
      total_submissions = total;
      submissions_by_status = by_status;
      approval_rate =
          if total == 0
          then none
          else some (div_round env.rounds_up (by_status approved * 1000) total);
      human_review_backlog = by_status human_review;
      experts_by_status = experts_with db.experts;
      uninvoiced_usage_cents =
          sum_of (λ (e : UsageEvent). e.amount_cents)
            (select (λ (e : UsageEvent). not (is_some e.invoice_id)) db.usage_events);
      qc_model = env.settings.qc_model;
    }

unfoldable pub metrics : Env → Credentials → Action Metrics
unfolding metrics_of
metrics env credentials = do require_roles env credentials internal; gets (λ db. metrics_of env db)

-- the count of the users is read, and given up
unfoldable pub healthz : Action Bool
healthz = do gets (λ db. length db.users); pure true
