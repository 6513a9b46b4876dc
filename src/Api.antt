-- ===== src/Api.antt =====
-- What the endpoints of src/factory/api/main.py share. An endpoint is an action on the session: the
-- dependencies first, then the handler. The bodies are parsed; the limits that pydantic puts on
-- them are guards of their handler.
pub mod Accounts
pub mod Firms
pub mod Experts
pub mod Projects
pub mod Submissions
pub mod Invoices
pub mod Oversight
pub mod Kept
pub mod Lookups
pub mod Responses
use human_data.Model.Entities.{User, Expert, Submission, Task, Project, Ident, Firm}
use human_data.Prelude.{List, ◌∷◌, []}
use human_data.Store.{
  Error, Action, control_violation, http, Result, Db, ◌>>=◌, no_usage, ok, not_clean, other_expert,
  stripe_managed, gets, not_in_human_review, err, not_pending, or_raise, not_payable, find,
  relative_url,
}
use human_data.Model.Enums.{Role, admin, ops, reviewer, expert, client}
use human_data.Billing.Invoicing.{firm_ref}
use human_data.Qc.Rows.{project_ref, expert_ref}

-- `internal`, `admin_only`, `review_roles`, `submit_roles` and `any_authenticated`
abbrev pub internal : List Role
internal = admin ∷ ops ∷ []

abbrev pub admin_only : List Role
admin_only = admin ∷ []

abbrev pub review_roles : List Role
review_roles = admin ∷ ops ∷ reviewer ∷ []

abbrev pub submit_roles : List Role
submit_roles = admin ∷ ops ∷ expert ∷ []

abbrev pub any_authenticated : List Role
any_authenticated = admin ∷ ops ∷ reviewer ∷ expert ∷ client ∷ []

module _ {A : Type 0} where
  -- `_get_or_404`
  unfoldable pub get_or_404 : (A → Ident) → (Db → List A) → Ident → Action A
  get_or_404 id_of rows id = do xs ← gets rows; or_raise (find id_of id xs) (http 404)

  -- `try … except … raise HTTPException`
  abbrev pub caught : (Error → Error) → Result (A × Db) → Result (A × Db)
  caught f (ok r) = ok r
  caught f (err e) = err (f e)

  unfoldable pub catching : (Error → Error) → Action A → Action A
  catching f m db = caught f (m db)

-- `except (controls.ControlViolation, engine.PipelineError)`
abbrev pub pipeline_response : Error → Error
pipeline_response (control_violation c) = http 403
pipeline_response other_expert = http 403
pipeline_response not_in_human_review = http 403
pipeline_response e = e

-- `except controls.ControlViolation`
abbrev pub control_response : Error → Error
control_response (control_violation c) = http 403
control_response e = e

-- `except billing.BillingError`
abbrev pub billing_response : Error → Error
billing_response no_usage = http 409
billing_response stripe_managed = http 409
billing_response not_payable = http 409
billing_response relative_url = http 409
billing_response e = e

-- `except export.ExportError`
abbrev pub export_response : Error → Error
export_response not_clean = http 409
export_response not_pending = http 409
export_response e = e

-- `except (export.ExportError, controls.ControlViolation)`
abbrev pub release_response : Error → Error
release_response (control_violation c) = http 409
release_response e = export_response e

abbrev pub user_ref : User → Ident
user_ref u = u.id

abbrev pub get_firm_or_404 : Ident → Action Firm
get_firm_or_404 = get_or_404 firm_ref (λ db. db.firms)

abbrev pub get_expert_or_404 : Ident → Action Expert
get_expert_or_404 = get_or_404 expert_ref (λ db. db.experts)

abbrev pub get_project_or_404 : Ident → Action Project
get_project_or_404 = get_or_404 project_ref (λ db. db.projects)
