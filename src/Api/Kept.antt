-- ===== src/Api/Kept.antt =====
-- The endpoints of src/factory/api/main.py that commit keep an invariant of the tables.
use human_data.Billing.Kept.{
  generate_invoice-Keeps as billing_generate_invoice-Keeps,
  record_external_payment-Keeps as billing_record_external_payment-Keeps, create_checkout-Keeps,
  handle_stripe_event-Keeps,
}
use human_data.Export.{request_export as export_request_export}
use human_data.Export.Materialize.{approve_and_materialize, Outside}
use human_data.Api.Oversight.{request_export, approve_export}
use human_data.Api.Invoices.{
  generate_invoice, record_external_payment, create_invoice_checkout, own_invoice, stripe_webhook,
}
use human_data.Qc.Engine.Kept.{submit-Keeps, review_by_human-Keeps}
use human_data.Store.{Db, Error, Action, Result, new_id, ok, err, modify}
use human_data.Config.{Env}
use human_data.Billing.Invariant.{Invariant}
use human_data.Api.{get_or_404, catching, caught}
use human_data.Api.Experts.{record_exam, create_expert, ExpertIn, ExamIn}
use human_data.Auth.{
  issue_key, assert_firm_access, Credentials, resolve, require_roles, add_key, Actor, resolve_token,
}
use human_data.Api.Accounts.{
  check_expert, bootstrap, check_firm, revoke_user, add_user, create_user, deactivate, UserIn,
  BootstrapIn,
}
use human_data.Api.Firms.{create_rate_card, create_firm, replace_card, FirmIn, RateCardIn}
use human_data.Api.Submissions.{post_human_review, create_submission, SubmissionIn, HumanReviewIn}
use human_data.Model.Entities.{Project, Ident, Moment, ExportBatch, User, Principal}
use human_data.Api.Projects.{create_task, create_project, assign_task, TaskIn, ProjectIn}
use human_data.Store.Keeps.{Keeps, keeps_rules, Holds, Keeps-pure}
use human_data.Billing.Gateway.{parse_webhook, live_parse_webhook, fake_parse_webhook}
use human_data.Controls.{assert_export_dual_control, assert_qualified}
use human_data.Prelude.{String, List, Option, some, none, ◌≡◌}
use human_data.Model.Enums.{Role}
use human_data.Model.Json.{Fields}
use human_data.Audit.{record_event}

module _ {A : Type 0} where
  caught-Holds :
      (P : Db → Type 0) (f : Error → Error) (r : Result (A × Db)) → Holds P r → Holds P (caught f r)
  caught-Holds P f (ok r) h = h
  caught-Holds P f (err e) h = tt

module _ {A : Type 0} {P : Db → Type 0} where
  pub catching-Keeps : (f : Error → Error) (m : Action A) → Keeps P m → Keeps P (catching f m)
  unfolding catching
  catching-Keeps f m k = record { at = λ db h. caught-Holds P f (m db) (k.at db h) }

  get_or_404-Keeps :
      (id_of : A → Ident) (rows : Db → List A) (id : Ident) → Keeps P (get_or_404 id_of rows id)
  unfolding get_or_404
  get_or_404-Keeps id_of rows id = search keeps_rules depth 8

-- What an invariant has to be kept by besides.
pub record Registers (P : Db → Type 0) : Type 0 where
  pub keeps_replace_card :
      (firm_id : Ident) (body : RateCardIn) → Keeps P (replace_card firm_id body)
  pub keeps_add_user :
      (name email : String) (role : Role) (firm_id expert_id : Option Ident)
      → Keeps P (add_user name email role firm_id expert_id)
  pub keeps_deactivate : (user : User) → Keeps P (deactivate user)

module _ (env : Env) (P : Db → Type 0) (inv : Invariant env P) (reg : Registers P) where
  new_id-Keeps : Keeps P new_id
  new_id-Keeps = inv.keeps_new_id

  event-Keeps :
      (actor : Principal) (action entity_type : String) (entity_id : Ident) (payload : Fields)
      → Keeps P (record_event env actor action entity_type entity_id payload)
  event-Keeps = inv.keeps_record_event

  write-Keeps :
      (f : Db → Db)
      → ((db : Db) → (f db).audit_events ≡ db.audit_events)
      → ((db : Db) → (f db).usage_events ≡ db.usage_events)
      → ((db : Db) → (f db).rate_cards ≡ db.rate_cards)
      → ((db : Db) → (f db).users ≡ db.users)
      → Keeps P (modify f)
  write-Keeps = inv.keeps_write

  ruleset api_writes =
      (keeps_rules, new_id-Keeps, event-Keeps, catching-Keeps, get_or_404-Keeps, write-Keeps)

  resolve-Keeps : (credentials : Credentials) → Keeps P (resolve env credentials)
  unfolding resolve resolve_token
  resolve-Keeps credentials = search api_writes depth 24

  require_roles-Keeps :
      (credentials : Credentials) (allowed : List Role)
      → Keeps P (require_roles env credentials allowed)
  unfolding require_roles
  require_roles-Keeps credentials allowed = search (keeps_rules, resolve-Keeps) depth 24

  assert_firm_access-Keeps :
      (actor : Actor) (firm_id : Ident) → Keeps P (assert_firm_access actor firm_id)
  unfolding assert_firm_access
  assert_firm_access-Keeps actor firm_id = search keeps_rules depth 8

  pub issue_key-Keeps : (user : User) (secret : String) → Keeps P (issue_key env user secret)
  unfolding issue_key add_key
  issue_key-Keeps user secret = search api_writes depth 24

  add_user-Keeps :
      (name email : String) (role : Role) (firm_id expert_id : Option Ident)
      → Keeps P (add_user name email role firm_id expert_id)
  add_user-Keeps = reg.keeps_add_user

  deactivate-Keeps : (user : User) → Keeps P (deactivate user)
  deactivate-Keeps = reg.keeps_deactivate

  replace_card-Keeps : (firm_id : Ident) (body : RateCardIn) → Keeps P (replace_card firm_id body)
  replace_card-Keeps = reg.keeps_replace_card

  ruleset api_steps = (
    api_writes, require_roles-Keeps, assert_firm_access-Keeps, issue_key-Keeps, add_user-Keeps,
    deactivate-Keeps, replace_card-Keeps,
  )

  pub bootstrap-Keeps : (body : BootstrapIn) (secret : String) → Keeps P (bootstrap env body secret)
  unfolding bootstrap
  bootstrap-Keeps body secret = search api_steps depth 24

  check_firm-Keeps : (id : Option Ident) → Keeps P (check_firm id)
  unfolding check_firm
  check_firm-Keeps none = Keeps-pure tt
  check_firm-Keeps (some id) = search api_steps depth 24

  check_expert-Keeps : (id : Option Ident) → Keeps P (check_expert id)
  unfolding check_expert
  check_expert-Keeps none = Keeps-pure tt
  check_expert-Keeps (some id) = search api_steps depth 24

  pub create_user-Keeps :
      (c : Credentials) (body : UserIn) (secret : String) → Keeps P (create_user env c body secret)
  unfolding create_user
  create_user-Keeps c body secret =
      search (api_steps, check_firm-Keeps, check_expert-Keeps) depth 40

  pub revoke_user-Keeps : (c : Credentials) (id : Ident) → Keeps P (revoke_user env c id)
  unfolding revoke_user
  revoke_user-Keeps c id = search api_steps depth 24

  pub create_firm-Keeps : (c : Credentials) (body : FirmIn) → Keeps P (create_firm env c body)
  unfolding create_firm
  create_firm-Keeps c body = search api_steps depth 40

  pub create_rate_card-Keeps :
      (c : Credentials) (id : Ident) (body : RateCardIn) → Keeps P (create_rate_card env c id body)
  unfolding create_rate_card
  create_rate_card-Keeps c id body = search api_steps depth 40

  pub create_expert-Keeps : (c : Credentials) (body : ExpertIn) → Keeps P (create_expert env c body)
  unfolding create_expert
  create_expert-Keeps c body = search api_steps depth 40

  pub record_exam-Keeps :
      (c : Credentials) (id : Ident) (body : ExamIn) → Keeps P (record_exam env c id body)
  unfolding record_exam
  record_exam-Keeps c id body = search api_steps depth 40

  pub create_project-Keeps :
      (c : Credentials) (body : ProjectIn) → Keeps P (create_project env c body)
  unfolding create_project
  create_project-Keeps c body = search api_steps depth 40

  pub create_task-Keeps :
      (c : Credentials) (id : Ident) (body : TaskIn) → Keeps P (create_task env c id body)
  unfolding create_task
  create_task-Keeps c id body = search api_steps depth 40

  pub assign_task-Keeps :
      (c : Credentials) (task_id expert_id : Ident) → Keeps P (assign_task env c task_id expert_id)
  unfolding assign_task assert_qualified
  assign_task-Keeps c task_id expert_id = search api_steps depth 40

  pub create_submission-Keeps :
      (c : Credentials) (id : Ident) (body : SubmissionIn)
      → Keeps P (create_submission env c id body)
  unfolding create_submission
  create_submission-Keeps c id body = search (api_steps, submit-Keeps env P inv) depth 40

  pub post_human_review-Keeps :
      (c : Credentials) (id : Ident) (body : HumanReviewIn)
      → Keeps P (post_human_review env c id body)
  unfolding post_human_review
  post_human_review-Keeps c id body = search (api_steps, review_by_human-Keeps env P inv) depth 40

  pub generate_invoice-Keeps :
      (c : Credentials) (id : Ident) (s e : Moment) → Keeps P (generate_invoice env c id s e)
  unfolding generate_invoice
  generate_invoice-Keeps c id s e =
      search (api_steps, billing_generate_invoice-Keeps env P inv) depth 40

  pub create_invoice_checkout-Keeps :
      (c : Credentials) (id : Ident) (s t : String) → Keeps P (create_invoice_checkout env c id s t)
  unfolding create_invoice_checkout own_invoice
  create_invoice_checkout-Keeps c id s t =
      search (api_steps, create_checkout-Keeps env P inv) depth 40

  pub record_external_payment-Keeps :
      (c : Credentials) (id : Ident) (r : String) → Keeps P (record_external_payment env c id r)
  unfolding record_external_payment
  record_external_payment-Keeps c id r =
      search (api_steps, billing_record_external_payment-Keeps env P inv) depth 40

  pub stripe_webhook-Keeps :
      (payload : String) (signature : Option String)
      → Keeps P (stripe_webhook env payload signature)
  unfolding stripe_webhook parse_webhook live_parse_webhook fake_parse_webhook
  stripe_webhook-Keeps payload signature =
      search (api_steps, handle_stripe_event-Keeps env P inv) depth 40

  -- The two of the export.
  pub export_request_export-Keeps :
      (project : Project) (by : Ident) → Keeps P (export_request_export env project by)
  unfolding export_request_export
  export_request_export-Keeps project by = search api_writes depth 24

  pub request_export-Keeps : (c : Credentials) (id : Ident) → Keeps P (request_export env c id)
  unfolding request_export
  request_export-Keeps c id = search (api_steps, export_request_export-Keeps) depth 40

  pub approve_and_materialize-Keeps :
      (outside : Outside) (batch : ExportBatch) (by : Ident)
      → Keeps P (approve_and_materialize env outside batch by)
  unfolding approve_and_materialize assert_export_dual_control
  approve_and_materialize-Keeps outside batch by = search api_writes depth 24

  pub approve_export-Keeps :
      (outside : Outside) (c : Credentials) (id by : Ident)
      → Keeps P (approve_export env outside c id by)
  unfolding approve_export
  approve_export-Keeps outside c id by = search (api_steps, approve_and_materialize-Keeps) depth 40
