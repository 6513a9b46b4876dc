-- ===== src/Examples/Access.antt =====
-- The keys, the roles and the endpoints of src/factory/auth.py and src/factory/api/main.py on the rows
-- of Data.
use human_data.Api.Oversight.{approve_export}
use human_data.Api.Invoices.{
  get_invoice, list_invoices, firm_reconciliation, global_reconciliation, InvoiceOut, GlobalOut,
  summarise,
}
use human_data.Api.Projects.{get_task, assign_task}
use human_data.Api.Firms.{create_rate_card, RateCardIn}
use human_data.Model.Entities.{RateCard, released, ExportBatch, pending_approval}
use human_data.Api.Submissions.{HumanReviewIn, SubmissionIn, create_submission, post_human_review}
use human_data.Store.{Result, Db, returned, err, http}
use human_data.Api.Accounts.{revoke_user, bootstrap, BootstrapIn}
use human_data.Store.Ensures.{Ensures}
use human_data.Auth.{issue_key, require_roles, resolve, bearer_of, actor_of}
use human_data.Export.Materialize.{Outside}
use human_data.Store.Raises.{Raises}
use human_data.Factory.{Request, creates_rate_card, serve, later, here, serves}
use human_data.Factory.Registry.{HasOneCard, Reach-HasOneCard, Reach-bootstrap}
use human_data.Examples.Data.{
  empty_db, praising, crowded_db, good_content, tables_of, lease_task, invoice_of, by_cleo, by_ada,
  by_opal, opal, ada, value_of, first_try, usage_of,
}
use human_data.Model.Enums.{sft, pass, issued_external, expert, reviewer, approved, human_review}
use human_data.Prelude.{
  none, String, ◌≡◌, false, [], true, some, arith, ◌∷◌, All, ◌≢◌, refl, strip, remove_prefix,
  length,
}
use human_data.Model.Json.{end}
use human_data.Api.{get_or_404, internal, submit_roles, review_roles}
use human_data.Api.Submissions.Themselves.{ActsFor, submitted_by_themselves}
use human_data.Api.Invoices.Isolation.{MayAccess, invoices_shown}
use human_data.Api.Projects.Blind.{without_answers, get_task-without_answers}
use human_data.Api.Oversight.Release.{IsReleasedByAnother, approve_export-IsReleasedByAnother}
use human_data.Audit.{record_event}
use human_data.Api.Projects.Assigned.{MayWork, IsAssigned, assign_task-IsAssigned}
use human_data.Billing.Metering.{resolve_unit_price_cents}
use human_data.Auth.Access.{IsAuthorised, OnlyKeys, require_roles-IsAuthorised}
use human_data.Api.Invoices.Overall.{TiesOut, global_reconciliation-TiesOut}
use human_data.Api.Firms.Prices.{create_rate_card-resolve_unit_price_cents}
use human_data.Auth.Keys.{issue_key-resolve}
use human_data.Api.Accounts.Revoked.{revoke_user-resolve}
use human_data.Billing.Reports.{reconciliation_report}

abbrev user_db : Db
user_db = record empty_db { users = opal ∷ [] }

abbrev issued : Result (String × Db)
issued = issue_key praising opal "secret" user_db

issue_key-resolve_example :
    returned (resolve praising (bearer_of "hdf_secret" none) (tables_of issued))
    ≡ some (actor_of opal)
unfolding issue_key
issue_key-resolve_example =
    issue_key-resolve praising opal "secret" "hdf_secret" user_db (tables_of issued) none refl refl
      refl refl refl

require_roles-IsAuthorised_example :
    Ensures (require_roles praising by_opal internal) crowded_db (λ actor db'.
      IsAuthorised praising by_opal internal crowded_db actor × OnlyKeys crowded_db db')
require_roles-IsAuthorised_example =
    require_roles-IsAuthorised praising by_opal internal crowded_db refl

abbrev revoked_db : Db
revoked_db = tables_of (revoke_user praising by_ada 60 crowded_db)

-- Ada revokes Opal, and is herself still let in.
revoke_user-resolve_example : (actor_of ada).id ≢ 60
unfolding revoke_user require_roles resolve get_or_404 record_event strip remove_prefix
revoke_user-resolve_example =
    revoke_user-resolve praising by_ada by_ada 60 60 crowded_db revoked_db (actor_of ada) refl refl
      refl

abbrev new_price : RateCardIn
new_price = record { task_type = sft; unit_price_cents = 9900 }

abbrev priced : Result (RateCard × Db)
priced = create_rate_card praising by_ada 1 new_price crowded_db

abbrev no_card : RateCard
no_card = record {
  id = 0;
  firm_id = none;
  task_type = sft;
  unit_price_cents = 0;
  active = false;
  created_at = 0;
}

create_rate_card-resolve_unit_price_cents_example :
    resolve_unit_price_cents praising (tables_of priced).rate_cards 1 sft ≡ 9900
unfolding create_rate_card require_roles get_or_404 record_event strip remove_prefix
create_rate_card-resolve_unit_price_cents_example =
    create_rate_card-resolve_unit_price_cents praising by_ada 1 1 new_price sft crowded_db
      (tables_of priced) (value_of no_card priced) refl

assign_task-IsAssigned_example :
    Ensures
      (assign_task praising by_opal 5 2)
      crowded_db
      (λ out db'. MayWork crowded_db 5 2 × IsAssigned db' 5 2)
assign_task-IsAssigned_example = assign_task-IsAssigned praising by_opal 5 2 crowded_db

abbrev gold_db : Db
gold_db = record crowded_db {
  tasks = record lease_task { is_gold = true; gold_answer = some good_content } ∷ [];
}

get_task-without_answers_example :
    returned
      (get_task praising by_cleo 5 (record gold_db { tasks = without_answers gold_db.tasks }))
    ≡ returned (get_task praising by_cleo 5 gold_db)
get_task-without_answers_example = get_task-without_answers praising by_cleo 5 gold_db

abbrev sent : SubmissionIn
sent = record { expert_id = 2; content = good_content }

abbrev given : HumanReviewIn
given = record { reviewer_id = 3; verdict = pass; criterion_scores = []; comments = "" }

abbrev waiting_db : Db
waiting_db = record crowded_db { submissions = record first_try { status = human_review } ∷ [] }

submitted_by_themselves_example :
    Ensures
      (create_submission praising by_opal 5 sent)
      waiting_db
      (λ out db'. ActsFor praising by_opal submit_roles expert 2 waiting_db)
    × Ensures
        (post_human_review praising by_opal 6 given)
        waiting_db
        (λ out db'. ActsFor praising by_opal review_roles reviewer 3 waiting_db)
submitted_by_themselves_example =
    submitted_by_themselves praising by_opal 5 6 sent given waiting_db refl

abbrev client_db : Db
client_db = record crowded_db { invoices = invoice_of 1 issued_external ∷ [] }

invoices_shown_example :
    Ensures
      (get_invoice praising by_cleo 1)
      client_db
      (λ out db'. MayAccess praising by_cleo client_db out.firm_id)
    × Ensures (list_invoices praising by_cleo 1) client_db (λ out db'.
      MayAccess praising by_cleo client_db 1 × All (λ (i : InvoiceOut). i.firm_id ≡ 1) out)
    × Ensures
        (firm_reconciliation praising by_cleo 1 none none)
        client_db
        (λ out db'. MayAccess praising by_cleo client_db out.firm_id)
invoices_shown_example = invoices_shown praising by_cleo 1 none none client_db refl

-- one record that is metered and on an invoice
abbrev tidy_db : Db
tidy_db = record crowded_db {
  usage_events = usage_of 30 31 5 (some 40) ∷ [];
  invoices = invoice_of 40 issued_external ∷ [];
}

abbrev overall : Result (GlobalOut × Db)
overall = global_reconciliation praising by_opal none none tidy_db

abbrev no_overall : GlobalOut
no_overall = summarise []

global_reconciliation-TiesOut_example : TiesOut (value_of no_overall overall).totals
unfolding global_reconciliation require_roles strip remove_prefix reconciliation_report summarise
global_reconciliation-TiesOut_example =
    global_reconciliation-TiesOut praising by_opal none none tidy_db (tables_of overall)
      (value_of no_overall overall) refl refl

abbrev outside : Outside
outside = record { sha256_rows = length; base_path = λ id. "exports"; storage = none }

-- a batch that 9 requested, of one approved record with the reviews it needs
abbrev batch : ExportBatch
batch = record {
  id = 70;
  project_id = 4;
  requested_by = 9;
  approved_by = none;
  path = none;
  manifest = end;
  status = pending_approval;
  created_at = 0;
}

abbrev batch_db : Db
batch_db = record crowded_db {
  submissions = record first_try { status = approved } ∷ [];
  export_batches = batch ∷ [];
}

approve_export-IsReleasedByAnother_example :
    Ensures
      (approve_export praising outside by_opal 70 9)
      batch_db
      (λ out db'. IsReleasedByAnother praising by_opal batch_db 70 × (out.status ≡ released))
approve_export-IsReleasedByAnother_example =
    approve_export-IsReleasedByAnother praising outside by_opal 70 9 batch_db refl

abbrev card_request : Request
card_request = creates_rate_card by_ada 1 new_price

Reach-HasOneCard_example : HasOneCard (serve praising outside card_request crowded_db)
Reach-HasOneCard_example =
    Reach-HasOneCard praising outside crowded_db (serve praising outside card_request crowded_db)
      (λ firm_id t. omega arith)
      (later crowded_db crowded_db (serve praising outside card_request crowded_db)
        (here crowded_db) (serves crowded_db card_request))

abbrev intruder : BootstrapIn
intruder = record { name = "Eve"; email = "eve@example.com" }

Reach-bootstrap_example : bootstrap praising intruder "x" user_db ≡ err (http 409)
Reach-bootstrap_example =
    Reach-bootstrap praising outside user_db user_db intruder "x" (omega arith) (here user_db)
