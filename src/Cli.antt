-- ===== src/Cli.antt =====
-- src/factory/cli.py: the commands that work on the tables. A command is one session; what it commits
-- before it fails stays. An id or a name that is typed is the number that it is kept as, a date its
-- moment.
pub mod Commands
pub mod Demo
pub mod Kept
use human_data.Model.Entities.{
  Ident, Moment, InvoiceNumber, LineItem, Url, Invoice, ExportBatch, Project, Firm, User, ident,
}
use human_data.Config.{Env}
use human_data.Prelude.{
  Option, ℕ, List, Bool, String, none, if◌then◌else◌, ltb, some, length, true, ◌++◌, ◌∷◌, [],
}
use human_data.Model.Enums.{InvoiceStatus, admin}
use human_data.Store.{
  Db, find, Result, Error, Action, err, ◌>>=◌, ok, new_id, gets, ◌>>◌, modify, pure,
}
use human_data.Model.Json.{get, Json, field, text, end}
use human_data.Export.{Report, control_report, request_export}
use human_data.Export.Materialize.{Outside, approve_and_materialize}
use human_data.Api.Accounts.{KeyOut}
use human_data.Audit.{verify_chain, record_event}
use human_data.Billing.Invoicing.{generate_invoice}
use human_data.Auth.{issue_key}

-- How a command ends: with what it prints, with an exit code after a message, or with an exception.
pub data Outcome (A : Type 0) : Type 0 where
  prints : A → Outcome A
  exits : ℕ → Outcome A
  fails : Error → Outcome A

-- the print of a result, and the tables: those before where it is an exception
abbrev pub ends : {A : Type 0} {B : Type 0} → (A → B) → Db → Result (A × Db) → Outcome B × Db
ends show db (err e) = (fails e, db)
ends show db (ok (a, after)) = (prints (show a), after)

-- a row that is looked up: the command exits where it is not found
abbrev pub or_exit :
    {A : Type 0} {B : Type 0} → Option A → Db → (A → Outcome B × Db) → Outcome B × Db
or_exit none db rest = (exits 1, db)
or_exit (some a) db rest = rest a

-- `verify_audit`: the exit code, and what is printed
unfoldable pub verify_audit : Env → Db → ℕ × (Bool × ℕ)
verify_audit env db =
    let chain = verify_chain env db.audit_events in ((if chain.0 then 0 else 1), chain)

-- `control_report`
unfoldable pub show_control_report : Env → Ident → Db → Outcome Report
show_control_report env project_id db = elim (find (λ (p : Project). p.id) project_id db.projects) [
  | none ↦ exits 1
  | some p ↦ prints (control_report env db p)
]

pub record Exported : Type 0 where
  pub batch_id : Ident
  pub path : Option String
  pub records : Option Json

abbrev pub exported : ExportBatch → Exported
exported batch = record {
  batch_id = batch.id;
  path = batch.path;
  records = get "record_count" batch.manifest;
}

-- `approve_and_materialize` after `request_export`, which has committed
abbrev pub then_approve :
    Env → Outside → Ident → Db → Result (ExportBatch × Db) → Outcome Exported × Db
then_approve env outside approved_by db (err e) = (fails e, db)
then_approve env outside approved_by db (ok (batch, requested)) =
    ends exported requested (approve_and_materialize env outside batch approved_by requested)

-- `export`
unfoldable pub export_dataset : Env → Outside → Ident → Ident → Ident → Db → Outcome Exported × Db
export_dataset env outside project_id requested_by approved_by db =
    or_exit (find (λ (p : Project). p.id) project_id db.projects) db
      λ p. then_approve env outside approved_by db (request_export env p requested_by db)

-- the part of `bootstrap_admin` from the new row to the commit
unfoldable pub add_admin : Env → String → String → String → Action KeyOut
add_admin env name email secret = do
  id ← new_id
  now ← gets (λ db. db.clock)
  let user : User = record {
    id = id;
    name = name;
    email = email;
    role = admin;
    firm_id = none;
    expert_id = none;
    active = true;
    created_at = now;
  }
  modify (λ db. record db { users = db.users ++ user ∷ [] })
  key ← issue_key env user secret
  record_event env (ident user.id) "user.bootstrapped" "user" user.id
      (field "email" (text email) end)
  pure (record { user_id = user.id; api_key = key })

abbrev pub as_is : {A : Type 0} → A → A
as_is a = a

-- `bootstrap_admin`
unfoldable pub bootstrap_admin : Env → String → String → String → Db → Outcome KeyOut × Db
unfolding add_admin
bootstrap_admin env name email secret db =
    if ltb 0 (length db.users)
    then (exits 1, db)
    else ends as_is db (add_admin env name email secret db)

pub record Invoiced : Type 0 where
  pub invoice : InvoiceNumber
  pub status : InvoiceStatus
  pub subtotal_cents : ℕ
  pub line_items : List LineItem
  pub hosted_invoice_url : Option Url

abbrev pub invoiced : Invoice → Invoiced
invoiced inv = record {
  invoice = inv.number;
  status = inv.status;
  subtotal_cents = inv.subtotal_cents;
  line_items = inv.line_items;
  hosted_invoice_url = inv.hosted_invoice_url;
}

-- `invoice`
unfoldable pub invoice : Env → Ident → Moment → Moment → Ident → Db → Outcome Invoiced × Db
invoice env firm_id period_start period_end issued_by db =
    or_exit (find (λ (f : Firm). f.id) firm_id db.firms) db
      λ firm. ends invoiced db (generate_invoice env firm period_start period_end issued_by db)
