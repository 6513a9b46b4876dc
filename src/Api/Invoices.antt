-- ===== src/Api/Invoices.antt =====
-- Usage, invoices, payments and reconciliation in src/factory/api/main.py.
pub mod Isolation
pub mod Overall
use human_data.Billing.Invoicing.{
  generate_invoice as billing_generate_invoice, firm_ref, invoice_ref,
}
use human_data.Billing.Payments.{
  record_external_payment as billing_record_external_payment, create_checkout, handle_stripe_event,
  Handled,
}
use human_data.Prelude.{
  ℕ, List, String, Bool, Option, ◌==◌, sum_of, all, ◌&&◌, not, order_by, ◌||◌, map, select, is_some,
}
use human_data.Model.Entities.{
  UsageEvent, Ident, Invoice, InvoiceNumber, Moment, StripeId, Url, Firm, LineItem, Reference,
}
use human_data.Config.{Env}
use human_data.Auth.{Credentials, Actor, require_roles, assert_firm_access}
use human_data.Billing.Reports.{
  Reconciliation, BillingSummary, firm_billing_summary, reconciliation_report,
}
use human_data.Model.Enums.{BillingMode, InvoiceStatus}
use human_data.Store.{Action, ◌>>◌, ◌>>=◌, gets, pure}
use human_data.Api.{
  get_firm_or_404, catching, internal, any_authenticated, get_or_404, billing_response,
}
use human_data.Billing.Gateway.{parse_webhook}

pub record UsageOut : Type 0 where
  pub id : Ident
  pub project_id : Ident
  pub task_id : Ident
  pub kind : String
  pub quantity : ℕ
  pub unit_price_cents : ℕ
  pub amount_cents : ℕ
  pub currency : String
  pub invoice_id : Option Ident
  pub created_at : Moment

pub record InvoiceOut : Type 0 where
  pub id : Ident
  pub number : InvoiceNumber
  pub firm_id : Ident
  pub mode : BillingMode
  pub status : InvoiceStatus
  pub period_start : Moment
  pub period_end : Moment
  pub subtotal_cents : ℕ
  pub currency : String
  pub line_items : List LineItem
  pub stripe_invoice_id : Option StripeId
  pub hosted_invoice_url : Option Url
  pub external_paid_reference : Option Reference
  pub issued_at : Option Moment
  pub paid_at : Option Moment

-- `_invoice_out`
abbrev pub invoice_out : Invoice → InvoiceOut
invoice_out inv = record {
  id = inv.id;
  number = inv.number;
  firm_id = inv.firm_id;
  mode = inv.mode;
  status = inv.status;
  period_start = inv.period_start;
  period_end = inv.period_end;
  subtotal_cents = inv.subtotal_cents;
  currency = inv.currency;
  line_items = inv.line_items;
  stripe_invoice_id = inv.stripe_invoice_id;
  hosted_invoice_url = inv.hosted_invoice_url;
  external_paid_reference = inv.external_paid_reference;
  issued_at = inv.issued_at;
  paid_at = inv.paid_at;
}

-- the actor and the firm of an endpoint under /firms/{firm_id} that clients may call
unfoldable pub own_firm : Env → Credentials → Ident → Action Firm
own_firm env credentials firm_id = do
  actor ← require_roles env credentials any_authenticated
  assert_firm_access actor firm_id
  get_firm_or_404 firm_id

unfoldable pub get_billing_summary : Env → Credentials → Ident → Action BillingSummary
unfolding own_firm
get_billing_summary env credentials firm_id = do
  firm ← own_firm env credentials firm_id
  gets (λ db. firm_billing_summary db firm)

abbrev usage_out : UsageEvent → UsageOut
usage_out e = record {
  id = e.id;
  project_id = e.project_id;
  task_id = e.task_id;
  kind = e.kind;
  quantity = e.quantity;
  unit_price_cents = e.unit_price_cents;
  amount_cents = e.amount_cents;
  currency = e.currency;
  invoice_id = e.invoice_id;
  created_at = e.created_at;
}

abbrev pub is_asked : Ident → Bool → UsageEvent → Bool
is_asked firm_id uninvoiced_only e =
    e.firm_id == firm_id && (not uninvoiced_only || not (is_some e.invoice_id))

unfoldable pub list_usage : Env → Credentials → Ident → Bool → Action (List UsageOut)
unfolding own_firm
list_usage env credentials firm_id uninvoiced_only = do
  own_firm env credentials firm_id
  rows ← gets (λ db.
      order_by (λ (e : UsageEvent). e.created_at)
        (select (is_asked firm_id uninvoiced_only) db.usage_events))
  pure (map usage_out rows)

unfoldable pub generate_invoice : Env → Credentials → Ident → Moment → Moment → Action InvoiceOut
generate_invoice env credentials firm_id period_start period_end = do
  actor ← require_roles env credentials internal
  firm ← get_firm_or_404 firm_id
  inv ←
      catching billing_response (billing_generate_invoice env firm period_start period_end actor.id)
  pure (invoice_out inv)

unfoldable pub list_invoices : Env → Credentials → Ident → Action (List InvoiceOut)
unfolding own_firm
list_invoices env credentials firm_id = do
  own_firm env credentials firm_id
  rows ← gets (λ db.
      order_by (λ (i : Invoice). i.created_at)
        (select (λ (i : Invoice). i.firm_id == firm_id) db.invoices))
  pure (map invoice_out rows)

-- the actor and the invoice of an endpoint under /invoices/{invoice_id} that clients may call
unfoldable pub own_invoice : Env → Credentials → Ident → Action (Actor × Invoice)
own_invoice env credentials invoice_id = do
  actor ← require_roles env credentials any_authenticated
  inv ← get_or_404 invoice_ref (λ db. db.invoices) invoice_id
  assert_firm_access actor inv.firm_id
  pure (actor, inv)

unfoldable pub get_invoice : Env → Credentials → Ident → Action InvoiceOut
unfolding own_invoice
get_invoice env credentials invoice_id = do
  owned ← own_invoice env credentials invoice_id
  pure (invoice_out owned.1)

pub record CheckoutOut : Type 0 where
  pub invoice_id : Ident
  pub checkout_session_id : Option StripeId
  pub checkout_url : Url

unfoldable pub create_invoice_checkout :
    Env → Credentials → Ident → String → String → Action CheckoutOut
unfolding own_invoice
create_invoice_checkout env credentials invoice_id success_url cancel_url = do
  owned ← own_invoice env credentials invoice_id
  firm ← get_firm_or_404 owned.1.firm_id
  opened ←
      catching billing_response (create_checkout env owned.1 firm success_url cancel_url owned.0.id)
  pure (record {
    invoice_id = opened.0.id;
    checkout_session_id = opened.0.checkout_session_id;
    checkout_url = opened.1;
  })

unfoldable pub record_external_payment : Env → Credentials → Ident → String → Action InvoiceOut
record_external_payment env credentials invoice_id reference = do
  actor ← require_roles env credentials internal
  inv ← get_or_404 invoice_ref (λ db. db.invoices) invoice_id
  paid_invoice ←
      catching billing_response (billing_record_external_payment env inv reference actor.id)
  pure (invoice_out paid_invoice)

unfoldable pub firm_reconciliation :
    Env → Credentials → Ident → Option Moment → Option Moment → Action Reconciliation
unfolding own_firm
firm_reconciliation env credentials firm_id period_start period_end = do
  firm ← own_firm env credentials firm_id
  gets (λ db. reconciliation_report db firm period_start period_end)

-- `totals`
pub record Totals : Type 0 where
  pub metered_cents : ℕ
  pub metered_uninvoiced_cents : ℕ
  pub invoiced_cents : ℕ
  pub paid_cents : ℕ
  pub outstanding_cents : ℕ

pub record GlobalOut : Type 0 where
  pub firms : List Reconciliation
  pub totals : Totals
  pub all_clean : Bool

unfoldable pub summarise : List Reconciliation → GlobalOut
summarise reports = record {
  firms = reports;
  totals = record {
    metered_cents = sum_of (λ (r : Reconciliation). r.metered_cents) reports;
    metered_uninvoiced_cents = sum_of (λ (r : Reconciliation). r.metered_uninvoiced_cents) reports;
    invoiced_cents = sum_of (λ (r : Reconciliation). r.invoiced_cents) reports;
    paid_cents = sum_of (λ (r : Reconciliation). r.paid_cents) reports;
    outstanding_cents = sum_of (λ (r : Reconciliation). r.outstanding_cents) reports;
  };
  all_clean = all (λ (r : Reconciliation). r.clean) reports;
}

unfoldable pub global_reconciliation :
    Env → Credentials → Option Moment → Option Moment → Action GlobalOut
unfolding summarise
global_reconciliation env credentials period_start period_end = do
  require_roles env credentials internal
  gets (λ db.
      summarise (map (λ (f : Firm). reconciliation_report db f period_start period_end) db.firms))

unfoldable pub stripe_webhook : Env → String → Option String → Action Handled
stripe_webhook env payload signature = do
  event ← parse_webhook env payload signature
  handle_stripe_event env event
