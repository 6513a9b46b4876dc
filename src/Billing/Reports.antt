-- ===== src/Billing/Reports.antt =====
-- `reconciliation_report` and `firm_billing_summary` of src/factory/billing/service.py.
pub mod TieOut
pub mod Window
pub mod AfterInvoice
use human_data.Model.Enums.{
  InvoiceStatus, is_void, issued_external, opened, is_paid, invoice_status_eq, draft, paid, void,
}
use human_data.Store.{Db}
use human_data.Model.Entities.{Invoice, UsageEvent, Ident, Firm, Moment}
use human_data.Prelude.{
  ℕ, Option, List, ◌+◌, ◌∷◌, sum_of, Bool, ◌∷◌, if◌then◌else◌, none, [], is_some, select, true,
  some, not, false, ◌==◌, ◌&&◌, leb, ltb, length, ◌-◌, order_by,
}

-- `period_start` and `period_end` bound a moment where they are given
unfoldable pub in_window : Option Moment → Option Moment → Moment → Bool
in_window period_start period_end at =
    elim period_start [ none ↦ true | some s ↦ leb s at ]
    && elim period_end [ none ↦ true | some e ↦ ltb at e ]

pub record ProjectRow : Type 0 where
  pub project_id : Ident
  pub metered_cents : ℕ
  pub invoiced_cents : ℕ
  pub uninvoiced_cents : ℕ
  pub records : ℕ

pub record Reconciliation : Type 0 where
  pub firm_id : Ident
  pub metered_cents : ℕ
  pub metered_invoiced_cents : ℕ
  pub metered_uninvoiced_cents : ℕ
  pub invoiced_cents : ℕ
  pub paid_cents : ℕ
  pub outstanding_cents : ℕ
  pub voided_cents : ℕ
  pub invoiced_not_paid_cents : ℕ
  pub per_project : List ProjectRow
  pub clean : Bool

abbrev pub amount : UsageEvent → ℕ
amount e = e.amount_cents

abbrev pub subtotal : Invoice → ℕ
subtotal i = i.subtotal_cents

abbrev pub invoiced : UsageEvent → Bool
invoiced e = is_some e.invoice_id

abbrev pub is_outstanding : InvoiceStatus → Bool
is_outstanding issued_external = true
is_outstanding opened = true
is_outstanding _ = false

abbrev with_usage : UsageEvent → ProjectRow → ProjectRow
with_usage e row = record row {
  metered_cents = row.metered_cents + e.amount_cents;
  records = row.records + e.quantity;
  invoiced_cents = row.invoiced_cents + (if invoiced e then e.amount_cents else 0);
  uninvoiced_cents = row.uninvoiced_cents + (if invoiced e then 0 else e.amount_cents);
}

abbrev empty_row : Ident → ProjectRow
empty_row project_id = record {
  project_id = project_id;
  metered_cents = 0;
  invoiced_cents = 0;
  uninvoiced_cents = 0;
  records = 0;
}

-- `per_project.setdefault(…)` and the sums
unfoldable pub add_usage : List ProjectRow → UsageEvent → List ProjectRow
add_usage [] e = with_usage e (empty_row e.project_id) ∷ []
add_usage (row ∷ rows) e =
    let rest = add_usage rows e in
    if row.project_id == e.project_id then with_usage e row ∷ rows else row ∷ rest

unfoldable pub per_project_rows : List ProjectRow → List UsageEvent → List ProjectRow
unfolding add_usage
per_project_rows rows [] = rows
per_project_rows rows (e ∷ events) = per_project_rows (add_usage rows e) events

unfoldable pub events_of : Db → Ident → Option Moment → Option Moment → List UsageEvent
unfolding in_window
events_of db firm_id period_start period_end =
    select (λ e. e.firm_id == firm_id && in_window period_start period_end e.created_at)
      db.usage_events

unfoldable pub invoices_of : Db → Ident → Option Moment → Option Moment → List Invoice
unfolding in_window
invoices_of db firm_id period_start period_end =
    select (λ i. i.firm_id == firm_id && in_window period_start period_end i.created_at) db.invoices

-- the report over the rows that the two queries give
unfoldable pub reconcile : Ident → List UsageEvent → List Invoice → Reconciliation
unfolding per_project_rows
reconcile firm_id events invoices =
    let metered = sum_of amount events in
    let metered_invoiced = sum_of amount (select invoiced events) in
    let issued = sum_of subtotal (select (λ i. not (is_void i.status)) invoices) in
    let paid_total = sum_of subtotal (select (λ i. is_paid i.status) invoices) in
    record {
      firm_id = firm_id;
      metered_cents = metered;
      metered_invoiced_cents = metered_invoiced;
      metered_uninvoiced_cents = metered - metered_invoiced;
      invoiced_cents = issued;
      paid_cents = paid_total;
      outstanding_cents = sum_of subtotal (select (λ i. is_outstanding i.status) invoices);
      voided_cents = sum_of subtotal (select (λ i. is_void i.status) invoices);
      invoiced_not_paid_cents = issued - paid_total;
      per_project = order_by (λ r. r.project_id) (per_project_rows [] events);
      clean = metered - metered_invoiced == 0 && metered_invoiced == issued;
    }

unfoldable pub reconciliation_report : Db → Firm → Option Moment → Option Moment → Reconciliation
unfolding reconcile events_of invoices_of
reconciliation_report db firm period_start period_end =
    reconcile firm.id (events_of db firm.id period_start period_end)
      (invoices_of db firm.id period_start period_end)

-- the row of a status in `invoices_by_status`
pub record StatusRow : Type 0 where
  pub status : InvoiceStatus
  pub amount_cents : ℕ
  pub count : ℕ

-- `group_by(Invoice.status)`: one row for each status that an invoice of the firm has
abbrev status_rows : List InvoiceStatus → List Invoice → List StatusRow
status_rows [] invoices = []
status_rows (status ∷ more) invoices =
    let rest = status_rows more invoices in
    let rows = select (λ (i : Invoice). invoice_status_eq i.status status) invoices in
    if length rows == 0
    then rest
    else record { status = status; amount_cents = sum_of subtotal rows; count = length rows } ∷ rest

abbrev all_statuses : List InvoiceStatus
all_statuses = draft ∷ issued_external ∷ opened ∷ paid ∷ void ∷ []

pub record BillingSummary : Type 0 where
  pub uninvoiced_cents : ℕ
  pub uninvoiced_events : ℕ
  pub invoices_by_status : List StatusRow
  pub outstanding_cents : ℕ

-- `firm_billing_summary`; the order of the statuses is not the database's
unfoldable pub firm_billing_summary : Db → Firm → BillingSummary
firm_billing_summary db firm =
    let uninvoiced =
      select (λ e. e.firm_id == firm.id && not (is_some e.invoice_id)) db.usage_events in
    record {
      uninvoiced_cents = sum_of amount uninvoiced;
      uninvoiced_events = length uninvoiced;
      invoices_by_status =
          status_rows all_statuses (select (λ i. i.firm_id == firm.id) db.invoices);
      outstanding_cents =
          sum_of subtotal
            (select (λ i. i.firm_id == firm.id && is_outstanding i.status) db.invoices);
    }
