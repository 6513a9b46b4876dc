-- ===== src/Billing/Reports/AfterInvoice.antt =====
-- The reconciliation of src/factory/billing/service.py after an invoice is generated.
use human_data.Billing.Reports.{
  events_of, reconciliation_report, invoices_of, amount, subtotal, invoiced, reconcile,
}
use human_data.Prelude.{
  List, all, ℕ, ◌≡◌, select, Bool, true, not, sum_of, ◌==◌, false, ◌||◌, ◌++◌, ◌&&◌, ◌∷◌, is_some,
  refl, leb, ◌+◌, [], ltb, arith, none, ap, ◌∙◌, sym,
}
use human_data.Model.Enums.{BillingMode, is_void, external, stripe}
use human_data.Billing.Invoicing.{attach, is_due, generate_invoice}
use human_data.Model.Entities.{Ident, Moment, Invoice, UsageEvent, Firm}
use human_data.Config.{Env}
use human_data.Store.{Db}
use human_data.Billing.Invoicing.Issue.{issued_status, IsBefore, Issued, generate_invoice-Issued}
use human_data.Billing.Reports.TieOut.{uninvoiced, reconcile-clean_iff}
use human_data.Store.Ensures.{Ensures, Ensures-mono}
use human_data.Billing.Invoicing.LineItems.{event_amount}

-- the firm's rows, as a report without a period reads them
abbrev pub events_for : Ident → List UsageEvent → List UsageEvent
events_for firm_id events = select (λ e. e.firm_id == firm_id && (true && true)) events

abbrev pub invoices_for : Ident → List Invoice → List Invoice
invoices_for firm_id invoices = select (λ i. i.firm_id == firm_id && (true && true)) invoices

-- the firm's usage that is not on an invoice was recorded in the period
abbrev pub in_period : Ident → Moment → Moment → UsageEvent → Bool
in_period firm_id s e ev =
    not (ev.firm_id == firm_id)
    || is_some ev.invoice_id
    || (leb s ev.created_at && ltb ev.created_at e)

attach-sums :
    (id firm_id : Ident) (s e : Moment) (events : List UsageEvent)
    → all (in_period firm_id s e) events ≡ true
    → let after = events_for firm_id (attach id (is_due firm_id s e) events) in
      (sum_of amount (select uninvoiced after) ≡ 0)
      × (sum_of amount after
          ≡ sum_of amount (select invoiced (events_for firm_id events))
            + sum_of event_amount (select (is_due firm_id s e) events))
unfolding attach is_due
attach-sums id firm_id s e [] h = (refl, refl)
attach-sums id firm_id s e (ev ∷ events) h = ground (arith, attach-sums id firm_id s e events)

abbrev pub issued_total : List Invoice → ℕ
issued_total invoices = sum_of subtotal (select (λ i. not (is_void i.status)) invoices)

invoices_for-append :
    (firm_id : Ident) (invoices : List Invoice) (invoice : Invoice)
    → invoice.firm_id ≡ firm_id
    → is_void invoice.status ≡ false
    → issued_total (invoices_for firm_id (invoices ++ invoice ∷ []))
      ≡ issued_total (invoices_for firm_id invoices) + invoice.subtotal_cents
invoices_for-append firm_id [] invoice f v = ground arith
invoices_for-append firm_id (x ∷ xs) invoice f v =
    ground (arith, invoices_for-append firm_id xs invoice f v)

issued_status_lem : (mode : BillingMode) → is_void (issued_status mode) ≡ false
issued_status_lem external = refl
issued_status_lem stripe = refl

report_lem :
    (firm_id : Ident) (db : Db)
    → sum_of amount (select uninvoiced (events_for firm_id db.usage_events)) ≡ 0
    → sum_of amount (events_for firm_id db.usage_events)
      ≡ issued_total (invoices_for firm_id db.invoices)
    → (reconcile firm_id (events_of db firm_id none none) (invoices_of db firm_id none none)).clean
      ≡ true
unfolding events_of invoices_of
report_lem firm_id db u t =
    (reconcile-clean_iff firm_id (events_for firm_id db.usage_events)
        (invoices_for firm_id db.invoices)).1
      (u, t)

-- Where the ids of the invoices were drawn before, what is invoiced agreed with the invoices of the
-- firm, and the period of a new invoice covers all usage that was not on one, the firm's whole report
-- is clean after it.
pub generate_invoice-clean :
    (env : Env) (firm : Firm) (s e : Moment) (by : Ident) (db : Db)
    → IsBefore db.next_id db.invoices
    → all (in_period firm.id s e) db.usage_events ≡ true
    → sum_of amount (select invoiced (events_for firm.id db.usage_events))
      ≡ issued_total (invoices_for firm.id db.invoices)
    → Ensures
        (generate_invoice env firm s e by)
        db
        (λ invoice after. (reconciliation_report after firm none none).clean ≡ true)
unfolding reconciliation_report
generate_invoice-clean env firm s e by db fresh covers ties =
    Ensures-mono (Issued env firm s e db) (generate_invoice-Issued env firm s e by db fresh)
      λ invoice after i.
        let sums = attach-sums invoice.id firm.id s e db.usage_events covers in
        let more =
          invoices_for-append firm.id db.invoices invoice i.same_firm
            (ap is_void i.by_mode ∙ issued_status_lem firm.billing_mode) in
        report_lem firm.id after
          (ap (λ es. sum_of amount (select uninvoiced (events_for firm.id es))) i.attached ∙ sums.0)
          (ap (λ es. sum_of amount (events_for firm.id es)) i.attached
            ∙ sums.1
            ∙ (omega (arith, ties, more, i.subtotal_is_due))
            ∙ ap (λ is. issued_total (invoices_for firm.id is)) (sym i.stored))
