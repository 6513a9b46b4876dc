-- ===== src/Billing/Reports/Window.antt =====
-- When `reconciliation_report` of src/factory/billing/service.py is clean, over the tables and the window.
use human_data.Billing.Reports.{
  reconciliation_report, events_of, invoices_of, in_window, amount, subtotal, invoiced,
}
use human_data.Billing.Reports.TieOut.{uninvoiced, reconcile-clean_iff}
use human_data.Prelude.{
  Option, ◌≡◌, List, Bool, true, select, ◌==◌, false, none, sum_of, some, ◌↔◌, ◌⊎◌, not, ◌&&◌, leb,
  arith, ◌∷◌, All, [], ap, refl, ltb, sym, ◌∙◌,
}
use human_data.Store.{Db}
use human_data.Model.Entities.{Ident, Moment, Firm, Invoice, UsageEvent}
use human_data.Model.Enums.{is_void}

-- from the start of the window, if it has one, and before its end, if it has one
abbrev pub within : Option Moment → Option Moment → Moment → Bool
within none none at = true
within (some s) none at = leb s at
within none (some e) at = ltb at e
within (some s) (some e) at = leb s at && ltb at e

-- the usage of the firm in the window
abbrev pub is_usage_of : Ident → Option Moment → Option Moment → UsageEvent → Bool
is_usage_of firm_id s e ev = ev.firm_id == firm_id && within s e ev.created_at

-- the invoices of the firm that were created in the window, but for those that are void
abbrev pub is_invoice_of : Ident → Option Moment → Option Moment → Invoice → Bool
is_invoice_of firm_id s e i =
    i.firm_id == firm_id && within s e i.created_at && not (is_void i.status)

-- not of the firm and the window, or on an invoice, or worth nothing
abbrev pub IsOnInvoice : Ident → Option Moment → Option Moment → UsageEvent → Type 0
IsOnInvoice firm_id s e ev =
    (is_usage_of firm_id s e ev ≡ false) ⊎ (invoiced ev ≡ true) ⊎ (ev.amount_cents ≡ 0)

in_window-within : (s e : Option Moment) (at : Moment) → in_window s e at ≡ within s e at
unfolding in_window
in_window-within none none at = refl
in_window-within (some s) none at = ground arith
in_window-within none (some e) at = refl
in_window-within (some s) (some e) at = refl

module _ (firm_id : Ident) (s e : Option Moment) where
  uninvoiced_iff :
      (events : List UsageEvent)
      → (sum_of amount (
            select uninvoiced
              (select (λ ev. ev.firm_id == firm_id && in_window s e ev.created_at) events))
          ≡ 0)
        ↔ All (IsOnInvoice firm_id s e) events
  uninvoiced_iff [] = (λ h. tt, λ h. refl)
  uninvoiced_iff (ev ∷ events) =
      ground (arith, uninvoiced_iff events, in_window-within s e ev.created_at)

  usage_lem :
      (events : List UsageEvent)
      → select (λ ev. ev.firm_id == firm_id && in_window s e ev.created_at) events
        ≡ select (is_usage_of firm_id s e) events
  usage_lem [] = refl
  usage_lem (ev ∷ events) = rw (in_window-within s e ev.created_at, usage_lem events) refl

  invoice_lem :
      (invoices : List Invoice)
      → select
          (λ (i : Invoice). not (is_void i.status))
          (select (λ i. i.firm_id == firm_id && in_window s e i.created_at) invoices)
        ≡ select (is_invoice_of firm_id s e) invoices
  invoice_lem [] = refl
  invoice_lem (i ∷ invoices) =
      ground (arith, invoice_lem invoices, in_window-within s e i.created_at)

-- The report is clean exactly if all usage of the firm in the window is on an invoice or worth
-- nothing, and is worth as much as the firm's invoices that were created in the window and are not
-- void, whether or not that usage is on these.
pub reconciliation_report-clean_iff :
    (db : Db) (firm : Firm) (s e : Option Moment)
    → ((reconciliation_report db firm s e).clean ≡ true) ↔ (
        All (IsOnInvoice firm.id s e) db.usage_events
        × (sum_of amount (select (is_usage_of firm.id s e) db.usage_events)
            ≡ sum_of subtotal (select (is_invoice_of firm.id s e) db.invoices)))
unfolding reconciliation_report events_of invoices_of
reconciliation_report-clean_iff db firm s e =
    let f = reconcile-clean_iff firm.id (events_of db firm.id s e) (invoices_of db firm.id s e) in
    let u = uninvoiced_iff firm.id s e db.usage_events in
    let usage = ap (sum_of amount) (usage_lem firm.id s e db.usage_events) in
    let billed = ap (sum_of subtotal) (invoice_lem firm.id s e db.invoices) in
    (
      λ h. let (left_out, sums) = f.0 h in (u.0 left_out, sym usage ∙ sums ∙ billed),
      λ h. f.1 (u.1 h.0, usage ∙ h.1 ∙ sym billed),
    )
