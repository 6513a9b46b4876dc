-- ===== src/Billing/Reports/TieOut.antt =====
-- What the sums of the reconciliation report say (src/factory/billing/service.py).
use human_data.Billing.Reports.{
  per_project_rows, reconcile, add_usage, ProjectRow, subtotal, amount, invoiced, is_outstanding,
}
use human_data.Model.Entities.{UsageEvent, Invoice, Ident}
use human_data.Prelude.{
  List, sum_of, ℕ, Bool, not, ◌≡◌, ◌+◌, select, arith, true, if◌then◌else◌, ◌∷◌, [], ◌↔◌, refl,
  sum_of-order_by,
}
use human_data.Model.Enums.{is_void, is_paid, is_draft}

abbrev metered_of : ProjectRow → ℕ
metered_of r = r.metered_cents

abbrev invoiced_of : ProjectRow → ℕ
invoiced_of r = r.invoiced_cents

abbrev uninvoiced_of : ProjectRow → ℕ
uninvoiced_of r = r.uninvoiced_cents

-- the sums of the rows of the projects, as one
abbrev pub Sums : List ProjectRow → ℕ → ℕ → ℕ → Type 0
Sums rows m i u =
    (sum_of metered_of rows ≡ m) × (sum_of invoiced_of rows ≡ i) × (sum_of uninvoiced_of rows ≡ u)

add_usage-Sums :
    (rows : List ProjectRow) (e : UsageEvent)
    → Sums
        (add_usage rows e)
        (sum_of metered_of rows + e.amount_cents)
        (sum_of invoiced_of rows + (if invoiced e then e.amount_cents else 0))
        (sum_of uninvoiced_of rows + (if invoiced e then 0 else e.amount_cents))
unfolding add_usage
add_usage-Sums [] e = ground arith
add_usage-Sums (row ∷ rows) e = ground (arith, add_usage-Sums rows e)

abbrev pub uninvoiced : UsageEvent → Bool
uninvoiced e = not (invoiced e)

per_project_rows-Sums :
    (rows : List ProjectRow) (events : List UsageEvent)
    → Sums
        (per_project_rows rows events)
        (sum_of metered_of rows + sum_of amount events)
        (sum_of invoiced_of rows + sum_of amount (select invoiced events))
        (sum_of uninvoiced_of rows + sum_of amount (select uninvoiced events))
unfolding per_project_rows
per_project_rows-Sums rows [] = omega arith
per_project_rows-Sums rows (e ∷ events) =
    ground (arith, add_usage-Sums rows e, per_project_rows-Sums (add_usage rows e) events)

split :
    (events : List UsageEvent)
    → sum_of amount events
      ≡ sum_of amount (select invoiced events) + sum_of amount (select uninvoiced events)
split [] = refl
split (e ∷ events) = ground (arith, split events)

-- The rows of the projects add up to the report's totals, and the totals split the metered usage
-- into what is on an invoice and what is not.
pub reconcile-totals :
    (firm_id : Ident) (events : List UsageEvent) (invoices : List Invoice)
    → let r = reconcile firm_id events invoices in
      Sums r.per_project r.metered_cents r.metered_invoiced_cents r.metered_uninvoiced_cents
      × (r.metered_cents ≡ r.metered_invoiced_cents + r.metered_uninvoiced_cents)
unfolding reconcile
reconcile-totals firm_id events invoices = omega (
  arith,
  split events,
  per_project_rows-Sums [] events,
  sum_of-order_by metered_of (λ r. r.project_id) (per_project_rows [] events),
  sum_of-order_by invoiced_of (λ r. r.project_id) (per_project_rows [] events),
  sum_of-order_by uninvoiced_of (λ r. r.project_id) (per_project_rows [] events),
)

status_split :
    (invoices : List Invoice)
    → sum_of subtotal (select (λ i. not (is_void i.status)) invoices)
      ≡ sum_of subtotal (select (λ i. is_paid i.status) invoices)
        + sum_of subtotal (select (λ i. is_outstanding i.status) invoices)
        + sum_of subtotal (select (λ i. is_draft i.status) invoices)
status_split [] = refl
status_split (i ∷ is) = ground (arith, status_split is)

-- What is invoiced and not paid is outstanding, or on a draft.
pub reconcile-not_paid :
    (firm_id : Ident) (events : List UsageEvent) (invoices : List Invoice)
    → let r = reconcile firm_id events invoices in
      r.invoiced_not_paid_cents
      ≡ r.outstanding_cents + sum_of subtotal (select (λ i. is_draft i.status) invoices)
unfolding reconcile
reconcile-not_paid firm_id events invoices = omega (arith, status_split invoices)

-- The report is clean exactly if all metered usage is on invoices and the invoices that are not void
-- are worth it.
pub reconcile-clean_iff :
    (firm_id : Ident) (events : List UsageEvent) (invoices : List Invoice)
    → ((reconcile firm_id events invoices).clean ≡ true) ↔ (
        (sum_of amount (select uninvoiced events) ≡ 0)
        × (sum_of amount events ≡ sum_of subtotal (select (λ i. not (is_void i.status)) invoices)))
unfolding reconcile
reconcile-clean_iff firm_id events invoices = ground (arith, split events)
