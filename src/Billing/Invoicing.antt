-- ===== src/Billing/Invoicing.antt =====
-- `generate_invoice` of src/factory/billing/service.py. The description of a line, a text for
-- people, is left out; that the code needs the project for it is kept.
pub mod LineItems
pub mod Issue
pub mod Returns
use human_data.Model.Entities.{Invoice, Firm, UsageEvent, Ident, LineItem, Project, Moment, ident}
use human_data.Prelude.{
  List, Bool, ◌+◌, ◌∷◌, [], ◌==◌, ◌∷◌, if◌then◌else◌, ◌&&◌, ◌++◌, some, order_by, length, not,
  str_eq, is_some, select, sum_of, leb, ltb, none, ℕ,
}
use human_data.Config.{Env}
use human_data.Store.{
  Action, pure, ◌>>=◌, modify, put, ◌>>◌, gets, or_raise, find, new_id, raise, attribute_error,
  no_usage,
}
use human_data.Model.Enums.{
  external, issued_external, opened, stripe, draft, billing_mode_value, BillingMode,
}
use human_data.Billing.Gateway.{ensure_customer, push_invoice}
use human_data.Audit.{record_event}
use human_data.Model.Json.{field, nat, text, end, arr, cons, nil}

-- the events that an invoice of the period takes up
unfoldable pub is_due : Ident → Moment → Moment → UsageEvent → Bool
is_due firm_id period_start period_end ev =
    ev.firm_id == firm_id
    && not (is_some ev.invoice_id)
    && leb period_start ev.created_at
    && ltb ev.created_at period_end

abbrev pub same_line : UsageEvent → LineItem → Bool
same_line ev row =
    row.project_id == ev.project_id
    && str_eq row.kind ev.kind
    && row.unit_price_cents == ev.unit_price_cents

abbrev pub with_event : UsageEvent → LineItem → LineItem
with_event ev row = record row {
  quantity = row.quantity + ev.quantity;
  amount_cents = row.amount_cents + ev.amount_cents;
}

abbrev pub new_line : UsageEvent → LineItem
new_line ev = record {
  project_id = ev.project_id;
  kind = ev.kind;
  unit_price_cents = ev.unit_price_cents;
  quantity = 0;
  amount_cents = 0;
}

-- `grouped.setdefault(key, …)` and the two sums
unfoldable pub add_event : List LineItem → UsageEvent → List LineItem
add_event [] ev = with_event ev (new_line ev) ∷ []
add_event (row ∷ rows) ev =
    let rest = add_event rows ev in
    if same_line ev row then with_event ev row ∷ rows else row ∷ rest

unfoldable pub group : List LineItem → List UsageEvent → List LineItem
unfolding add_event
group rows [] = rows
group rows (ev ∷ events) = group (add_event rows ev) events

-- `db.get(Project, …)` and the use of its name, for each line
unfoldable pub describe : List Project → List LineItem → Action Unit
describe projects [] = pure tt
describe projects (row ∷ rows) = do
  or_raise (find (λ (p : Project). p.id) row.project_id projects) attribute_error
  describe projects rows

-- `ev.invoice_id = invoice.id` for each event of the invoice
unfoldable pub attach : Ident → (UsageEvent → Bool) → List UsageEvent → List UsageEvent
attach invoice_id due [] = []
attach invoice_id due (ev ∷ events) =
    (if due ev then record ev { invoice_id = some invoice_id } else ev)
    ∷ attach invoice_id due events

abbrev pub invoice_ref : Invoice → Ident
invoice_ref i = i.id

abbrev pub firm_ref : Firm → Ident
firm_ref f = f.id

-- `db.add`, or the row as it stands after an assignment
unfoldable pub put_invoice : Invoice → Action Unit
put_invoice invoice = modify (λ db. record db { invoices = put invoice_ref invoice db.invoices })

unfoldable pub put_firm : Firm → Action Unit
put_firm firm = modify (λ db. record db { firms = put firm_ref firm db.firms })

unfoldable pub add_invoice : Invoice → Action Unit
add_invoice invoice = modify (λ db. record db { invoices = db.invoices ++ invoice ∷ [] })

-- The branch on the billing mode: the invoice as it is issued.
abbrev pub issue : Env → Firm → Invoice → BillingMode → Action Invoice
issue env firm invoice external = pure (record invoice { status = issued_external })
issue env firm invoice stripe = do
  customer ← ensure_customer env firm
  let known = record firm { stripe_customer_id = some customer }
  put_firm known
  pushed ← push_invoice env known invoice
  pure (record invoice {
    stripe_invoice_id = some pushed.0;
    hosted_invoice_url = some pushed.1;
    status = opened;
  })

-- the `Invoice(...)` of the code: its id, the number of invoices before it, and the moment last
abbrev pub draft_of :
    Env → Firm → Moment → Moment → Ident → List LineItem → Ident → ℕ → Moment → Invoice
draft_of env firm period_start period_end issued_by line_items id count now = record {
  id = id;
  number = record { month = env.convert.year_month now; serial = count + 1 };
  firm_id = firm.id;
  mode = firm.billing_mode;
  period_start = period_start;
  period_end = period_end;
  subtotal_cents = sum_of (λ r. r.amount_cents) line_items;
  currency = firm.currency;
  status = draft;
  line_items = line_items;
  stripe_invoice_id = none;
  hosted_invoice_url = none;
  checkout_session_id = none;
  external_paid_reference = none;
  issued_by = issued_by;
  issued_at = none;
  paid_at = none;
  created_at = now;
}

-- from `invoice.issued_at = utcnow()` on
abbrev pub finish : Env → ℕ → Moment → Invoice → Action Invoice
finish env events now issued = do
  let invoice = record issued { issued_at = some now }
  put_invoice invoice
  record_event env (ident invoice.issued_by) "invoice.issued" "invoice" invoice.id (
      field "number" (arr (cons (nat invoice.number.month) (cons (nat invoice.number.serial) nil)))
        (field "firm_id" (nat invoice.firm_id) (
          field "mode" (text (billing_mode_value invoice.mode)) (
            field "subtotal_cents" (nat invoice.subtotal_cents)
              (field "usage_events" (nat events) end)))))
  pure invoice

-- The drafted invoice is added, its usage attached, and it is issued.
abbrev pub issue_drafted : Env → Firm → ℕ → Invoice → Action Invoice
issue_drafted env firm events drafted = do
  add_invoice drafted
  modify (λ db. record db {
    usage_events =
        attach drafted.id (is_due firm.id drafted.period_start drafted.period_end) db.usage_events;
  })
  issued ← issue env firm drafted firm.billing_mode
  finish env events drafted.created_at issued

unfoldable pub issue_invoice :
    Env → Firm → Moment → Moment → Ident → List UsageEvent → Action Invoice
unfolding describe attach put_invoice put_firm add_invoice group is_due
issue_invoice env firm period_start period_end issued_by events = do
  let line_items = group [] events
  projects ← gets (λ db. db.projects)
  describe projects line_items
  now ← gets (λ db. db.clock)
  count ← gets (λ db. length db.invoices)
  id ← new_id
  issue_drafted env firm (length events)
      (draft_of env firm period_start period_end issued_by line_items id count now)

abbrev pub unless_empty : List UsageEvent → (List UsageEvent → Action Invoice) → Action Invoice
unless_empty [] f = raise no_usage
unless_empty (ev ∷ events) f = f (ev ∷ events)

unfoldable pub generate_invoice : Env → Firm → Moment → Moment → Ident → Action Invoice
unfolding issue_invoice
generate_invoice env firm period_start period_end issued_by = do
  events ← gets (λ db.
      order_by (λ e. e.created_at)
        (select (is_due firm.id period_start period_end) db.usage_events))
  unless_empty events (issue_invoice env firm period_start period_end issued_by)
