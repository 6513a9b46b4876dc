-- ===== src/Billing/Payments.antt =====
-- Payments in src/factory/billing/service.py: settlement outside the system, checkout sessions, and
-- the events of Stripe's webhook.
pub mod Transitions
use human_data.Model.Enums.{
  InvoiceStatus, void, is_paid, issued_external, external, opened, paid, stripe, draft,
}
use human_data.Model.Entities.{
  StripeId, Ident, Invoice, Firm, live, cus_fake, Url, stripe_webhook, stripe_checkout, in_fake,
  entered, cs_fake, ident, Moment,
}
use human_data.Store.{
  Action, ◌>>=◌, find, ◌>>◌, gets, pure, raise_if, one_or_none, stripe_managed, not_payable,
  relative_url,
}
use human_data.Prelude.{
  Option, String, some, if◌then◌else◌, List, Bool, false, none, [], starts_with, str_eq, true, ◌||◌,
  select, not, ◌==◌,
}
use human_data.Billing.Invoicing.{put_invoice}
use human_data.Config.{Env, StripeEvent}
use human_data.Audit.{record_event}
use human_data.Model.Json.{field, text, end, Json, null, arr, cons, nat, nil}
use human_data.Billing.Gateway.{create_checkout_session}

unfoldable pub record_external_payment : Env → Invoice → String → Ident → Action Invoice
unfolding put_invoice
record_external_payment env invoice reference actor = do
  raise_if (elim invoice.mode [ external ↦ false | stripe ↦ true ]) stripe_managed
  raise_if (elim invoice.status [ issued_external ↦ false | draft ↦ false | _ ↦ true ]) not_payable
  now ← gets (λ db. db.clock)
  let paid_invoice = record invoice {
    status = paid;
    external_paid_reference = some (entered reference);
    paid_at = some now;
  }
  put_invoice paid_invoice
  record_event env (ident actor) "invoice.external_payment_recorded" "invoice" invoice.id
      (field "reference" (text reference) end)
  pure paid_invoice

-- an id of Stripe's, or none, in a payload
abbrev id_json : Option StripeId → Json
id_json none = null
id_json (some (live s)) = text s
id_json (some (cus_fake k)) = arr (cons (text "cus_fake") (cons (nat k) nil))
id_json (some (in_fake k)) = arr (cons (text "in_fake") (cons (nat k) nil))
id_json (some (cs_fake k)) = arr (cons (text "cs_fake") (cons (nat k) nil))

-- `PAYABLE_STATUSES`
abbrev pub is_payable : InvoiceStatus → Bool
is_payable issued_external = true
is_payable opened = true
is_payable _ = false

abbrev pub is_absolute : String → Bool
is_absolute url = starts_with url "https://" || starts_with url "http://"

unfoldable pub create_checkout :
    Env → Invoice → Firm → String → String → Ident → Action (Invoice × Url)
unfolding put_invoice
create_checkout env invoice firm success_url cancel_url actor = do
  raise_if (not (is_payable invoice.status)) not_payable
  raise_if (not (is_absolute success_url)) relative_url
  raise_if (not (is_absolute cancel_url)) relative_url
  session ← create_checkout_session env firm invoice success_url cancel_url
  let opened_invoice = record invoice { checkout_session_id = some session.0 }
  put_invoice opened_invoice
  record_event env (ident actor) "invoice.checkout_created" "invoice" invoice.id
      (field "checkout_session_id" (id_json (some session.0)) end)
  pure (opened_invoice, session.1)

-- the dict that `handle_stripe_event` returns
pub data Handled : Type 0 where
  unknown_checkout not_invoice_event unknown_invoice ignored_type : Handled
  handled : Ident → InvoiceStatus → Handled

-- `==` on two ids of Stripe's
abbrev pub stripe_eq : StripeId → StripeId → Bool
stripe_eq (live a) (live b) = str_eq a b
stripe_eq (cus_fake a) (cus_fake b) = a == b
stripe_eq (in_fake a) (in_fake b) = a == b
stripe_eq (cs_fake a) (cs_fake b) = a == b
stripe_eq _ _ = false

abbrev pub has_id : StripeId → Option StripeId → Bool
has_id id none = false
has_id id (some other) = stripe_eq other id

abbrev pub by_session : Option StripeId → List Invoice → List Invoice
by_session none invoices = []
by_session (some id) invoices = select (λ (i : Invoice). has_id id i.checkout_session_id) invoices

abbrev pub by_metadata : Option Ident → List Invoice → Option Invoice
by_metadata none invoices = none
by_metadata (some id) invoices = find (λ (i : Invoice). i.id) id invoices

abbrev pub or_query : Option Invoice → Action (Option Invoice) → Action (Option Invoice)
or_query (some invoice) query = pure (some invoice)
or_query none query = query

-- what is done with the invoice of an event, if there is one
abbrev pub with_invoice : Option Invoice → Handled → (Invoice → Action Handled) → Action Handled
with_invoice none reply f = pure reply
with_invoice (some invoice) reply f = f invoice

-- the invoice of our metadata, or else of the session's id
unfoldable pub checkout_invoice : StripeEvent → Action (Option Invoice)
checkout_invoice ev = do
  invoices ← gets (λ db. db.invoices)
  or_query (by_metadata ev.hdf_invoice_id invoices) (one_or_none (by_session ev.object_id invoices))

abbrev first_of : Option StripeId → Option StripeId → Option StripeId
first_of (some a) _ = some a
first_of none b = b

-- the invoice once the session is paid
abbrev pub settled_of : StripeEvent → Invoice → Moment → Invoice
settled_of ev invoice now = record invoice {
  status = paid;
  paid_at = some now;
  external_paid_reference = elim invoice.mode [
    | external ↦ some (stripe_checkout (first_of ev.payment_intent ev.object_id))
    | stripe ↦ invoice.external_paid_reference
  ];
}

abbrev pub mark_settled : Env → StripeEvent → Invoice → Action Handled
mark_settled env ev invoice = do
  now ← gets (λ db. db.clock)
  put_invoice (settled_of ev invoice now)
  record_event env stripe_webhook "invoice.paid" "invoice" invoice.id (
      field "stripe_event" (text ev.etype)
        (field "reference" (id_json (first_of ev.payment_intent ev.object_id)) end))
  pure (handled invoice.id paid)

unfoldable pub settle_checkout : Env → StripeEvent → Invoice → Action Handled
unfolding put_invoice
settle_checkout env ev invoice =
    if is_paid invoice.status
    then pure (handled invoice.id invoice.status)
    else mark_settled env ev invoice

unfoldable pub handle_checkout : Env → StripeEvent → Action Handled
unfolding checkout_invoice settle_checkout
handle_checkout env ev = do
  found ← checkout_invoice ev
  with_invoice found unknown_checkout (settle_checkout env ev)

-- `f"invoice.{invoice.status}"`
abbrev status_action : InvoiceStatus → String
status_action void = "invoice.void"
status_action _ = "invoice.paid"

abbrev pub change_status : Env → StripeEvent → Invoice → InvoiceStatus → Action Handled
change_status env ev changed status = do
  put_invoice changed
  record_event env stripe_webhook (status_action status) "invoice" changed.id
      (field "stripe_event" (text ev.etype) (field "stripe_invoice_id" (id_json ev.object_id) end))
  pure (handled changed.id status)

unfoldable pub apply_invoice_event : Env → StripeEvent → Invoice → Action Handled
unfolding put_invoice
apply_invoice_event env ev invoice = do
  now ← gets (λ db. db.clock)
  if str_eq ev.etype "invoice.paid" || str_eq ev.etype "invoice.payment_succeeded"
      then change_status env ev (record invoice { status = paid; paid_at = some now }) paid
      else (if str_eq ev.etype "invoice.voided"
          then change_status env ev (record invoice { status = void }) void
          else pure ignored_type)

abbrev pub invoice_event : Env → StripeEvent → StripeId → Action Handled
invoice_event env ev id = do
  rows ← gets (λ db. select (λ (i : Invoice). has_id id i.stripe_invoice_id) db.invoices)
  found ← one_or_none rows
  with_invoice found unknown_invoice (apply_invoice_event env ev)

abbrev pub with_object : Env → StripeEvent → Option StripeId → Action Handled
with_object env ev none = pure not_invoice_event
with_object env ev (some id) =
    if starts_with ev.etype "invoice." then invoice_event env ev id else pure not_invoice_event

unfoldable pub handle_stripe_event : Env → StripeEvent → Action Handled
unfolding handle_checkout apply_invoice_event
handle_stripe_event env ev =
    if str_eq ev.etype "checkout.session.completed"
    then handle_checkout env ev
    else with_object env ev ev.object_id
