-- ===== src/Billing/Kept.antt =====
-- The operations of src/factory/billing/service.py keep an invariant.
use human_data.Config.{Env, StripeEvent}
use human_data.Prelude.{List, Option, some, ◌∷◌, [], none, String, ◌≡◌, Bool}
use human_data.Model.Entities.{
  Firm, Project, Invoice, UsageEvent, LineItem, Moment, StripeId, Ident, Principal,
}
use human_data.Store.Keeps.{keeps_rules, Keeps, Keeps-pure, Keeps-bind, Keeps-raise, Keeps-or_raise}
use human_data.Store.{Db, Action, new_id, modify}
use human_data.Billing.Gateway.{push_invoice, ensure_customer, create_checkout_session}
use human_data.Billing.Invoicing.{
  put_invoice, add_invoice, put_firm, describe, issue, generate_invoice, unless_empty,
  issue_invoice, attach,
}
use human_data.Billing.Payments.{
  or_query, checkout_invoice, handle_checkout, apply_invoice_event, create_checkout,
  settle_checkout, record_external_payment, handle_stripe_event, Handled, with_invoice, with_object,
}
use human_data.Model.Enums.{BillingMode, external, stripe}
use human_data.Billing.Invariant.{Invariant}
use human_data.Model.Json.{Fields}
use human_data.Audit.{record_event}

module _ (env : Env) (P : Db → Type 0) (inv : Invariant env P) where
  new_id-Keeps : Keeps P new_id
  new_id-Keeps = inv.keeps_new_id

  pub record_event-Keeps :
      (actor : Principal) (action entity_type : String) (entity_id : Ident) (payload : Fields)
      → Keeps P (record_event env actor action entity_type entity_id payload)
  record_event-Keeps = inv.keeps_record_event

  pub modify-Keeps :
      (f : Db → Db)
      → ((db : Db) → (f db).audit_events ≡ db.audit_events)
      → ((db : Db) → (f db).usage_events ≡ db.usage_events)
      → ((db : Db) → (f db).rate_cards ≡ db.rate_cards)
      → ((db : Db) → (f db).users ≡ db.users)
      → Keeps P (modify f)
  modify-Keeps = inv.keeps_write

  attach-Keeps :
      (id : Ident) (due : UsageEvent → Bool)
      → Keeps P (modify (λ db. record db { usage_events = attach id due db.usage_events }))
  attach-Keeps = inv.keeps_attach

  ruleset writes = (keeps_rules, new_id-Keeps, record_event-Keeps, attach-Keeps, modify-Keeps)

  ensure_customer-Keeps : (firm : Firm) → Keeps P (ensure_customer env firm)
  unfolding ensure_customer
  ensure_customer-Keeps firm = search writes depth 24

  push_invoice-Keeps : (firm : Firm) (invoice : Invoice) → Keeps P (push_invoice env firm invoice)
  unfolding push_invoice
  push_invoice-Keeps firm invoice = search writes depth 24

  put_invoice-Keeps : (invoice : Invoice) → Keeps P (put_invoice invoice)
  unfolding put_invoice
  put_invoice-Keeps invoice = search writes depth 24

  put_firm-Keeps : (firm : Firm) → Keeps P (put_firm firm)
  unfolding put_firm
  put_firm-Keeps firm = search writes depth 24

  add_invoice-Keeps : (invoice : Invoice) → Keeps P (add_invoice invoice)
  unfolding add_invoice
  add_invoice-Keeps invoice = search writes depth 24

  describe-Keeps :
      (projects : List Project) (rows : List LineItem) → Keeps P (describe projects rows)
  unfolding describe
  describe-Keeps projects [] = Keeps-pure tt
  describe-Keeps projects (row ∷ rows) =
      Keeps-bind _ _ (Keeps-or_raise _ _) (λ _. describe-Keeps projects rows)

  issue-Keeps :
      (firm : Firm) (invoice : Invoice) (mode : BillingMode) → Keeps P (issue env firm invoice mode)
  issue-Keeps firm invoice external = Keeps-pure _
  issue-Keeps firm invoice stripe =
      search (keeps_rules, ensure_customer-Keeps, push_invoice-Keeps, put_firm-Keeps) depth 24

  issue_invoice-Keeps :
      (firm : Firm) (s e : Moment) (by : Ident) (events : List UsageEvent)
      → Keeps P (issue_invoice env firm s e by events)
  unfolding issue_invoice
  issue_invoice-Keeps firm s e by events =
      search (writes, describe-Keeps, add_invoice-Keeps, issue-Keeps, put_invoice-Keeps) depth 30

  unless_empty-Keeps :
      (events : List UsageEvent) (f : List UsageEvent → Action Invoice)
      → ((xs : List UsageEvent) → Keeps P (f xs))
      → Keeps P (unless_empty events f)
  unless_empty-Keeps [] f k = Keeps-raise _
  unless_empty-Keeps (ev ∷ events) f k = k (ev ∷ events)

  -- Issuing an invoice keeps the invariant.
  pub generate_invoice-Keeps :
      (firm : Firm) (s e : Moment) (by : Ident) → Keeps P (generate_invoice env firm s e by)
  unfolding generate_invoice
  generate_invoice-Keeps firm s e by =
      search (keeps_rules, unless_empty-Keeps, issue_invoice-Keeps) depth 24

  -- A payment outside the system keeps the invariant.
  pub record_external_payment-Keeps :
      (invoice : Invoice) (reference : String) (actor : Ident)
      → Keeps P (record_external_payment env invoice reference actor)
  unfolding record_external_payment
  record_external_payment-Keeps invoice reference actor =
      search (writes, put_invoice-Keeps) depth 24

  create_session-Keeps :
      (firm : Firm) (invoice : Invoice) (s c : String)
      → Keeps P (create_checkout_session env firm invoice s c)
  unfolding create_checkout_session
  create_session-Keeps firm invoice s c = search writes depth 24

  -- A checkout session keeps the invariant.
  pub create_checkout-Keeps :
      (invoice : Invoice) (firm : Firm) (s c : String) (actor : Ident)
      → Keeps P (create_checkout env invoice firm s c actor)
  unfolding create_checkout
  create_checkout-Keeps invoice firm s c actor =
      search (writes, put_invoice-Keeps, create_session-Keeps) depth 24

  or_query-Keeps :
      (o : Option Invoice) (q : Action (Option Invoice)) → Keeps P q → Keeps P (or_query o q)
  or_query-Keeps none q k = k
  or_query-Keeps (some i) q k = Keeps-pure _

  with_invoice-Keeps :
      (o : Option Invoice) (reply : Handled) (f : Invoice → Action Handled)
      → ((i : Invoice) → Keeps P (f i))
      → Keeps P (with_invoice o reply f)
  with_invoice-Keeps none reply f k = Keeps-pure _
  with_invoice-Keeps (some i) reply f k = k i

  checkout_invoice-Keeps : (ev : StripeEvent) → Keeps P (checkout_invoice ev)
  unfolding checkout_invoice
  checkout_invoice-Keeps ev = search (keeps_rules, or_query-Keeps) depth 24

  settle_checkout-Keeps :
      (ev : StripeEvent) (invoice : Invoice) → Keeps P (settle_checkout env ev invoice)
  unfolding settle_checkout
  settle_checkout-Keeps ev invoice = search (writes, put_invoice-Keeps) depth 24

  handle_checkout-Keeps : (ev : StripeEvent) → Keeps P (handle_checkout env ev)
  unfolding handle_checkout
  handle_checkout-Keeps ev =
      search (keeps_rules, checkout_invoice-Keeps, with_invoice-Keeps, settle_checkout-Keeps) depth
        24

  apply_invoice_event-Keeps :
      (ev : StripeEvent) (invoice : Invoice) → Keeps P (apply_invoice_event env ev invoice)
  unfolding apply_invoice_event
  apply_invoice_event-Keeps ev invoice = search (writes, put_invoice-Keeps) depth 24

  with_object-Keeps : (ev : StripeEvent) (o : Option StripeId) → Keeps P (with_object env ev o)
  with_object-Keeps ev none = Keeps-pure _
  with_object-Keeps ev (some id) =
      search (keeps_rules, with_invoice-Keeps, apply_invoice_event-Keeps) depth 24

  -- An event of the webhook keeps the invariant.
  pub handle_stripe_event-Keeps : (ev : StripeEvent) → Keeps P (handle_stripe_event env ev)
  unfolding handle_stripe_event
  handle_stripe_event-Keeps ev = search (keeps_rules, handle_checkout-Keeps, with_object-Keeps)
