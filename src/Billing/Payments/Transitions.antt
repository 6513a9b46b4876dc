-- ===== src/Billing/Payments/Transitions.antt =====
-- Which payments of src/factory/billing/service.py are taken, and what a second delivery of a webhook does.
use human_data.Store.{
  ok, err, Db, find, not_payable, put, Error, Action, raise_if, ◌>>◌, pure, stripe_managed, is_ok,
}
use human_data.Prelude.{
  Bool, String, true, List, false, ◌≡◌, some, arith, ◌∷◌, [], not, ◌&&◌, ◌∙◌, refl, str_eq, sym,
}
use human_data.Config.{Env, StripeEvent}
use human_data.Model.Entities.{Invoice, Ident}
use human_data.Model.Enums.{
  BillingMode, InvoiceStatus, external, issued_external, draft, stripe, is_paid, paid,
}
use human_data.Billing.Payments.{
  record_external_payment, Handled, checkout_invoice, settle_checkout, handle_checkout, handled,
  settled_of, handle_stripe_event, mark_settled,
}
use human_data.Billing.Invoicing.{invoice_ref, put_invoice}
use human_data.Audit.{record_event}
use human_data.Store.Ensures.{Ensures, Ensures-ok, Ensures-bind, Ensures-if, Ensures-raise_if}

-- the mode and the statuses in which a payment is recorded by hand
abbrev pub takes_payment : BillingMode → InvoiceStatus → Bool
takes_payment external issued_external = true
takes_payment external draft = true
takes_payment _ _ = false

module _ {B : Type 0} where
  is_ok-raise_if :
      (b : Bool) (e : Error) (m : Action B) (db : Db)
      → is_ok ((raise_if b e >> m) db) ≡ (not b && is_ok (m db))
  is_ok-raise_if true e m db = refl
  is_ok-raise_if false e m db = refl

guards_lem :
    (mode : BillingMode) (status : InvoiceStatus)
    → (not (elim mode [ external ↦ false | stripe ↦ true ])
        && (not (elim status [ issued_external ↦ false | draft ↦ false | _ ↦ true ]) && true))
      ≡ takes_payment mode status
guards_lem mode status = ground arith

-- A payment is recorded by hand exactly for an invoice of external mode that is issued or a draft.
pub record_external_payment-is_ok :
    (env : Env) (invoice : Invoice) (reference : String) (actor : Ident) (db : Db)
    → is_ok (record_external_payment env invoice reference actor db)
      ≡ takes_payment invoice.mode invoice.status
unfolding record_external_payment record_event put_invoice
record_external_payment-is_ok env invoice reference actor db =
    search (is_ok-raise_if, guards_lem invoice.mode invoice.status)

recorded_lem :
    (env : Env) (invoice : Invoice) (reference : String) (actor : Ident) (db : Db)
    → Ensures
        (record_external_payment env invoice reference actor)
        db
        (λ p db'. (p.mode ≡ external) × (p.status ≡ paid))
unfolding record_external_payment record_event put_invoice
recorded_lem env invoice reference actor db =
    Ensures-bind (λ u d. invoice.mode ≡ external)
      (Ensures-raise_if (elim invoice.mode [ external ↦ false | stripe ↦ true ]) stripe_managed
        (λ h. ground arith))
      (λ u d m.
        Ensures-bind (λ u' d'. Unit {0})
          (Ensures-raise_if
            (elim invoice.status [ issued_external ↦ false | draft ↦ false | _ ↦ true ]) not_payable
            (λ h. tt))
          (λ u' d' h. record { at = (m, refl) }))

refused_lem :
    (env : Env) (invoice : Invoice) (reference : String) (actor : Ident) (db : Db)
    → invoice.mode ≡ external
    → invoice.status ≡ paid
    → record_external_payment env invoice reference actor db ≡ err not_payable
unfolding record_external_payment
refused_lem env invoice reference actor db m st = rw (m, st)

-- A payment that is recorded by hand is not recorded a second time.
pub record_external_payment-once :
    (env : Env) (invoice paid_invoice : Invoice) (reference again : String) (actor other : Ident)
    (db db' later : Db)
    → record_external_payment env invoice reference actor db ≡ ok (paid_invoice, db')
    → record_external_payment env paid_invoice again other later ≡ err not_payable
record_external_payment-once env invoice paid_invoice reference again actor other db db' later e =
    let done : (paid_invoice.mode ≡ external) × (paid_invoice.status ≡ paid) =
      Ensures-ok (recorded_lem env invoice reference actor db) e in
    refused_lem env paid_invoice again other later done.0 done.1

find-put :
    (invoice changed : Invoice) (id : Ident) (invoices : List Invoice)
    → find (λ (i : Invoice). i.id) id invoices ≡ some invoice
    → changed.id ≡ id
    → find (λ (i : Invoice). i.id) id (put invoice_ref changed invoices) ≡ some changed
find-put invoice changed id [] f e = cc
find-put invoice changed id (x ∷ xs) f e = ground (arith, find-put invoice changed id xs)

find-id :
    (invoice : Invoice) (id : Ident) (invoices : List Invoice)
    → find (λ (i : Invoice). i.id) id invoices ≡ some invoice
    → invoice.id ≡ id
find-id invoice id [] f = cc
find-id invoice id (x ∷ xs) f = ground (arith, find-id invoice id xs)

-- the state in which a checkout is settled, for an event with our metadata
abbrev pub Settled : StripeEvent → Ident → Handled → Db → Type 0
Settled ev id r db =
    (invoice : Invoice) × (find (λ (i : Invoice). i.id) id db.invoices ≡ some invoice)
    × (is_paid invoice.status ≡ true)
    × (r ≡ handled invoice.id invoice.status)

settle_checkout-Settled :
    (env : Env) (ev : StripeEvent) (id : Ident) (invoice : Invoice) (db : Db)
    → find (λ (i : Invoice). i.id) id db.invoices ≡ some invoice
    → Ensures (settle_checkout env ev invoice) db (Settled ev id)
unfolding settle_checkout put_invoice record_event
settle_checkout-Settled env ev id invoice db f =
    let settled : Invoice = settled_of ev invoice db.clock in
    Ensures-if (is_paid invoice.status) (pure (handled invoice.id invoice.status))
      (mark_settled env ev invoice) (λ h. record { at = (invoice, f, h, refl) })
      (λ h. record {
        at = (
          settled,
          find-put invoice settled id db.invoices f (find-id invoice id db.invoices f),
          refl,
          refl,
        );
      })

handle_checkout-Settled :
    (env : Env) (ev : StripeEvent) (id : Ident) (invoice : Invoice) (db : Db)
    → ev.hdf_invoice_id ≡ some id
    → find (λ (i : Invoice). i.id) id db.invoices ≡ some invoice
    → handle_checkout env ev db ≡ settle_checkout env ev invoice db
unfolding handle_checkout checkout_invoice
handle_checkout-Settled env ev id invoice db m f = rw (m, f)

Settled-again :
    (env : Env) (ev : StripeEvent) (id : Ident) (r : Handled) (db : Db)
    → ev.hdf_invoice_id ≡ some id
    → Settled ev id r db
    → handle_checkout env ev db ≡ ok (r, db)
unfolding settle_checkout
Settled-again env ev id r db m (invoice, f, p, e) =
    handle_checkout-Settled env ev id invoice db m f ∙ (rw (p, e))

checkout_lem :
    (env : Env) (ev : StripeEvent) (db : Db)
    → str_eq ev.etype "checkout.session.completed" ≡ true
    → handle_stripe_event env ev db ≡ handle_checkout env ev db
unfolding handle_stripe_event
checkout_lem env ev db e = rw e

-- A `checkout.session.completed` event that names one of our invoices settles it once: a second
-- delivery answers the same and changes no table.
pub handle_stripe_event-replay :
    (env : Env) (ev : StripeEvent) (id : Ident) (invoice : Invoice) (db db' : Db) (r : Handled)
    → str_eq ev.etype "checkout.session.completed" ≡ true
    → ev.hdf_invoice_id ≡ some id
    → find (λ (i : Invoice). i.id) id db.invoices ≡ some invoice
    → handle_stripe_event env ev db ≡ ok (r, db')
    → handle_stripe_event env ev db' ≡ ok (r, db')
handle_stripe_event-replay env ev id invoice db db' r t m f h =
    checkout_lem env ev db' t
    ∙ Settled-again env ev id r db' m (
        Ensures-ok (settle_checkout-Settled env ev id invoice db f) (
          sym (handle_checkout-Settled env ev id invoice db m f)
          ∙ sym (checkout_lem env ev db t)
          ∙ h))
