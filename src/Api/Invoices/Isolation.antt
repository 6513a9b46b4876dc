-- ===== src/Api/Invoices/Isolation.antt =====
-- Which firms the billing endpoints of src/factory/api/main.py show to whom.
use human_data.Config.{Env}
use human_data.Api.Invoices.{
  own_invoice, own_firm, get_invoice, list_invoices, firm_reconciliation, InvoiceOut, invoice_out,
}
use human_data.Auth.{assert_firm_access, Credentials, Actor, is_internal}
use human_data.Store.{Db, ok}
use human_data.Model.Entities.{Ident, Moment, Invoice}
use human_data.Prelude.{
  Option, ◌≡◌, false, true, All, ◌⊎◌, some, subst, sym, arith, ◌∙◌, ap, List, map, order_by, select,
  ◌==◌, All-map, All-order_by, All-select, ==_iff,
}
use human_data.Auth.Access.{IsBacked, assert_firm_access_iff}
use human_data.Store.Ensures.{Ensures, Ensures-bind, Ensures-mono, Ensures-of}
use human_data.Api.Lookups.{Ensures-actor, Ensures-get, get_or_404-found}
use human_data.Api.{any_authenticated}
use human_data.Model.Enums.{client}
use human_data.Billing.Invoicing.{invoice_ref, firm_ref}
use human_data.Store.Rows.{find-id}
use human_data.Billing.Reports.{reconciliation_report, reconcile}

-- The actor is one of the staff, or a client of the firm.
abbrev pub MayAccess : Env → Credentials → Db → Ident → Type 0
MayAccess env credentials db firm_id =
    (actor : Actor) × IsBacked env credentials db actor
    × ((is_internal actor ≡ true) ⊎ ((actor.role ≡ client) × (actor.firm_id ≡ some firm_id)))

access_lem :
    (actor : Actor) (firm_id : Ident) (db : Db)
    → Ensures (assert_firm_access actor firm_id) db (λ u db'.
      (db' ≡ db)
      × ((is_internal actor ≡ true) ⊎ ((actor.role ≡ client) × (actor.firm_id ≡ some firm_id))))
unfolding assert_firm_access
access_lem actor firm_id db = Ensures-of (assert_firm_access actor firm_id) (λ u db' e.
    let same : db' ≡ db = ground arith in
    (same, (assert_firm_access_iff actor firm_id db).0.0 (e ∙ ap (λ d. ok (tt, d)) same)))

own_firm-MayAccess :
    (env : Env) (credentials : Credentials) (firm_id : Ident) (db : Db)
    → env.settings.auth_disabled ≡ false
    → Ensures
        (own_firm env credentials firm_id)
        db
        (λ firm db'. MayAccess env credentials db firm_id × (firm.id ≡ firm_id))
unfolding own_firm
own_firm-MayAccess env credentials firm_id db on =
    Ensures-actor env credentials any_authenticated _ on (λ actor db1 who same.
      Ensures-bind
        (λ u db'.
          (db' ≡ db1)
          × ((is_internal actor ≡ true) ⊎ ((actor.role ≡ client) × (actor.firm_id ≡ some firm_id))))
        (access_lem actor firm_id db1)
        (λ u db2 h.
          Ensures-mono _ (get_or_404-found firm_ref (λ db. db.firms) firm_id db2)
            (λ firm db' found. ((actor, who.1, h.1), find-id firm_ref firm_id db2.firms found.0))))

own_invoice-MayAccess :
    (env : Env) (credentials : Credentials) (invoice_id : Ident) (db : Db)
    → env.settings.auth_disabled ≡ false
    → Ensures
        (own_invoice env credentials invoice_id)
        db
        (λ owned db'. MayAccess env credentials db owned.1.firm_id)
unfolding own_invoice
own_invoice-MayAccess env credentials invoice_id db on =
    Ensures-actor env credentials any_authenticated _ on (λ actor db1 who same.
      Ensures-get invoice_ref (λ db. db.invoices) invoice_id _
        (λ inv found.
          Ensures-bind
            (λ u db'.
              (db' ≡ db1)
              × ((is_internal actor ≡ true)
                  ⊎ ((actor.role ≡ client) × (actor.firm_id ≡ some inv.firm_id))))
            (access_lem actor inv.firm_id db1) (λ u db2 h. record { at = (actor, who.1, h.1) })))

listed_lem :
    (id : Ident) (invoices : List Invoice)
    → All
        (λ (i : InvoiceOut). i.firm_id ≡ id)
        (map invoice_out (
          order_by
            (λ (i : Invoice). i.created_at)
            (select (λ (i : Invoice). i.firm_id == id) invoices)))
listed_lem id invoices =
    All-map (λ (i : InvoiceOut). i.firm_id ≡ id) invoice_out _
      (All-order_by (λ (i : Invoice). i.firm_id ≡ id) (λ (i : Invoice). i.created_at) _
        (All-select (λ (i : Invoice). i.firm_id ≡ id) (λ (i : Invoice). i.firm_id == id) invoices
          (λ i. (==_iff i.firm_id id).0)))

-- Where authentication is on: an invoice that `get_invoice` returns, the invoices that
-- `list_invoices` returns, all of the firm asked for, and the firm of a reconciliation are shown to
-- staff, or to a client of that firm.
pub invoices_shown :
    (env : Env) (credentials : Credentials) (id : Ident) (s e : Option Moment) (db : Db)
    → env.settings.auth_disabled ≡ false
    → Ensures
        (get_invoice env credentials id)
        db
        (λ out db'. MayAccess env credentials db out.firm_id)
      × Ensures (list_invoices env credentials id) db (λ out db'.
        MayAccess env credentials db id × All (λ (i : InvoiceOut). i.firm_id ≡ id) out)
      × Ensures
          (firm_reconciliation env credentials id s e)
          db
          (λ out db'. MayAccess env credentials db out.firm_id)
unfolding get_invoice list_invoices firm_reconciliation reconciliation_report reconcile
invoices_shown env credentials id s e db on = (
  Ensures-bind (λ owned db'. MayAccess env credentials db owned.1.firm_id)
      (own_invoice-MayAccess env credentials id db on) (λ owned db1 h. record { at = h }),
  Ensures-bind (λ firm db'. MayAccess env credentials db id × (firm.id ≡ id))
      (own_firm-MayAccess env credentials id db on)
      (λ firm db1 h. record { at = (h.0, listed_lem id db1.invoices) }),
  Ensures-bind (λ firm db'. MayAccess env credentials db id × (firm.id ≡ id))
      (own_firm-MayAccess env credentials id db on)
      (λ firm db1 h. record { at = subst (MayAccess env credentials db) (sym h.1) h.0 }),
)
