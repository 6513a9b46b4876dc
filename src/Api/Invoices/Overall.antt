-- ===== src/Api/Invoices/Overall.antt =====
-- `global_reconciliation` of src/factory/api/main.py: what a clean total means.
use human_data.Api.Invoices.{Totals, global_reconciliation, summarise, GlobalOut}
use human_data.Billing.Reports.{
  reconcile, reconciliation_report, Reconciliation, events_of, invoices_of,
}
use human_data.Store.{Db, ok}
use human_data.Model.Entities.{Ident, Moment, UsageEvent, Invoice, Firm}
use human_data.Prelude.{
  Option, ◌≡◌, List, map, true, all, arith, Bool-cases, inl, ◌∷◌, inr, [], refl, if◌then◌else◌,
  subst,
}
use human_data.Config.{Env}
use human_data.Auth.{Credentials}
use human_data.Store.Ensures.{Ensures-ok}
use human_data.Api.Lookups.{Ensures-role}
use human_data.Api.{internal}
use human_data.Billing.Reports.TieOut.{reconcile-clean_iff}

report_lem :
    (firm_id : Ident) (events : List UsageEvent) (invoices : List Invoice)
    → (reconcile firm_id events invoices).clean ≡ true
    → ((reconcile firm_id events invoices).metered_uninvoiced_cents ≡ 0)
      × ((reconcile firm_id events invoices).metered_cents
          ≡ (reconcile firm_id events invoices).invoiced_cents)
unfolding reconcile
report_lem firm_id events invoices h =
    ground (arith, (reconcile-clean_iff firm_id events invoices).0 h)

-- all usage is on invoices, and the invoices are worth it
abbrev pub TiesOut : Totals → Type 0
TiesOut t = (t.metered_uninvoiced_cents ≡ 0) × (t.metered_cents ≡ t.invoiced_cents)

module _ (db : Db) (s e : Option Moment) where
  totals_lem :
      (firms : List Firm)
      → all
          (λ (r : Reconciliation). r.clean)
          (map (λ (f : Firm). reconciliation_report db f s e) firms)
        ≡ true
      → TiesOut (summarise (map (λ (f : Firm). reconciliation_report db f s e) firms)).totals
  unfolding summarise reconciliation_report
  totals_lem [] h = (refl, refl)
  totals_lem (f ∷ firms) h =
      let one = report_lem f.id (events_of db f.id s e) (invoices_of db f.id s e) (ground arith) in
      let rest = totals_lem firms (ground arith) in
      (omega (arith, one.0, rest.0), omega (arith, one.1, rest.1))

tied_lem :
    (db : Db) (s e : Option Moment)
    → let out = summarise (map (λ (f : Firm). reconciliation_report db f s e) db.firms) in
      if out.all_clean then TiesOut out.totals else Unit
unfolding summarise
tied_lem db s e =
    elim (Bool-cases (
      all (λ (r : Reconciliation). r.clean)
        (map (λ (f : Firm). reconciliation_report db f s e) db.firms))) [
          | inl clean ↦ rw clean (totals_lem db s e db.firms clean)
          | inr not_clean ↦ rw not_clean tt
        ]

-- If the reconciliation of all firms says that all are clean, then no metered cent is left off the
-- invoices, and the metered and invoiced totals of all firms agree.
pub global_reconciliation-TiesOut :
    (env : Env) (credentials : Credentials) (s e : Option Moment) (db after : Db) (out : GlobalOut)
    → global_reconciliation env credentials s e db ≡ ok (out, after)
    → out.all_clean ≡ true
    → TiesOut out.totals
unfolding global_reconciliation
global_reconciliation-TiesOut env credentials s e db after out run clean =
    let tied : if out.all_clean then TiesOut out.totals else Unit =
      Ensures-ok {Q = λ (out : GlobalOut) d. if out.all_clean then TiesOut out.totals else Unit}
        (Ensures-role env credentials internal _
          (λ actor db1 role same. record { at = tied_lem db1 s e }))
        run in
    subst (λ b. if b then TiesOut out.totals else Unit) clean tied
