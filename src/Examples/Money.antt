-- ===== src/Examples/Money.antt =====
-- Metering, invoices and payments of src/factory/billing/ on the rows of Data.
use human_data.Billing.Payments.Transitions.{handle_stripe_event-replay}
use human_data.Billing.Payments.{
  record_external_payment, handle_stripe_event, Handled, unknown_checkout,
}
use human_data.Billing.Reports.{reconciliation_report, amount, subtotal}
use human_data.Store.Ensures.{Ensures}
use human_data.Store.{Result, Db, ok, is_ok}
use human_data.Billing.Metering.Once.{Meters, IsMeteredOnce, record_approved_record-Meters}
use human_data.Examples.Data.{
  empty_db, praising, value_of, tables_of, billed_db, acme, leases, invoice_of, lease_task,
  first_try,
}
use human_data.Prelude.{some, arith, ◌≡◌, none, true, ◌↔◌, sum_of, refl, select, All}
use human_data.Model.Entities.{Invoice, cs_fake}
use human_data.Billing.Metering.{record_approved_record}
use human_data.Billing.Invoicing.{generate_invoice, is_due}
use human_data.Audit.{record_event}
use human_data.Billing.Invoicing.Issue.{Issued, generate_invoice-Issued}
use human_data.Model.Enums.{issued_external}
use human_data.Billing.Reports.AfterInvoice.{generate_invoice-clean}
use human_data.Billing.Reports.Window.{
  reconciliation_report-clean_iff, IsOnInvoice, is_usage_of, is_invoice_of,
}
use human_data.Billing.Invoicing.Returns.{generate_invoice-is_ok}
use human_data.Config.{StripeEvent}

abbrev is_billed_once : IsMeteredOnce empty_db
is_billed_once t = omega arith

generate_invoice-Issued_example :
    Ensures (generate_invoice praising acme 0 30 9) billed_db (Issued praising acme 0 30 billed_db)
generate_invoice-Issued_example =
    generate_invoice-Issued praising acme 0 30 9 billed_db (omega arith, tt)

generate_invoice-clean_example :
    Ensures
      (generate_invoice praising acme 0 30 9)
      billed_db
      (λ invoice after. (reconciliation_report after acme none none).clean ≡ true)
generate_invoice-clean_example =
    generate_invoice-clean praising acme 0 30 9 billed_db (omega arith, tt) refl refl

record_approved_record-Meters_example :
    Meters praising leases lease_task first_try empty_db
      (record_approved_record praising leases lease_task first_try empty_db)
record_approved_record-Meters_example =
    record_approved_record-Meters praising leases lease_task first_try empty_db

abbrev payment : Result (Invoice × Db)
payment = record_external_payment praising (invoice_of 40 issued_external) "wire 77" 9 billed_db

abbrev completed_checkout : StripeEvent
completed_checkout = record {
  etype = "checkout.session.completed";
  object_id = some (cs_fake 77);
  payment_intent = none;
  hdf_invoice_id = some 40;
}

abbrev delivery : Result (Handled × Db)
delivery = handle_stripe_event praising completed_checkout billed_db

handle_stripe_event-replay_example :
    handle_stripe_event praising completed_checkout (tables_of delivery)
    ≡ ok (value_of unknown_checkout delivery, tables_of delivery)
unfolding handle_stripe_event record_event
handle_stripe_event-replay_example =
    handle_stripe_event-replay praising completed_checkout 40 (invoice_of 40 issued_external)
      billed_db (tables_of delivery) (value_of unknown_checkout delivery) refl refl refl refl

-- the window has the older invoice and the usage that is on it
reconciliation_report-clean_iff_example :
    ((reconciliation_report billed_db acme (some 0) (some 12)).clean ≡ true) ↔ (
      All (IsOnInvoice 1 (some 0) (some 12)) billed_db.usage_events
      × (sum_of amount (select (is_usage_of 1 (some 0) (some 12)) billed_db.usage_events)
          ≡ sum_of subtotal (select (is_invoice_of 1 (some 0) (some 12)) billed_db.invoices)))
reconciliation_report-clean_iff_example =
    reconciliation_report-clean_iff billed_db acme (some 0) (some 12)

generate_invoice-is_ok_example : is_ok (generate_invoice praising acme 0 30 9 billed_db) ≡ true
unfolding is_due
generate_invoice-is_ok_example =
    generate_invoice-is_ok praising acme 0 30 9 billed_db refl (omega arith) refl
