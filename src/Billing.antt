-- ===== src/Billing.antt =====
-- The package src/factory/billing: the payment gateway, metering, invoices, payments and reports.
pub mod Gateway
pub mod Metering
pub mod Invoicing
pub mod Payments
pub mod Reports
pub mod Kept
pub mod Invariant
