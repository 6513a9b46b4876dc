-- ===== src/Examples.antt =====
-- Concrete rows, and each theorem at one of them.
pub mod Data
mod Pipeline
mod Money
mod Policies
mod Service
mod Access
mod Schema
