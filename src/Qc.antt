-- ===== src/Qc.antt =====
-- The package src/factory/qc: the reviewer of gate 3, the pipeline, and the calibration report.
pub mod AutoReviewer
pub mod Rows
pub mod Engine
pub mod Decision
