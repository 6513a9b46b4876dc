-- ===== src/Model.antt =====
-- The data model of src/factory/models.py: enumerations, JSON columns, rows and tables.
pub mod Enums
pub mod Json
pub mod Entities
