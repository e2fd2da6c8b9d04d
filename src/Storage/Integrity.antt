-- ===== src/Storage/Integrity.antt =====
-- Referential integrity of the database: the foreign keys of the schema (storage/database.py), table
-- by table.
pub mod Invariant
pub mod Writes
