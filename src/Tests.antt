-- ===== src/Tests.antt =====
-- Concrete data on which the theorems are applied, by component.
mod Data
mod Runs
mod Writes
mod Plans
mod Models
mod Executions
mod Screens
mod Analyses
mod Handovers
