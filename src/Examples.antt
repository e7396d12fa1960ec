-- ===== src/Examples.antt =====
-- Concrete plans, contracts and ledgers, tests of the definitions on them, and the theorems applied
-- to them. It models no code of its own.
mod Data
mod Schedule
mod Lifecycle
mod Review
mod Verdicts
mod Gates
mod Effects
mod Contexts
mod Reports
mod Arms
