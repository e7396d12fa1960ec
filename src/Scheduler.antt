-- ===== src/Scheduler.antt =====
-- epiphany_executor/scheduler.py: from compiled contracts to waves. The children follow the file
-- from top to bottom: static effect classes, the dependency graph, the cycle search, the layers,
-- the cohorts and the waves.
pub mod Static
pub mod Dag
pub mod Cycle
pub mod Layers
pub mod Cohort
pub mod Waves
