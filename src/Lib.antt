-- ===== src/Lib.antt =====
-- Verification of epiphany-executor, which imports a plan, compiles each of its steps to a contract,
-- schedules the steps in waves, verifies what was done, and halts, reviews or recovers.
--
-- The parts, and the files here that model them:
--   * Value: the JSON values of a plan, with Python's `str`, truth test and dictionary reads;
--     Prelude: texts, dictionaries, sorting, exceptions, and the lemmas that the parts share.
--   * Contract, Template: epiphany_executor/contract_template.py. `stamp_node_contract` turns a raw
--     step into a `Contract`, which all later parts read.
--   * Scheduler: epiphany_executor/scheduler.py. `schedule_waves` builds the graph of the contracts
--     (Scheduler/Dag), rejects a cycle (Scheduler/Cycle), layers it (Scheduler/Layers), splits each
--     layer into a cohort and a serial rest (Scheduler/Cohort) and returns waves (Scheduler/Waves).
--     Scheduler/Static has the static effect class and the write sets.
--   * Lifecycle: epiphany_executor/lifecycle.py. The states and the transition table, the store that
--     folds the ledger back into cursors (Lifecycle/Store), and the barrier order
--     (Lifecycle/Barrier). Ledger is the interface of the ledger.
--   * EffectClass: epiphany_executor/effect_class.py, the class of a command before it runs.
--   * Gate: epiphany_executor/gate_defect.py, the start gate on a plan's own verdict.
--   * Coverage: epiphany_executor/coverage.py, the requirement matrix and its orphans.
--   * Dod: epiphany_executor/dod.py, the verification of a step by a jury.
--   * Review: epiphany_executor/review.py, state deltas (Review/Delta), bounded back-updates
--     (Review/BackUpdate) and the regression sentinel (Review/Sentinel).
--   * Effector: epiphany_executor/effector.py, the dispatch of one wave, each step in its own worktree,
--     up to the barrier. It takes a wave of the scheduler.
--   * Recovery: epiphany_executor/recovery.py, the halt and its menu, and the rollback of a wave.
--   * Context: epiphany_executor/context_builder.py, the context and the thinking tier of a step
--     (Context/Tier) and the guard against outputs over live directories (Context/Clobber).
--   * Speculate: epiphany_executor/speculate.py, the dry run of a layer and the cohort it leaves.
--   * Memory: epiphany_executor/memory.py, the priors that one run leaves for the next one's tiers.
--   * Drift: epiphany_executor/drift.py, what a changed plan means for its started steps.
--   * Telemetry: epiphany_executor/telemetry.py, the health view over the ledger that Lifecycle folds,
--     and the choices at a halt. Lifecycle/Store/Health relates the two readings.
--   * Baseline, Benchmark: epiphany_executor/baseline.py and epiphany_executor/benchmark.py. The
--     benchmark runs the template, the scheduler, the verification, the lifecycle store, the review
--     and the coverage on one plan, and compares the result with the sequential applier.
--   * Corpus, Validate: epiphany_executor/corpus.py and epiphany_executor/validate.py, which put the
--     gate and the scheduler to the tuning plans. Census: epiphany_executor/census.py.
--   * Convergence: epiphany_executor/convergence.py. Reconcile: tools/reconcile_forge.py.
--   * Examples: concrete plans, tests, and the theorems applied to them.
--
-- State and effects. The ledger of the harness is a parameter with one law: what is read back is
-- what was appended, in order. A stateful call takes the state and returns the next one; an
-- exception is an error value, with the state behind it where that outlives the exception. Checks,
-- assertions and the file system are functions that are parameters; those that are called many times
-- also see how often they were called before, so that they may answer differently each time. A
-- confidence is counted in tenths, and a rate is a fraction. Texts are ASCII where case, white space
-- or words matter.
--
-- Fuel. The cycle search has one level of fuel for each name in the graph, plus one: every nested
-- call enters a name that was not entered before. The layering has one round for each step: every
-- round that goes on takes at least one step out.
--
-- Not modelled: reading and writing files (`PriorStore.load` and `save`, `record_closure`,
-- `enumerate_json_runs`, `enumerate_md_plans`, `_load_plan_dict`, whose results are parameters), the
-- rendered census, the held-out plans of the benchmark, tools/selfhost.py and tools/v_battery.py,
-- which run the package and print, and functions that only call the harness or a checkpoint library
-- (`conformance_check`, `make_burr_checkpoint`).
mod Prelude
pub mod Value
pub mod Ledger
pub mod Lifecycle
pub mod Contract
pub mod Scheduler
pub mod Template
pub mod EffectClass
pub mod Gate
pub mod Coverage
pub mod Dod
pub mod Effector
pub mod Recovery
pub mod Context
pub mod Telemetry
pub mod Drift
pub mod Memory
pub mod Speculate
pub mod Census
pub mod Reconcile
pub mod Corpus
pub mod Validate
pub mod Convergence
pub mod Baseline
pub mod Benchmark
pub mod Review
pub mod Examples
