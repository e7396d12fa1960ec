-- ===== src/Benchmark/Arm.antt =====
-- An executor arm of epiphany_executor/benchmark.py from the plan to its metrics.
use epiphany_executor.Prelude.{true, not, ◌≡◌, Dict, keys, Distinct, all, ◌==◌}
use epiphany_executor.Value.{Value}
use epiphany_executor.Contract.{Contract}

-- The contracts are keyed by ids that are not empty, each once.
abbrev Keyed : Dict Contract → Type 0
Keyed contracts = Distinct contracts × (all (λ k. not (k == "")) (keys contracts) ≡ true)
