-- ===== src/Scheduler/Waves.antt =====
-- `schedule_waves` and `schedule_summary` of epiphany_executor/scheduler.py.
pub mod Plan
pub mod Schedule
pub mod Whole
use Prim.Native.Nat.{max}
use epiphany_executor.Prelude.{
  ℕ, zero, suc, ◌+◌, String, Bool, true, false, Option, none, some, List, [], ◌∷◌, ◌++◌, Result, ok,
  ◌>>=◌, Dict, if◌then◌else◌, length, or_else,
}
use epiphany_executor.Value.{Value}
use epiphany_executor.Contract.{Contract}
use epiphany_executor.Scheduler.Dag.{Dag, build_dag}
use epiphany_executor.Scheduler.Layers.{topo_layers}
use epiphany_executor.Scheduler.Cohort.{FanoutBudget, default_budget, partition_cohort}

pub record Wave : Type 0 where
  pub index : ℕ
  pub parallel : List String
  pub serial : List String

-- `Wave.width` and `Wave.all_steps`
abbrev pub width : Wave → ℕ
width w = length w.parallel

abbrev pub all_steps : Wave → List String
all_steps w = w.parallel ++ w.serial

module _ (canonical : String → Option String) where
  -- the body of the loop over the layers
  unfoldable pub make_wave : Dict Contract → FanoutBudget → Bool → ℕ → List String → Result Wave
  unfolding partition_cohort
  make_wave contracts budget true i layer = ok (record { index = i; parallel = []; serial = layer })
  make_wave contracts budget false i layer = do
    (par, ser) ← partition_cohort canonical contracts layer budget
    ok (record { index = i; parallel = par; serial = ser })

  unfoldable pub make_waves :
      Dict Contract → FanoutBudget → Bool → ℕ → List (List String) → Result (List Wave)
  unfolding make_wave
  make_waves contracts budget serial i [] = ok []
  make_waves contracts budget serial i (layer ∷ layers) = do
    w ← make_wave contracts budget serial i layer
    ws ← make_waves contracts budget serial (i + 1) layers
    ok (w ∷ ws)

  -- `build_order or None`: an empty list adds no edge, and stands for a missing one too
  unfoldable pub schedule_waves :
      Dict Contract → List Value → Option FanoutBudget → Bool → Result (List Wave)
  unfolding build_dag topo_layers make_waves
  schedule_waves contracts build_order budget serial = do
    dag ← build_dag contracts build_order
    layers ← topo_layers dag
    make_waves contracts (or_else budget default_budget) serial 0 layers

pub record Summary : Type 0 where
  pub n_waves : ℕ
  pub max_cohort_width : ℕ
  pub n_parallel_steps : ℕ
  pub n_serial_steps : ℕ

-- `max((w.width for w in waves), default=0)`
max_width : List Wave → ℕ
max_width [] = 0
max_width (w ∷ ws) = max (width w) (max_width ws)

sum_parallel : List Wave → ℕ
sum_parallel [] = 0
sum_parallel (w ∷ ws) = width w + sum_parallel ws

sum_serial : List Wave → ℕ
sum_serial [] = 0
sum_serial (w ∷ ws) = length w.serial + sum_serial ws

unfoldable pub schedule_summary : List Wave → Summary
unfolding max_width sum_parallel sum_serial
schedule_summary waves = record {
  n_waves = length waves;
  max_cohort_width = max_width waves;
  n_parallel_steps = sum_parallel waves;
  n_serial_steps = sum_serial waves;
}
