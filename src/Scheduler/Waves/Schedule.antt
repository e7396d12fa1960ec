-- ===== src/Scheduler/Waves/Schedule.antt =====
-- The schedule of `schedule_waves` in epiphany_executor/scheduler.py, part by part.
use epiphany_executor.Prelude.{
  ◌<◌, String, Bool, ◌≡◌, Option, some, List, ok, Dict, keys, lookup, Distinct, count, flatten, map,
  All, or_else,
}
use epiphany_executor.Value.{Value}
use epiphany_executor.Contract.{Contract}
use epiphany_executor.Scheduler.Dag.Edges.{NamesStep, SomeDep}
use epiphany_executor.Scheduler.Cohort.{FanoutBudget, default_budget}
use epiphany_executor.Scheduler.Waves.{Wave, all_steps, schedule_waves}
use epiphany_executor.Scheduler.Waves.Plan.{wave_index, RunsSafely, schedule_waves_sound}

module _ (canonical : String → Option String) (contracts : Dict Contract) (build_order : List Value)
    (budget : Option FanoutBudget) (serial : Bool) (waves : List Wave) where
  -- When a plan of contracts with distinct ids is scheduled, every step stands in the waves exactly
  -- as often as in the plan: no step is dropped and none runs twice.
  pub schedule_waves-count :
      (s : String)
      → Distinct contracts
      → schedule_waves canonical contracts build_order budget serial ≡ ok waves
      → count s (flatten (map all_steps waves)) ≡ count s (keys contracts)
  schedule_waves-count s d h =
      (schedule_waves_sound canonical contracts build_order budget serial waves d h).0 s

  -- In the schedule of a plan with distinct ids, a step runs in a later wave than each step of the
  -- plan that it names as a dependency, whatever the build order, the budget and the mode are.
  pub schedule_waves_after :
      (s p : String) (c : Contract)
      → Distinct contracts
      → schedule_waves canonical contracts build_order budget serial ≡ ok waves
      → lookup s contracts ≡ some c
      → SomeDep (NamesStep (keys contracts) s p) c.dependencies
      → wave_index p waves < wave_index s waves
  schedule_waves_after s p c d h found names =
      (schedule_waves_sound canonical contracts build_order budget serial waves d h).1 s p c found
        names

  -- In the schedule of a plan with distinct ids, each wave runs safely: a serial plan has no cohort
  -- at all, and else the cohort's steps have declared, local write sets that are pairwise disjoint,
  -- and are no more than the budget's cap.
  pub schedule_waves-RunsSafely :
      Distinct contracts
      → schedule_waves canonical contracts build_order budget serial ≡ ok waves
      → All (RunsSafely canonical contracts (or_else budget default_budget) serial) waves
  schedule_waves-RunsSafely d h =
      (schedule_waves_sound canonical contracts build_order budget serial waves d h).2
