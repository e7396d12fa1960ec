-- ===== src/Examples/Schedule.antt =====
-- Examples of the schedule.
use epiphany_executor.Scheduler.Cycle.Enough.{EmptyOrCycle, search_cycle_sound}
use epiphany_executor.Prelude.{
  ℕ, ◌≡◌, refl, ◌<◌, String, true, false, none, some, List, [], ◌∷◌, ok, keys, count, flatten, map,
  sorted, All, Distinct, arith, inl, ◌==◌, eq_iff, if◌then◌else◌,
}
use epiphany_executor.Scheduler.Static.{
  static_effect_class, is_irreversible_output, provably_disjoint, canonical_outputs,
}
use epiphany_executor.Scheduler.Dag.{Dag, build_dag}
use epiphany_executor.Scheduler.Dag.Edges.{NamesStep, SomeDep}
use epiphany_executor.Scheduler.Cycle.Acyclic.{Ranked}
use epiphany_executor.Scheduler.Cycle.{Search, gray, search_cycle}
use epiphany_executor.Scheduler.Layers.{topo_layers}
use epiphany_executor.Scheduler.Layers.Total.{Closed}
use epiphany_executor.Scheduler.Cohort.{default_budget, contract_at, partition_cohort}
use epiphany_executor.Scheduler.Waves.{Wave, all_steps, schedule_waves}
use epiphany_executor.Scheduler.Waves.Plan.{wave_index, RunsSafely, schedule_waves_total}
use epiphany_executor.Scheduler.Waves.Schedule.{
  schedule_waves-count, schedule_waves_after, schedule_waves-RunsSafely,
}
use epiphany_executor.Examples.Data.{no_path, step_a, step_b, step_c, plan}

abbrev waves : List Wave
waves =
    record { index = 0; parallel = "a" ∷ "b" ∷ []; serial = [] }
    ∷ record { index = 1; parallel = []; serial = "c" ∷ [] }
    ∷ []

abbrev dag : Dag
dag = ("a", []) ∷ ("b", []) ∷ ("c", "a" ∷ []) ∷ []

plan-Distinct : Distinct plan
plan-Distinct = (refl, (refl, (refl, tt)))

dag-Distinct : Distinct dag
dag-Distinct = (refl, (refl, (refl, tt)))

build_dag-plan : build_dag plan [] ≡ ok dag
unfolding build_dag
build_dag-plan = refl

topo_layers-dag : topo_layers dag ≡ ok (("a" ∷ "b" ∷ []) ∷ ("c" ∷ []) ∷ [])
unfolding topo_layers sorted
topo_layers-dag = refl

schedule_waves-plan : schedule_waves no_path plan [] none false ≡ ok waves
unfolding schedule_waves sorted static_effect_class is_irreversible_output provably_disjoint
    canonical_outputs
schedule_waves-plan = refl

partition_cohort-plan :
    partition_cohort no_path plan ("a" ∷ "b" ∷ []) default_budget ≡ ok ("a" ∷ "b" ∷ [], [])
unfolding partition_cohort static_effect_class is_irreversible_output provably_disjoint
    canonical_outputs
partition_cohort-plan = refl

c_names_a : SomeDep (NamesStep (keys plan) "c" "a") step_c.dependencies
c_names_a = inl (refl, refl, λ e. cc ((eq_iff "a" "c").1 e))

-- the step that needs another one is last
abbrev rank : String → ℕ
rank s = if s == "c" then 1 else 0

rank-Ranked : Ranked rank dag
rank-Ranked s p h = ground (arith, eq_iff "a" s, eq_iff "b" s, eq_iff "c" s, eq_iff "a" p)

dag-Closed : Closed dag
dag-Closed s p h = ground (arith, eq_iff "a" p)

schedule_waves-count_example : count "c" (flatten (map all_steps waves)) ≡ count "c" (keys plan)
schedule_waves-count_example =
    schedule_waves-count no_path plan [] none false waves "c" plan-Distinct schedule_waves-plan

schedule_waves_after_example : wave_index "a" waves < wave_index "c" waves
schedule_waves_after_example =
    schedule_waves_after no_path plan [] none false waves "c" "a" step_c plan-Distinct
      schedule_waves-plan refl c_names_a

schedule_waves-RunsSafely_example : All (RunsSafely no_path plan default_budget false) waves
schedule_waves-RunsSafely_example =
    schedule_waves-RunsSafely no_path plan [] none false waves plan-Distinct schedule_waves-plan

schedule_waves_total_example : (ws : List Wave) × (schedule_waves no_path plan [] none true ≡ ok ws)
schedule_waves_total_example =
    schedule_waves_total no_path rank plan [] none true dag plan-Distinct build_dag-plan rank-Ranked

both_known : All (λ s. (c : _) × (contract_at plan s ≡ ok c)) ("a" ∷ "b" ∷ [])
unfolding contract_at
both_known = ((step_a, refl), ((step_b, refl), tt))

abbrev two_cycle : Dag
two_cycle = ("a", "b" ∷ []) ∷ ("b", "a" ∷ []) ∷ []

abbrev stopped : Search
stopped = record { color = ("a", gray) ∷ ("b", gray) ∷ []; stack = "a" ∷ "b" ∷ [] }

search_cycle-two_cycle : search_cycle two_cycle ≡ some ("a" ∷ "b" ∷ "a" ∷ [], stopped)
unfolding search_cycle
search_cycle-two_cycle = refl

search_cycle_sound_example :
    (path : List String) × (s : Search) × (search_cycle two_cycle ≡ some (path, s))
    × EmptyOrCycle two_cycle path
search_cycle_sound_example = search_cycle_sound two_cycle
