-- ===== src/Examples/Gates.antt =====
-- Examples of the template, the effect classes, the start gate and the coverage.
use epiphany_executor.Prelude.{
  ◌≡◌, refl, String, true, not, ◌&&◌, ◌||◌, List, [], ◌∷◌, ◌++◌, ok, lookup, any, is_empty, elem,
  or_else, sorted, codes, lower, strip, contains,
}
use epiphany_executor.Value.{
  Value, null, str, arr, obj, nil, cons, Fields, end, field, truthy, to_text,
}
use epiphany_executor.Contract.{Contract}
use epiphany_executor.Scheduler.Static.{irreversible_markers, names_any}
use epiphany_executor.Template.{stamp_node_contract}
use epiphany_executor.Template.Stamped.{Stamped, stamp_node_contract-Stamped}
use epiphany_executor.EffectClass.{pure, classify_low, step_is_gated}
use epiphany_executor.EffectClass.Markers.{step_is_gated_marked}
use epiphany_executor.Gate.{GateDecision, halts, halt, dicts, evaluate_gate, structural_fault}
use epiphany_executor.Gate.Halting.{verdict_fails, step_blocks, evaluate_gate-halts}
use epiphany_executor.Coverage.{
  Tracing, plan_tracings, input_obligations, req_to_step_map, CoverageReport,
  executor_caused_orphans, coverage_report,
}
use epiphany_executor.Coverage.Orphans.{tracing_steps, orphan_names, coverage_report-orphans}
use epiphany_executor.Examples.Data.{step_a}

abbrev raw_step : Fields
raw_step =
    field "step_id" (str "s1")
      (field "outputs" (arr (cons (str "x.py") nil)) (field "owner" (str "me") end))

stamp_node_contract-raw : (c : Contract) × (stamp_node_contract (obj raw_step) ≡ ok c)
unfolding stamp_node_contract
stamp_node_contract-raw = (_, refl)

stamp_node_contract-Stamped_example : Stamped raw_step stamp_node_contract-raw.0
stamp_node_contract-Stamped_example =
    stamp_node_contract-Stamped raw_step stamp_node_contract-raw.0 stamp_node_contract-raw.1

push_marked : names_any irreversible_markers (codes "git push origin") ≡ true
unfolding contains
push_marked = refl

ls_pure : classify_low (codes "ls src") ≡ pure
unfolding classify_low
ls_pure = refl

abbrev pushing : Contract
pushing = record step_a { actions = str "ls src" ∷ str " Git PUSH origin" ∷ [] }

lower-push :
    lower (strip (codes (to_text (str " Git PUSH origin")))) ≡ [] ++ codes "git push origin" ++ []
unfolding lower strip to_text
lower-push = refl

step_is_gated_marked_example : step_is_gated pushing ≡ true
step_is_gated_marked_example =
    step_is_gated_marked pushing (str "ls src" ∷ []) [] (str " Git PUSH origin") []
      (codes "git push origin") [] refl lower-push push_marked

-- a passing plan with one structural fault
abbrev faulty_plan : Fields
faulty_plan = field "gate_status" (obj (field "verdict" (str "PASS") end)) (
    field "structural_faults" (arr (cons (obj (field "fault_id" (str "F1") end)) nil))
      (field "steps" (arr nil) end))

abbrev faulty_decision : GateDecision
faulty_decision = record {
  decision = halt;
  reasons = structural_fault (str "F1") (str "") ∷ [];
  blocking_steps = [];
}

evaluate_gate-faulty : evaluate_gate faulty_plan ≡ ok faulty_decision
unfolding evaluate_gate sorted
evaluate_gate-faulty = refl

evaluate_gate-halts_example : halts faulty_decision ≡ (
    verdict_fails (field "verdict" (str "PASS") end)
    || not (is_empty {A = Value} [])
    || not (is_empty (dicts (obj (field "fault_id" (str "F1") end) ∷ [])))
    || any step_blocks (dicts []))
evaluate_gate-halts_example =
    evaluate_gate-halts faulty_plan (field "verdict" (str "PASS") end) []
      (obj (field "fault_id" (str "F1") end) ∷ []) [] faulty_decision refl refl refl refl
      evaluate_gate-faulty

-- one step that traces R1; the plan asks for R1 and R2, and maps R2 to a step
abbrev traced_plan : Fields
traced_plan =
    field "steps"
      (arr (cons (obj (field "step_id" (str "s1") (field "traces_to" (str "R1") end))) nil))
      (field "requirement_preservation"
        (obj (field "input_obligations" (arr (cons (str "R1") (cons (str "R3") nil))) end))
        (field "gate_status"
          (obj (field "requirement_to_step_map" (obj (field "R2" (str "s1") end)) end)) end))

abbrev traced : List Tracing
traced = record { step_id = str "s1"; requirements = "R1" ∷ [] } ∷ []

plan_tracings-traced : plan_tracings traced_plan ≡ ok traced
unfolding plan_tracings
plan_tracings-traced = refl

input_obligations-traced : input_obligations traced_plan ≡ ok ("R1" ∷ "R3" ∷ [])
unfolding input_obligations
input_obligations-traced = refl

req_to_step_map-traced : req_to_step_map traced_plan ≡ ok (("R2", str "s1") ∷ [])
unfolding req_to_step_map
req_to_step_map-traced = refl

coverage_report-orphans_example :
    (r : CoverageReport) × (coverage_report traced_plan ≡ ok r)
    × ((req : String)
        → (elem req (orphan_names r.orphans)
            ≡ (elem req ("R1" ∷ "R3" ∷ "R2" ∷ []) && is_empty (tracing_steps req traced)))
          × (elem req (orphan_names (executor_caused_orphans r)) ≡ (
              elem req ("R1" ∷ "R3" ∷ "R2" ∷ [])
              && is_empty (tracing_steps req traced)
              && truthy (or_else (lookup req (("R2", str "s1") ∷ [])) null))))
coverage_report-orphans_example =
    coverage_report-orphans traced_plan traced ("R1" ∷ "R3" ∷ []) (("R2", str "s1") ∷ [])
      plan_tracings-traced input_obligations-traced req_to_step_map-traced
