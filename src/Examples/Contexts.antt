-- ===== src/Examples/Contexts.antt =====
-- Examples of the context of a step, of the speculation and of the memory.
use epiphany_executor.Prelude.{
  ◌≡◌, refl, String, true, false, ◌&&◌, none, List, [], ◌∷◌, ok, Result, Dict, elem, length, sorted,
}
use epiphany_executor.Value.{Value, str, null, arr, obj, cons, nil, Fields, field, end}
use epiphany_executor.Contract.{Contract}
use epiphany_executor.Scheduler.Static.{
  externally_irreversible, static_effect_class, is_irreversible_output,
}
use epiphany_executor.Scheduler.Dag.{Dag, prereqs}
use epiphany_executor.Scheduler.Cohort.{contract_at}
use epiphany_executor.Context.Tier.{deep, suggested_tier}
use epiphany_executor.Context.Clobber.{OsPath}
use epiphany_executor.Context.{StepContext, hold_all, reversibility_deep, build_step_context}
use epiphany_executor.Context.Assembled.{
  Floor, build_step_context-Floor, build_step_context-neighbours,
}
use epiphany_executor.Speculate.{Prediction, SpeculationResult}
use epiphany_executor.Memory.{Prior, new_prior, distill_priors, prior_to_scheduling_hint}
use epiphany_executor.Memory.Advisory.{put_all, flywheel}
use epiphany_executor.Examples.Data.{step_c, plan}

abbrev plain_os : OsPath
plain_os = record { expanduser = λ s. s; normpath = λ s. s; isabs = λ s. true; join = λ a b. b }

abbrev dag : Dag
dag = ("a", []) ∷ ("b", []) ∷ ("c", "a" ∷ []) ∷ []

abbrev deltas : Dict String
deltas = ("a", "x.py") ∷ []

abbrev context_c : StepContext String
context_c = record {
  step_id = "c";
  look_behind = "a" ∷ [];
  look_ahead = [];
  predecessor_deltas = deltas;
  resident_mode = hold_all;
  thinking_tier = deep;
  tier_rationale = reversibility_deep externally_irreversible ∷ [];
  target_profile = "generic";
  target_subsystem = null;
  harness_forge_context = [];
  self_clobber_paths = [];
}

contract_at-c : contract_at plan "c" ≡ ok step_c
unfolding contract_at
contract_at-c = refl

build_step_context-c :
    build_step_context plain_os plan "c" dag ("a" ∷ []) deltas 10 10 end end null ≡ ok context_c
unfolding build_step_context contract_at suggested_tier sorted static_effect_class
    is_irreversible_output
build_step_context-c = refl

build_step_context-Floor_example :
    Floor step_c (length context_c.look_ahead) context_c.self_clobber_paths context_c.thinking_tier
build_step_context-Floor_example =
    build_step_context-Floor plain_os plan "c" dag ("a" ∷ []) deltas 10 10 end end null step_c
      context_c contract_at-c build_step_context-c

build_step_context-neighbours_example :
    (elem "a" context_c.look_behind ≡ (elem "a" (prereqs dag "c") && elem "a" ("a" ∷ [])))
    × (elem "a" context_c.look_ahead ≡ elem "c" (prereqs dag "a"))
build_step_context-neighbours_example =
    build_step_context-neighbours plain_os plan "c" dag ("a" ∷ []) deltas 10 10 end end null
      context_c "a" (refl, (refl, (refl, tt))) build_step_context-c

abbrev outputs : List Value
outputs = str "~/.claude/skills/x" ∷ str "out/y" ∷ null ∷ []

abbrev one_output : String → Contract → Result Fields
one_output sid c = ok (field "predicted_outputs" (arr (cons (str sid) nil)) end)

abbrev predicted : String → Prediction
predicted sid = record {
  step_id = sid;
  predicted_outputs = sid ∷ [];
  effort = null;
  stubbed_irreversible = false;
  error = none;
  committed_ledger = false;
}

abbrev speculation : SpeculationResult
speculation = record {
  predictions = ("a", predicted "a") ∷ ("b", predicted "b") ∷ [];
  predicted_conflicts = [];
}

abbrev actuals : Fields
actuals = field "suggested_tier" (str "deep") end

abbrev distilled : List Prior
distilled = new_prior "budget_calibration" "budget-calibration" (obj actuals) "run-1" ∷ []

distill_priors-actuals : distill_priors [] "run-1" null (obj actuals) ≡ ok distilled
unfolding distill_priors
distill_priors-actuals = refl

flywheel_example :
    prior_to_scheduling_hint (put_all distilled []) ≡ field "suggested_tier" (str "deep") end
flywheel_example = flywheel [] "run-1" null actuals [] distilled tt refl distill_priors-actuals
