-- ===== src/Examples/Data.antt =====
-- The contracts and the plan that the examples share.
use epiphany_executor.Prelude.{String, true, false, Option, none, some, List, [], ◌∷◌, Dict}
use epiphany_executor.Value.{Value, str, end}
use epiphany_executor.Contract.{Contract, Dependency}

abbrev pub no_path : String → Option String
no_path s = none

abbrev pub on_step : String → Dependency
on_step s = record {
  on = str s;
  kind = str "ordering";
  edge_class = str "ordering";
  from_typed = false;
}

-- a step with its dependencies, its outputs and its acceptance criteria
abbrev pub step : String → List Dependency → List Value → List Value → Contract
step sid deps outputs criteria = record {
  step_id = str sid;
  goal = str "";
  actions = [];
  inputs = [];
  dependencies = deps;
  lifecycle = record { state = "UNSTARTED"; history = [] };
  dod = some (record {
    acceptance_criteria = criteria;
    integration_checks = [];
    outputs = outputs;
    verifiable = true;
  });
  effect = some (record {
    effect_class = "unclassified";
    footprint = some (record { declared_outputs = outputs; conflicts_with_all = false });
  });
  traces = [];
  extra = end;
}

abbrev pub step_a : Contract
step_a = step "a" [] (str "x.py" ∷ []) (str "pytest passes" ∷ [])

abbrev pub step_b : Contract
step_b = step "b" [] (str "y.py" ∷ []) (str "code is readable" ∷ [])

abbrev pub step_c : Contract
step_c = step "c" (on_step "a" ∷ []) (str "https://host" ∷ []) (str "file exists" ∷ [])

abbrev pub plan : Dict Contract
plan = ("a", step_a) ∷ ("b", step_b) ∷ ("c", step_c) ∷ []
