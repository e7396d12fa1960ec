-- ===== src/Template.antt =====
-- epiphany_executor/contract_template.py: one raw plan step becomes one compiled contract.
pub mod Stamped
use epiphany_executor.Prelude.{
  String, Bool, true, false, not, ◌||◌, ◌&&◌, Option, none, some, List, [], ◌∷◌, ◌++◌, Result, ok,
  err, ◌>>=◌, ◌>>◌, guard, type_error, value_error, attribute_error, assertion_error, if◌then◌else◌,
  elem, keep, is_empty,
}
use epiphany_executor.Value.{
  Value, null, bool, nat, negative, float, str, arr, obj, Fields, end, field, to_list, get, get_or,
  truthy,
}
use epiphany_executor.Contract.{Dependency, Footprint, Effect, DodField, Lifecycle, Contract}

abbrev pub lifecycle_states : List String
lifecycle_states =
    "UNSTARTED" ∷ "IN_FLIGHT" ∷ "VERIFIED" ∷ "ACCEPTED" ∷ "BLOCKED" ∷ "FAILED" ∷ "AMENDED"
    ∷ "AWAITING" ∷ []

abbrev pub known_step_keys : List String
known_step_keys =
    "step_id" ∷ "goal" ∷ "actions" ∷ "inputs" ∷ "outputs" ∷ "dependencies" ∷ "integration_checks"
    ∷ "acceptance_criteria" ∷ "traces_to" ∷ "traces_requirements" ∷ "phase"
    ∷ "refinement_back_edges" ∷ []

unfoldable pub as_list : Value → List Value
as_list null = []
as_list (arr vs) = to_list vs
as_list v = v ∷ []

abbrev or_if_null : Value → Value → Value
or_if_null null w = w
or_if_null v w = v

unfoldable pub traces_of : Fields → List Value
unfolding as_list
traces_of step = as_list (or_if_null (get "traces_to" step) (get "traces_requirements" step))

-- The record of one dependency; a value that is neither a text nor a dict gives none.
unfoldable pub dependency : Value → List Dependency
dependency (str s) =
    record { on = str s; kind = str "ordering"; edge_class = str "ordering"; from_typed = false }
    ∷ []
dependency (obj fs) =
    record {
      on = get "on" fs;
      kind = get_or "kind" (str "ordering") fs;
      edge_class = get_or "edge_class" (str "ordering") fs;
      from_typed = true;
    }
    ∷ []
dependency v = []

unfoldable pub dependencies_of : List Value → List Dependency
unfolding dependency
dependencies_of [] = []
dependencies_of (v ∷ vs) = dependency v ++ dependencies_of vs

unfoldable pub normalize_deps : Fields → List Dependency
unfolding dependencies_of as_list
normalize_deps step = dependencies_of (as_list (get "dependencies" step))

-- `a or b`
abbrev py_or : Value → Value → Value
py_or a b = if truthy a then a else b

-- `o if isinstance(o, str) else (o.get("path") or o.get("name"))`
unfoldable pub output_name : Value → Result Value
output_name (str s) = ok (str s)
output_name (obj fs) = ok (py_or (get "path" fs) (get "name" fs))
output_name v = err attribute_error

unfoldable pub output_names : List Value → Result (List Value)
unfolding output_name
output_names [] = ok []
output_names (o ∷ os) = do name ← output_name o; names ← output_names os; ok (name ∷ names)

unfoldable pub static_footprint : List Value → Result Footprint
unfolding output_names
static_footprint outputs = do
  names ← output_names outputs
  let declared = keep truthy names
  ok (record { declared_outputs = declared; conflicts_with_all = is_empty declared })

-- `{k: v for k, v in step.items() if k not in _KNOWN_STEP_KEYS}`
unfoldable pub extra_of : Fields → Fields
extra_of end = end
extra_of (field k v fs) =
    let rest = extra_of fs in if elem k known_step_keys then rest else field k v rest

unfoldable pub contract_of : Fields → Footprint → Contract
unfolding as_list normalize_deps traces_of extra_of
contract_of step footprint =
    let acceptance = as_list (get "acceptance_criteria" step) in
    let integration = as_list (get "integration_checks" step) in
    record {
      step_id = get "step_id" step;
      goal = get_or "goal" (str "") step;
      actions = as_list (get "actions" step);
      inputs = as_list (get "inputs" step);
      dependencies = normalize_deps step;
      lifecycle = record { state = "UNSTARTED"; history = [] };
      dod = some (record {
        acceptance_criteria = acceptance;
        integration_checks = integration;
        outputs = as_list (get "outputs" step);
        verifiable = not (is_empty acceptance) || not (is_empty integration);
      });
      effect = some (record { effect_class = "unclassified"; footprint = some footprint });
      traces = traces_of step;
      extra = extra_of step;
    }

unfoldable pub stamp_fields : Fields → Result Contract
unfolding as_list static_footprint contract_of
stamp_fields step = do
  guard (truthy (get "step_id" step)) value_error
  footprint ← static_footprint (as_list (get "outputs" step))
  ok (contract_of step footprint)

unfoldable pub stamp_node_contract : Value → Result Contract
unfolding stamp_fields
stamp_node_contract (obj step) = stamp_fields step
stamp_node_contract v = err type_error

abbrev present {ℓ} : {A : Type ℓ} → Option A → Bool
present none = false
present (some a) = true

abbrev has_footprint : Option Effect → Bool
has_footprint none = false
has_footprint (some e) = present e.footprint

-- The groups `lifecycle` and `traces` and the keys of `dod` are fields of the model's record.
unfoldable pub assert_node_contract : Contract → Result (Unit {0})
assert_node_contract c = do
  guard (present c.dod && present c.effect) assertion_error
  guard (elem c.lifecycle.state lifecycle_states) assertion_error
  guard (has_footprint c.effect) assertion_error
