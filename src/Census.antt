-- ===== src/Census.antt =====
-- epiphany_executor/census.py: every key of the plans is bound to its consumer. A plan is a dict with
-- text keys, as the annotations say. The rendered report is not modelled.
pub mod Consumers
pub mod Bound
use epiphany_executor.Prelude.{
  String, Bool, true, false, not, ◌&&◌, ◌||◌, Option, none, some, List, [], ◌∷◌, ◌++◌, Result, ok,
  err, ◌>>=◌, Dict, insert, lookup, keys, elem, is_empty, keep, dedup, or_else, sorted,
  if◌then◌else◌, codes, starts_with,
}
use epiphany_executor.Value.{
  Value, null, bool, nat, negative, float, str, arr, obj, nil, Fields, end, field, get_or, iterate,
}
use epiphany_executor.Census.Consumers.{plan_level_consumers, step_level_consumers}

pub data Scope : Type 0 where
  plan_scope step_scope : Scope

-- the texts of the field `verdict`
pub data CensusVerdict : Type 0 where
  consumed waived schema_tolerant block_unconsumed block_stale_binding : CensusVerdict

pub record CensusFinding : Type 0 where
  pub scope : Scope
  pub key : String
  pub seen_in : List String
  pub consumer : Option String
  pub verdict : CensusVerdict

-- `f.verdict.startswith("BLOCK")`
abbrev pub is_blocking : CensusFinding → Bool
is_blocking f = elim f.verdict [ block_unconsumed ↦ true | block_stale_binding ↦ true | _ ↦ false ]

-- `CensusReport.blocking` and `passed`
unfoldable pub blocking : List CensusFinding → List CensusFinding
blocking findings = keep is_blocking findings

unfoldable pub passed : List CensusFinding → Bool
unfolding blocking
passed findings = is_empty (blocking findings)

unfoldable pub is_waiver : String → Bool
unfolding starts_with
is_waiver consumer = starts_with (codes consumer) (codes "metadata-only")

unfoldable pub is_schema_tolerant : String → Bool
unfolding starts_with
is_schema_tolerant consumer = starts_with (codes consumer) (codes "schema-tolerant:")

abbrev pub stale_exempt : String → Bool
stale_exempt consumer = is_waiver consumer || is_schema_tolerant consumer

abbrev pub verdict_of : String → CensusVerdict
verdict_of consumer =
    if is_waiver consumer
    then waived
    else if is_schema_tolerant consumer
    then schema_tolerant
    else consumed

-- key ↦ the plans it was seen in
abbrev pub Seen : Type 0
Seen = Dict (List String)

-- `for k in ...: seen.setdefault(k, []).append(name)`
unfoldable pub see_keys : String → List String → Seen → Seen
see_keys name [] seen = seen
see_keys name (k ∷ ks) seen =
    see_keys name ks (insert k (or_else (lookup k seen) [] ++ name ∷ []) seen)

abbrev pub field_names : Fields → List String
field_names end = []
field_names (field k v fs) = k ∷ field_names fs

unfoldable pub plan_seen : Dict Fields → Seen → Seen
unfolding see_keys
plan_seen [] seen = seen
plan_seen ((name, plan) ∷ plans) seen = plan_seen plans (see_keys name (field_names plan) seen)

-- the keys of the steps that are dicts
unfoldable pub keys_of_steps : List Value → List String
keys_of_steps [] = []
keys_of_steps (obj s ∷ vs) = field_names s ++ keys_of_steps vs
keys_of_steps (v ∷ vs) = keys_of_steps vs

-- the set `keys_in_plan`, as a list with each key once
unfoldable pub keys_in_plan : Fields → Result (List String)
unfolding keys_of_steps
keys_in_plan plan = do
  steps ← iterate (get_or "steps" (arr nil) plan)
  ok (dedup (keys_of_steps steps))

unfoldable pub step_seen : Dict Fields → Seen → Result Seen
unfolding keys_in_plan see_keys
step_seen [] seen = ok seen
step_seen ((name, plan) ∷ plans) seen = do
  ks ← keys_in_plan plan
  step_seen plans (see_keys name ks seen)

abbrev pub bound_finding : Scope → String → List String → Option String → CensusFinding
bound_finding scope k seen none = record {
  scope = scope;
  key = k;
  seen_in = seen;
  consumer = none;
  verdict = block_unconsumed;
}
bound_finding scope k seen (some c) = record {
  scope = scope;
  key = k;
  seen_in = seen;
  consumer = some c;
  verdict = verdict_of c;
}

-- the loop over the seen keys, in their sorted order
unfoldable pub bind_keys : Scope → Dict String → Seen → List String → List CensusFinding
bind_keys scope consumers seen [] = []
bind_keys scope consumers seen (k ∷ ks) =
    bound_finding scope k (or_else (lookup k seen) []) (lookup k consumers)
    ∷ bind_keys scope consumers seen ks

abbrev pub stale_finding : Scope → String → String → CensusFinding
stale_finding scope k c = record {
  scope = scope;
  key = k;
  seen_in = [];
  consumer = some c;
  verdict = block_stale_binding;
}

-- the loop over the declared keys, in their sorted order
unfoldable pub stale_keys : Scope → Dict String → Seen → List String → List CensusFinding
stale_keys scope consumers seen [] = []
stale_keys scope consumers seen (k ∷ ks) =
    let rest = stale_keys scope consumers seen ks in
    let c = or_else (lookup k consumers) "" in
    if not (elem k (keys seen)) && not (stale_exempt c)
    then stale_finding scope k c ∷ rest
    else rest

unfoldable pub findings_of : Scope → Dict String → Seen → List CensusFinding
unfolding bind_keys stale_keys
findings_of scope consumers seen =
    bind_keys scope consumers seen (sorted (keys seen))
    ++ stale_keys scope consumers seen (sorted (keys consumers))

unfoldable pub census : Dict Fields → Result (List CensusFinding)
unfolding plan_seen step_seen findings_of
census plans = do
  steps ← step_seen plans []
  ok (
      findings_of plan_scope plan_level_consumers (plan_seen plans [])
      ++ findings_of step_scope step_level_consumers steps)
