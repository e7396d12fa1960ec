-- ===== src/Contract.antt =====
-- The compiled step contract: the dictionary that `stamp_node_contract` of
-- epiphany_executor/contract_template.py returns, and that every later component reads. A part
-- that readers tolerate as missing (`contract.get(...) or {}`) is an option.
use epiphany_executor.Prelude.{String, Bool, false, Option, none, some, List, []}
use epiphany_executor.Value.{Value, Fields}

-- A normalised dependency.
pub record Dependency : Type 0 where
  pub on : Value
  pub kind : Value
  pub edge_class : Value
  pub from_typed : Bool

pub record Footprint : Type 0 where
  pub declared_outputs : List Value
  pub conflicts_with_all : Bool

pub record Effect : Type 0 where
  pub effect_class : String
  pub footprint : Option Footprint

pub record DodField : Type 0 where
  pub acceptance_criteria : List Value
  pub integration_checks : List Value
  pub outputs : List Value
  pub verifiable : Bool

pub record Lifecycle : Type 0 where
  pub state : String
  pub history : List Value

pub record Contract : Type 0 where
  pub step_id : Value
  pub goal : Value
  pub actions : List Value
  pub inputs : List Value
  pub dependencies : List Dependency
  pub lifecycle : Lifecycle
  pub dod : Option DodField
  pub effect : Option Effect
  pub traces : List Value
  pub extra : Fields

abbrev pub no_footprint : Footprint
no_footprint = record { declared_outputs = []; conflicts_with_all = false }

-- `(contract.get("effect") or {}).get("footprint") or {}`
abbrev pub footprint_of : Contract → Footprint
footprint_of c = elim c.effect [
  | none ↦ no_footprint
  | some e ↦ elim e.footprint [ none ↦ no_footprint | some f ↦ f ]
]
