-- ===== src/Validate.antt =====
-- epiphany_executor/validate.py: the validation of the tuning plans. Loading a plan, which reads its
-- file and calls `goatcs_harness.loader`, is a parameter.
pub mod Scheduled
pub mod Verdict
use epiphany_executor.Prelude.{
  ℕ, ◌+◌, String, Bool, true, false, not, ◌&&◌, Option, none, some, List, [], ◌∷◌, ◌++◌, map,
  Result, ok, err, ◌>>=◌, Exception, Dict, insert, length, flatten, is_empty, all, keep, leb, eqb,
  if◌then◌else◌,
}
use epiphany_executor.Value.{
  Value, null, bool, nat, negative, float, str, arr, obj, iterate_or_empty, Fields, get,
}
use epiphany_executor.Contract.{Contract}
use epiphany_executor.Gate.{Decision, GateDecision, halt, proceed, halts, evaluate_gate}
use epiphany_executor.Scheduler.Dag.{build_dag}
use epiphany_executor.Scheduler.Waves.{Wave, all_steps, schedule_waves}
use epiphany_executor.Corpus.{
  CorpusPlan, Kind, Disposition, end_to_end, correct_halt, is_text, verdict_in,
}

-- What the functions read of a loaded `GraphSpec`: the nodes with their step contracts, if they have
-- one, and the raw plan.
pub record GraphSpec : Type 0 where
  pub nodes : Dict (Option Contract)
  pub raw : Fields

-- `extract_contracts` of scheduler.py
unfoldable pub extract_contracts : Dict (Option Contract) → Dict Contract → Dict Contract
extract_contracts [] out = out
extract_contracts ((nid, none) ∷ nodes) out = extract_contracts nodes out
extract_contracts ((nid, some sc) ∷ nodes) out = extract_contracts nodes (insert nid sc out)

-- the two errors, each with the exception that its message names
pub data Failure : Type 0 where
  ingest_failure schedule_failure : (raised : Exception) → Failure

pub record PlanValidation : Type 0 where
  pub name : String
  pub kind : Kind
  pub ingested : Bool
  pub gate_decision : Option Decision
  pub scheduled : Bool
  pub disposition : Disposition
  pub error : Option Failure
  pub routed_to_cotuning : Bool

-- `self.gate_decision == "HALT"`
abbrev pub is_halt : Option Decision → Bool
is_halt none = false
is_halt (some halt) = true
is_halt (some proceed) = false

-- `PlanValidation.ok`
unfoldable pub is_valid : PlanValidation → Bool
is_valid v = elim v.error [
  | some e ↦ false
  | none ↦ elim v.disposition [
    | correct_halt ↦ is_halt v.gate_decision
    | end_to_end ↦ v.ingested && v.scheduled
  ]
]

-- `len(waves) >= 1 and sum(len(w.all_steps) for w in waves) == len(contracts)`
abbrev pub covers : List Wave → Dict Contract → Bool
covers waves contracts =
    leb 1 (length waves) && eqb (length (flatten (map all_steps waves))) (length contracts)

-- the end of the second `try`
abbrev pub settle : PlanValidation → Result Bool → PlanValidation
settle v (ok scheduled) = record v { scheduled = scheduled }
settle v (err e) = record v { error = some (schedule_failure e); routed_to_cotuning = true }

module _ (canonical : String → Option String)
    (load_plan : CorpusPlan → Result (Fields × GraphSpec)) where
  -- the body of the second `try`; `build_dag` reads the dependencies, and then iterates a build order
  -- that is not falsy
  unfoldable pub try_schedule : GraphSpec → Result Bool
  unfolding extract_contracts build_dag schedule_waves
  try_schedule spec = do
    let contracts = extract_contracts spec.nodes []
    edges ← build_dag contracts []
    order ← iterate_or_empty (get "build_order" spec.raw)
    waves ← schedule_waves canonical contracts order none false
    ok (covers waves contracts)

  -- what follows a load that did not raise
  unfoldable pub validate_loaded : PlanValidation → Fields → GraphSpec → Result PlanValidation
  unfolding evaluate_gate try_schedule
  validate_loaded v raw spec = do
    gate ← evaluate_gate raw
    let gated = record v { gate_decision = some gate.decision }
    if halts gate
        then (do
          verdict ← verdict_in raw
          ok (
              if is_text "PASS" verdict
              then gated
              else record gated { disposition = correct_halt }))
        else ok (settle gated (try_schedule spec))

  abbrev pub started : CorpusPlan → PlanValidation
  started plan = record {
    name = plan.name;
    kind = plan.kind;
    ingested = false;
    gate_decision = none;
    scheduled = false;
    disposition = plan.disposition;
    error = none;
    routed_to_cotuning = false;
  }

  abbrev after_load : PlanValidation → Result (Fields × GraphSpec) → Result PlanValidation
  after_load v (err e) =
      ok (record v { error = some (ingest_failure e); routed_to_cotuning = true })
  after_load v (ok (raw, spec)) = validate_loaded (record v { ingested = true }) raw spec

  unfoldable pub validate_plan : CorpusPlan → Result PlanValidation
  unfolding validate_loaded
  validate_plan plan = after_load (started plan) (load_plan plan)

  -- `ValidationReport.results` of `validate_corpus`
  unfoldable pub validate_corpus : List CorpusPlan → Result (List PlanValidation)
  unfolding validate_plan
  validate_corpus [] = ok []
  validate_corpus (plan ∷ plans) = do
    v ← validate_plan plan
    vs ← validate_corpus plans
    ok (v ∷ vs)

-- `ValidationReport.all_ok` and `routed`
unfoldable pub all_ok : List PlanValidation → Bool
unfolding is_valid
all_ok results = not (is_empty results) && all is_valid results

unfoldable pub routed : List PlanValidation → List String
routed results = map (λ v. v.name) (keep (λ v. v.routed_to_cotuning) results)
