-- ===== src/Gate/Halting.antt =====
-- The decision of epiphany_executor/gate_defect.py in terms of the plan alone.
use epiphany_executor.Prelude.{
  Bool, not, ◌&&◌, ◌||◌, ◌≡◌, refl, sym, ◌∙◌, ap, List, [], ◌∷◌, ◌++◌, ok, >>=-eq-ok, ok_inj, any,
  is_empty, String, sorted, dedup, if◌then◌else◌, codes, same_text, arith,
}
use epiphany_executor.Value.{
  Value, arr, nil, Fields, get, get_or, dict_or_empty, iterate, iterate_or_empty,
}
use epiphany_executor.Gate.{
  is_blocking_status, Reason, GateDecision, halt, proceed, halts, dicts, iter_step_ics, upper_of,
  verdict_reasons, defect_reasons, fault_reasons, first_blocking, step_reasons, all_step_reasons,
  blocking_ids, gate_reasons, evaluate_gate,
}

-- The plan's own verdict stands against it: it is there and is not PASS.
abbrev pub verdict_fails : Fields → Bool
verdict_fails gate =
    let verdict = upper_of "verdict" gate in
    not (same_text verdict (codes "PASS"))
    && (not (is_empty verdict) || same_text (upper_of "gate" gate) (codes "BLOCKING"))

-- Some integration check of the step has a status that begins with the word DEFECT.
abbrev pub step_blocks : Fields → Bool
step_blocks step = any (λ ic. is_blocking_status (get "status" ic)) (iter_step_ics step)

is_empty-append : (xs ys : List Reason) → is_empty (xs ++ ys) ≡ (is_empty xs && is_empty ys)
is_empty-append [] ys = refl
is_empty-append (x ∷ xs) ys = refl

verdict_reasons-empty : (gate : Fields) → is_empty (verdict_reasons gate) ≡ not (verdict_fails gate)
unfolding verdict_reasons
verdict_reasons-empty gate = ground arith

defect_reasons-empty : (vs : List Value) → is_empty (defect_reasons vs) ≡ is_empty vs
unfolding defect_reasons
defect_reasons-empty [] = refl
defect_reasons-empty (v ∷ vs) = refl

fault_reasons-empty : (fs : List Fields) → is_empty (fault_reasons fs) ≡ is_empty fs
unfolding fault_reasons
fault_reasons-empty [] = refl
fault_reasons-empty (f ∷ fs) = refl

first_blocking-empty :
    (ics : List Fields)
    → is_empty (first_blocking ics) ≡ not (any (λ ic. is_blocking_status (get "status" ic)) ics)
unfolding first_blocking
first_blocking-empty [] = refl
first_blocking-empty (ic ∷ ics) = ground (arith, first_blocking-empty ics)

step_reasons-empty : (s : Fields) → is_empty (step_reasons s) ≡ not (step_blocks s)
unfolding step_reasons
step_reasons-empty s = ground (arith, first_blocking-empty (iter_step_ics s))

all_step_reasons-empty :
    (ss : List Fields) → is_empty (all_step_reasons ss) ≡ not (any step_blocks ss)
unfolding all_step_reasons
all_step_reasons-empty [] = refl
all_step_reasons-empty (s ∷ ss) =
    is_empty-append (step_reasons s) (all_step_reasons ss)
    ∙ ground (arith, step_reasons-empty s, all_step_reasons-empty ss)

gate_reasons-ok :
    (plan gate : Fields) (defects faults steps : List Value)
    → dict_or_empty (get "gate_status" plan) ≡ ok gate
    → iterate_or_empty (get "blocking_defects" plan) ≡ ok defects
    → iterate_or_empty (get "structural_faults" plan) ≡ ok faults
    → iterate (get_or "steps" (arr nil) plan) ≡ ok steps
    → gate_reasons plan
      ≡ ok (
          verdict_reasons gate
          ++ defect_reasons defects
          ++ fault_reasons (dicts faults)
          ++ all_step_reasons (dicts steps))
unfolding gate_reasons
gate_reasons-ok plan gate defects faults steps p q r s = rw (p, q, r, s) refl

halts_of :
    (reasons : List Reason) (ids : List String)
    → halts (record {
      decision = if is_empty reasons then proceed else halt;
      reasons = reasons;
      blocking_steps = sorted (dedup ids);
    })
      ≡ not (is_empty reasons)
halts_of reasons ids = ground arith

-- The start gate halts exactly when the plan's verdict stands against it (present and not PASS, or
-- missing at a BLOCKING gate), or it lists a blocking defect, or a structural fault that is a
-- dictionary, or some step has an integration check with a DEFECT status; the four parts of the
-- plan are those that the gate could read.
pub evaluate_gate-halts :
    (plan gate : Fields) (defects faults steps : List Value) (d : GateDecision)
    → dict_or_empty (get "gate_status" plan) ≡ ok gate
    → iterate_or_empty (get "blocking_defects" plan) ≡ ok defects
    → iterate_or_empty (get "structural_faults" plan) ≡ ok faults
    → iterate (get_or "steps" (arr nil) plan) ≡ ok steps
    → evaluate_gate plan ≡ ok d
    → halts d ≡ (
        verdict_fails gate
        || not (is_empty defects)
        || not (is_empty (dicts faults))
        || any step_blocks (dicts steps))
unfolding evaluate_gate
evaluate_gate-halts plan gate defects faults steps d p q r s h =
    let (reasons, e, h1) = >>=-eq-ok (gate_reasons plan) _ h in
    let (ids, f, h2) = >>=-eq-ok (blocking_ids reasons) _ h1 in
    let whole = ok_inj (sym e ∙ gate_reasons-ok plan gate defects faults steps p q r s) in
    ap halts (sym (ok_inj h2))
    ∙ halts_of reasons ids
    ∙ ap (λ rs. not (is_empty rs)) whole
    ∙ ground (
      arith,
      is_empty-append (verdict_reasons gate) (
          defect_reasons defects ++ fault_reasons (dicts faults) ++ all_step_reasons (dicts steps)),
      is_empty-append (defect_reasons defects)
          (fault_reasons (dicts faults) ++ all_step_reasons (dicts steps)),
      is_empty-append (fault_reasons (dicts faults)) (all_step_reasons (dicts steps)),
      verdict_reasons-empty gate,
      defect_reasons-empty defects,
      fault_reasons-empty (dicts faults),
      all_step_reasons-empty (dicts steps),
    )
