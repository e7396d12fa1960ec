-- ===== src/Validate/Verdict.antt =====
-- The verdict of epiphany_executor/validate.py on one plan, in terms of the gate and the schedule.
use epiphany_executor.Prelude.{
  String, Bool, true, false, not, ◌&&◌, ◌||◌, ◌≡◌, refl, Option, none, some, Result, ok, err,
  if◌then◌else◌, ap, ◌∙◌,
}
use epiphany_executor.Value.{Value, Fields}
use epiphany_executor.Gate.{Decision, GateDecision, halt, proceed, halts, evaluate_gate}
use epiphany_executor.Corpus.{
  CorpusPlan, Disposition, end_to_end, correct_halt, is_correct_halt, is_text, verdict_in,
}
use epiphany_executor.Validate.{
  GraphSpec, PlanValidation, is_valid, settle, try_schedule, validate_loaded, validate_plan,
}
use epiphany_executor.Validate.Scheduled.{
  is_scheduled, has_wave, has_raised, scheduled_waves, try_schedule-waves,
}

-- What is known of a plan that was loaded and went through the gate.
gated : CorpusPlan → Decision → PlanValidation
gated plan g = record {
  name = plan.name;
  kind = plan.kind;
  ingested = true;
  gate_decision = some g;
  scheduled = false;
  disposition = plan.disposition;
  error = none;
  routed_to_cotuning = false;
}

outcome : CorpusPlan → Decision → Bool → Result Bool → PlanValidation
unfolding gated
outcome plan halt passes r =
    if passes then gated plan halt else record (gated plan halt) { disposition = correct_halt }
outcome plan proceed passes r = settle (gated plan proceed) r

abbrev is_halting : Decision → Bool
is_halting g = elim g [ halt ↦ true | proceed ↦ false ]

outcome-valid :
    (plan : CorpusPlan) (g : Decision) (passes : Bool) (r : Result Bool)
    → (is_valid (outcome plan g passes r) ≡ (
        if is_halting g
        then is_correct_halt plan || not passes
        else not (is_correct_halt plan) && is_scheduled r))
      × ((outcome plan g passes r).routed_to_cotuning ≡ (not (is_halting g) && has_raised r))
unfolding is_valid outcome gated
outcome-valid plan halt true r = (by_disposition plan.disposition, refl)
  where
    by_disposition :
        (d : Disposition)
        → elim d [ correct_halt ↦ true | end_to_end ↦ false ]
          ≡ (elim d [ end_to_end ↦ false | correct_halt ↦ true ] || false)
    by_disposition end_to_end = refl
    by_disposition correct_halt = refl
outcome-valid plan halt false r = (by_disposition plan.disposition, refl)
  where
    by_disposition :
        (d : Disposition) → true ≡ (elim d [ end_to_end ↦ false | correct_halt ↦ true ] || true)
    by_disposition end_to_end = refl
    by_disposition correct_halt = refl
outcome-valid plan proceed passes (ok b) = (by_disposition plan.disposition, refl)
  where
    by_disposition :
        (d : Disposition)
        → elim d [ correct_halt ↦ false | end_to_end ↦ b ]
          ≡ (not (elim d [ end_to_end ↦ false | correct_halt ↦ true ]) && b)
    by_disposition end_to_end = refl
    by_disposition correct_halt = refl
outcome-valid plan proceed passes (err e) = (by_disposition plan.disposition, refl)
  where
    by_disposition :
        (d : Disposition)
        → false ≡ (not (elim d [ end_to_end ↦ false | correct_halt ↦ true ]) && false)
    by_disposition end_to_end = refl
    by_disposition correct_halt = refl

module _ (canonical : String → Option String)
    (load_plan : CorpusPlan → Result (Fields × GraphSpec)) where
  validate_plan-outcome :
      (plan : CorpusPlan) (raw : Fields) (spec : GraphSpec) (d : GateDecision) (verdict : Value)
      → load_plan plan ≡ ok (raw, spec)
      → evaluate_gate raw ≡ ok d
      → verdict_in raw ≡ ok verdict
      → validate_plan canonical load_plan plan
        ≡ ok (
            outcome plan d.decision
              (is_text "PASS" verdict)
              (try_schedule canonical load_plan spec))
  unfolding validate_plan validate_loaded outcome gated
  validate_plan-outcome plan raw spec d verdict loaded decided found = by_decision d.decision refl
    where
      by_decision :
          (g : Decision)
          → d.decision ≡ g
          → validate_plan canonical load_plan plan
            ≡ ok (outcome plan g (is_text "PASS" verdict) (try_schedule canonical load_plan spec))
      by_decision halt e = rw (loaded, decided, e, found) refl
      by_decision proceed e = rw (loaded, decided, e) refl

  -- A plan that loads and that the gate can read is valid exactly if the gate halts it and either
  -- its halt is expected or its own verdict is not PASS, or if the gate lets it through, no halt is
  -- expected, and the scheduler returns at least one wave for its contracts and its build order: the
  -- test on the number of scheduled steps never fails a plan. It is routed back exactly if the gate
  -- lets it through and reading its build order or scheduling it raises.
  pub validate_plan-valid :
      (plan : CorpusPlan) (raw : Fields) (spec : GraphSpec) (d : GateDecision) (verdict : Value)
      → load_plan plan ≡ ok (raw, spec)
      → evaluate_gate raw ≡ ok d
      → verdict_in raw ≡ ok verdict
      → (v : PlanValidation) × (validate_plan canonical load_plan plan ≡ ok v)
        × (is_valid v ≡ (
            if halts d
            then is_correct_halt plan || not (is_text "PASS" verdict)
            else not (is_correct_halt plan) && has_wave (scheduled_waves canonical spec)))
        × (v.routed_to_cotuning ≡ (not (halts d) && has_raised (scheduled_waves canonical spec)))
  validate_plan-valid plan raw spec d verdict loaded decided found =
      let (valid, routed) =
        outcome-valid plan d.decision (is_text "PASS" verdict)
          (try_schedule canonical load_plan spec) in
      let (waved, raised) = try_schedule-waves canonical load_plan spec in
      (
        _,
        validate_plan-outcome plan raw spec d verdict loaded decided found,
        valid
            ∙ ap
                (λ b.
                  if halts d
                  then is_correct_halt plan || not (is_text "PASS" verdict)
                  else not (is_correct_halt plan) && b)
                waved,
        routed ∙ ap (λ b. not (halts d) && b) raised,
      )
