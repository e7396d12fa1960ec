-- ===== src/Dod.antt =====
-- epiphany_executor/dod.py: Definition-of-Done verification by a jury of checks. A confidence is
-- kept in tenths. `run_check` is an oracle that also sees how many checks ran before, so that a
-- check may answer differently each time.
pub mod Decided
pub mod Answers
pub mod Criteria
use Prim.Native.Nat.{max}
use epiphany_executor.Prelude.{
  ℕ, zero, suc, ◌+◌, String, Bool, true, false, not, ◌&&◌, Option, none, some, List, [], ◌∷◌, ◌++◌,
  Result, ok, err, ◌>>=◌, type_error, Dict, insert, lookup, or_else, all, is_empty, if◌then◌else◌,
  codes, lower, contains, any, ltb,
}
use epiphany_executor.Value.{
  Value, null, bool, nat, negative, float, str, arr, obj, Fields, get_or, to_text,
}
use epiphany_executor.Ledger.{LedgerEntry}
use epiphany_executor.Contract.{Contract, DodField}
use epiphany_executor.Scheduler.Static.{names_any}

abbrev pub objective_markers : List String
objective_markers =
    "pytest" ∷ "exit" ∷ "returns" ∷ "== " ∷ "!=" ∷ "test" ∷ "passes" ∷ "fails" ∷ "compiles"
    ∷ "imports" ∷ "builds" ∷ "run " ∷ "grep" ∷ "exists" ∷ "file " ∷ "command" ∷ "output"
    ∷ "no error" ∷ "0 failures" ∷ "green" ∷ "schema" ∷ "validates" ∷ "matches" ∷ "count" ∷ "assert"
    ∷ "loads" ∷ "halts" ∷ "raise" ∷ []

abbrev pub subjective_markers : List String
subjective_markers =
    "clean" ∷ "readable" ∷ "elegant" ∷ "appropriate" ∷ "well-" ∷ "well " ∷ "good" ∷ "clear"
    ∷ "maintainable" ∷ "idiomatic" ∷ "reasonable" ∷ "sensible" ∷ "nice" ∷ "intuitive" ∷ "natural"
    ∷ []

pub data CriterionClass : Type 0 where
  objective_class subjective_class : CriterionClass

pub data Decision : Type 0 where
  pass fail blocked : Decision

-- `v is Decision.PASS`
abbrev pub is_pass : Decision → Bool
is_pass pass = true
is_pass _ = false

unfoldable pub classify_criterion : String → CriterionClass × ℕ
unfolding lower contains
classify_criterion text =
    let low = lower (codes text) in
    let is_obj = names_any objective_markers low in
    let is_subj = names_any subjective_markers low in
    if is_obj && not is_subj
    then (objective_class, 9)
    else if is_subj && not is_obj
    then (subjective_class, 9)
    else (objective_class, 4)

pub record Dod : Type 0 where
  pub objective : List String
  pub subjective : List String
  pub outputs : List Value
  pub low_confidence : List String

-- the loop over the acceptance criteria, one criterion onto the rest
abbrev add_criterion : String → CriterionClass × ℕ → Dod → Dod
add_criterion text (objective_class, conf) d = record d {
  objective = text ∷ d.objective;
  low_confidence = if ltb conf 5 then text ∷ d.low_confidence else d.low_confidence;
}
add_criterion text (subjective_class, conf) d = record d {
  subjective = text ∷ d.subjective;
  low_confidence = if ltb conf 5 then text ∷ d.low_confidence else d.low_confidence;
}

unfoldable pub add_criteria : List Value → Dod → Dod
unfolding classify_criterion to_text
add_criteria [] d = d
add_criteria (v ∷ vs) d =
    let text = to_text v in add_criterion text (classify_criterion text) (add_criteria vs d)

abbrev criterion_text : Value → Result String
criterion_text (str s) = ok s
criterion_text v = err type_error

-- `ic.get("assert", str(ic)) if isinstance(ic, dict) else str(ic)`; an `assert` that is no text
-- is outside the annotated type of `objective`
unfoldable pub check_text : Value → Result String
unfolding to_text
check_text (obj ic) = criterion_text (get_or "assert" (str (to_text (obj ic))) ic)
check_text v = ok (to_text v)

unfoldable pub check_texts : List Value → Result (List String)
unfolding check_text
check_texts [] = ok []
check_texts (v ∷ vs) = do s ← check_text v; ss ← check_texts vs; ok (s ∷ ss)

abbrev no_dod : DodField
no_dod = record {
  acceptance_criteria = [];
  integration_checks = [];
  outputs = [];
  verifiable = false;
}

-- `contract.get("dod") or {}`
abbrev pub dod_field : Contract → DodField
dod_field c = or_else c.dod no_dod

-- The integration checks stand behind the objective criteria.
unfoldable pub assemble_dod : Contract → Result Dod
unfolding add_criteria check_texts
assemble_dod c = do
  let field = dod_field c
  checks ← check_texts field.integration_checks
  ok (
      add_criteria field.acceptance_criteria (record {
        objective = checks;
        subjective = [];
        outputs = field.outputs;
        low_confidence = [];
      }))

pub record VerifierContext : Type 0 where
  pub contract : Contract
  pub integration_checks : List Value
  pub artifacts : Fields
  pub ledger : List LedgerEntry

-- `VerifierContext.for_step`
unfoldable pub for_step : Contract → Fields → List LedgerEntry → VerifierContext
for_step c artifacts ledger = record {
  contract = c;
  integration_checks = (dod_field c).integration_checks;
  artifacts = artifacts;
  ledger = ledger;
}

-- the number of earlier calls, the criterion and the context
abbrev pub RunCheck : Type 0
RunCheck = ℕ → String → VerifierContext → Bool

pub record Juror : Type 0 where
  pub calls : ℕ
  pub agreed : Bool
  pub merged : Dict Bool

pub record Jury : Type 0 where
  pub calls : ℕ
  pub votes : List Decision
  pub merged : Dict Bool

-- the inner loop of `_run_jury`, over the objective criteria
unfoldable pub run_juror : RunCheck → VerifierContext → List String → Juror → Juror
run_juror run_check vctx [] j = j
run_juror run_check vctx (crit ∷ crits) j =
    let passed = run_check j.calls crit vctx in
    run_juror run_check vctx crits (record {
      calls = j.calls + 1;
      agreed = j.agreed && passed;
      merged = insert crit (or_else (lookup crit j.merged) true && passed) j.merged;
    })

-- the outer loop of `_run_jury`, over the jurors
unfoldable pub run_jurors : RunCheck → VerifierContext → List String → ℕ → Jury → Jury
unfolding run_juror
run_jurors run_check vctx crits zero s = s
run_jurors run_check vctx crits (suc n) s =
    let j =
      run_juror run_check vctx crits
        (record { calls = s.calls; agreed = true; merged = s.merged }) in
    run_jurors run_check vctx crits n (record {
      calls = j.calls;
      votes = s.votes ++ (if j.agreed then pass else fail) ∷ [];
      merged = j.merged;
    })

unfoldable pub run_jury : RunCheck → VerifierContext → List String → ℕ → Jury
unfolding run_jurors
run_jury run_check vctx crits jury =
    run_jurors run_check vctx crits (max 1 jury) (record { calls = 0; votes = []; merged = [] })

pub record Verdict : Type 0 where
  pub decision : Decision
  pub objective_results : Dict Bool
  pub subjective_deferred : List String
  pub low_confidence : List String
  pub jury_votes : List Decision
  pub reason : String

-- the decision that `verify_dod` draws from the jury
unfoldable pub decide : List String → Jury → Decision
decide objective jury =
    let all_passed = all (λ c. or_else (lookup c jury.merged) false) objective in
    if not (is_empty objective) && not all_passed
    then fail
    else if all is_pass jury.votes
    then pass
    else fail

unfoldable pub verify_assembled : RunCheck → VerifierContext → ℕ → Dod → Verdict
unfolding run_jury decide
verify_assembled run_check vctx jury dod =
    if is_empty dod.objective && is_empty dod.subjective
    then record {
      decision = blocked;
      objective_results = [];
      subjective_deferred = [];
      low_confidence = [];
      jury_votes = [];
      reason = "empty acceptance_criteria (INV-10 fail-closed)";
    }
    else (let result = run_jury run_check vctx dod.objective jury in
        record {
          decision = decide dod.objective result;
          objective_results = result.merged;
          subjective_deferred = dod.subjective;
          low_confidence = dod.low_confidence;
          jury_votes = result.votes;
          reason =
              if is_pass (decide dod.objective result) then "" else "objective DoD check(s) failed";
        })

unfoldable pub verify_dod : RunCheck → Contract → Fields → List LedgerEntry → ℕ → Result Verdict
unfolding assemble_dod for_step verify_assembled
verify_dod run_check c artifacts ledger jury = do
  dod ← assemble_dod c
  ok (verify_assembled run_check (for_step c artifacts ledger) jury dod)
