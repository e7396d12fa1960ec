-- ===== src/Speculate.antt =====
-- epiphany_executor/speculate.py: the dry run of an antichain and what it does to a cohort. The dry
-- run is a parameter that returns a dict or raises; a predicted output that is no text is reported as
-- an error of the dry run. A set is a list with each member once.
pub mod Dry
pub mod Refined
use epiphany_executor.Prelude.{
  ℕ, String, Bool, true, false, not, ◌&&◌, ◌||◌, Option, none, some, List, [], ◌∷◌, ◌++◌, Result,
  ok, err, ◌>>=◌, ◌>>◌, guard, runtime_error, Exception, Dict, insert, lookup, length, is_empty,
  elem, keep, any, dedup, disjoint, map, or_else, ltb, if◌then◌else◌, ◌==◌,
}
use epiphany_executor.Value.{
  Value, null, bool, nat, negative, float, str, arr, obj, Fields, get, truthy, iterate_or_empty,
}
use epiphany_executor.Contract.{Contract}
use epiphany_executor.Coverage.{texts_of}
use epiphany_executor.Scheduler.Static.{canonical_outputs}
use epiphany_executor.Scheduler.Cohort.{FanoutBudget, default_budget, contract_at}

pub record Prediction : Type 0 where
  pub step_id : String
  pub predicted_outputs : List String
  pub effort : Value
  pub stubbed_irreversible : Bool
  pub error : Option Exception
  pub committed_ledger : Bool

pub record SpeculationResult : Type 0 where
  pub predictions : Dict Prediction
  pub predicted_conflicts : List (String × String)

-- `any(p.committed_ledger for p in self.predictions.values())`
abbrev pub any_committed : Dict Prediction → Bool
any_committed [] = false
any_committed ((sid, p) ∷ ps) = p.committed_ledger || any_committed ps

unfoldable pub wrote_ledger : SpeculationResult → Bool
wrote_ledger r = any_committed r.predictions

abbrev pub has_failed : Prediction → Bool
has_failed p = elim p.error [ none ↦ false | some e ↦ true ]

-- the predictions without an error, in order, each with its outputs
abbrev pub usable : Dict Prediction → Dict (List String)
usable [] = []
usable ((sid, p) ∷ ps) =
    let rest = usable ps in if has_failed p then rest else (p.step_id, p.predicted_outputs) ∷ rest

-- `oa and ob and not oa.isdisjoint(ob)`
abbrev pub overlap : List String → List String → Bool
overlap oa ob = not (is_empty oa) && (not (is_empty ob) && not (disjoint oa ob))

-- the inner loop over the later ids
unfoldable pub conflicts_with : String → List String → Dict (List String) → List (String × String)
conflicts_with a oa [] = []
conflicts_with a oa ((b, ob) ∷ later) =
    let rest = conflicts_with a oa later in if overlap oa ob then (a, b) ∷ rest else rest

unfoldable pub conflicts_of : Dict (List String) → List (String × String)
unfolding conflicts_with
conflicts_of [] = []
conflicts_of ((a, oa) ∷ later) = conflicts_with a oa later ++ conflicts_of later

module _ (canonical : String → Option String) (dry_run_fn : String → Contract → Result Fields) where
  -- the body of the `try`
  unfoldable pub predict : String → Contract → Result Prediction
  predict sid c = do
    out ← dry_run_fn sid c
    guard (not (truthy (get "committed_ledger" out))) runtime_error
    found ← iterate_or_empty (get "predicted_outputs" out)
    texts ← texts_of found
    let predicted = dedup texts
    ok (record {
      step_id = sid;
      predicted_outputs = if is_empty predicted then canonical_outputs canonical c else predicted;
      effort = get "effort" out;
      stubbed_irreversible = truthy (get "stubbed_irreversible" out);
      error = none;
      committed_ledger = false;
    })

  -- the `except`
  abbrev pub prediction_of : String → Result Prediction → Prediction
  prediction_of sid (ok p) = p
  prediction_of sid (err e) = record {
    step_id = sid;
    predicted_outputs = [];
    effort = null;
    stubbed_irreversible = false;
    error = some e;
    committed_ledger = false;
  }

  unfoldable pub predict_all :
      Dict Contract → List String → Dict Prediction → Result (Dict Prediction)
  unfolding predict contract_at
  predict_all contracts [] ps = ok ps
  predict_all contracts (sid ∷ sids) ps = do
    c ← contract_at contracts sid
    predict_all contracts sids (insert sid (prediction_of sid (predict sid c)) ps)

  unfoldable pub speculate_antichain :
      List String → Dict Contract → Option FanoutBudget → Result SpeculationResult
  unfolding predict_all conflicts_of
  speculate_antichain antichain contracts budget =
      if ltb (length antichain) (or_else budget default_budget).speculate_threshold
      then ok (record { predictions = []; predicted_conflicts = [] })
      else (do
        ps ← predict_all contracts antichain []
        ok (record { predictions = ps; predicted_conflicts = conflicts_of (usable ps) }))

-- the later member of each predicted conflict
abbrev pub later_members : List (String × String) → List String
later_members [] = []
later_members ((a, b) ∷ cs) = b ∷ later_members cs

unfoldable pub refine_cohort : List String → SpeculationResult → List String × List String
refine_cohort parallel speculation =
    let conflicted = later_members speculation.predicted_conflicts in
    (keep (λ s. not (elem s conflicted)) parallel, keep (λ s. elem s conflicted) parallel)
