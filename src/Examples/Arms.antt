-- ===== src/Examples/Arms.antt =====
-- Examples of the benchmark's runs.
use epiphany_executor.Prelude.{
  ◌≡◌, refl, String, true, ◌+◌, none, List, [], ◌∷◌, Result, ok, err, Dict, elem, keep, length,
  if◌then◌else◌,
}
use epiphany_executor.Value.{str, arr, obj, cons, nil, Fields, field, end}
use epiphany_executor.Contract.{Contract}
use epiphany_executor.Ledger.{LedgerEntry, list_ledger}
use epiphany_executor.Lifecycle.{in_flight, verified, accepted}
use epiphany_executor.Lifecycle.Store.{record_cursor, fold, accepted_steps}
use epiphany_executor.Lifecycle.Store.Resume.{is_accepted}
use epiphany_executor.Lifecycle.Store.Abstract.{CursorMap, Represents}
use epiphany_executor.Benchmark.{ArmMetrics, CleanRun, cursor, clean_steps, contracts_of}
use epiphany_executor.Benchmark.Clean.{has_criteria, clean_steps-accepted}
use epiphany_executor.Examples.Data.{plan}

abbrev no_cursors : CursorMap
no_cursors sid = none

abbrev one_step : List String
one_step = "a" ∷ []

abbrev start : CleanRun (List LedgerEntry)
start = record { ledger = []; verify_passes = 0; verify_total = 0; accepted = 0 }

abbrev after_a : CleanRun (List LedgerEntry)
after_a = record {
  ledger =
      record_cursor list_ledger
        (record_cursor list_ledger (record_cursor list_ledger [] (cursor "a" in_flight))
          (cursor "a" verified))
        (cursor "a" accepted);
  verify_passes = 1;
  verify_total = 1;
  accepted = 1;
}

empty-Represents : Represents list_ledger [] no_cursors
unfolding fold
empty-Represents = ([], refl, λ sid. refl)

clean_steps-a : clean_steps list_ledger plan 3 ("a" ∷ []) start ≡ ok after_a
unfolding clean_steps
clean_steps-a = refl

clean_steps-accepted_example :
    (after_a.accepted ≡ start.accepted + length (keep (has_criteria plan) ("a" ∷ [])))
    × (after_a.verify_total ≡ start.verify_total + length one_step)
    × (ids : List String) × (accepted_steps list_ledger after_a.ledger ≡ ok ids)
    × ((s : String)
        → elem s ids
          ≡ (if elem s ("a" ∷ []) then has_criteria plan s else is_accepted (no_cursors s)))
clean_steps-accepted_example =
    clean_steps-accepted list_ledger plan 3 ("a" ∷ []) start after_a no_cursors empty-Represents
      clean_steps-a

abbrev raw_step : Fields
raw_step = field "step_id" (str "s1") (
    field "outputs" (arr (cons (str "src/s1.py") nil)) (
      field "acceptance_criteria" (arr (cons (str "pytest exits 0") nil))
        (field "traces_to" (arr (cons (str "REQ-1") nil)) end)))

abbrev raw_plan : Fields
raw_plan = field "plan_id" (str "p") (field "steps" (arr (cons (obj raw_step) nil)) end)

abbrev empty_ledger : String → List LedgerEntry
empty_ledger file = []

abbrev metrics : ArmMetrics
metrics = record {
  arm = "executor-wave";
  plan_id = str "p";
  verified_step_rate = (1, 1);
  verify_pass_rate = (1, 1);
  back_update_correct = true;
  end_to_end_success = true;
  recovery_ok = true;
  coverage_closed = true;
  n_barriers = 1;
}

abbrev returned : Result (Dict Contract) → Dict Contract
returned (err e) = []
returned (ok contracts) = contracts

abbrev contracts : Dict Contract
contracts = returned (contracts_of raw_plan)
