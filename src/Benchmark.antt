-- ===== src/Benchmark.antt =====
-- epiphany_executor/benchmark.py: the arms of the benchmark and their comparison. A rate is a
-- fraction, and rates are compared exactly. What the files of `ledger_dir` hold before the run is a
-- parameter; the plans of a benchmark have different plan ids, so that no two runs share a file.
pub mod Compare
pub mod Recovered
pub mod Clean
pub mod Arm
pub mod Won
use Prim.Native.Nat.{◌/◌}
use Prim.Native.String.{◌++◌ as ◌+++◌}
use epiphany_executor.Prelude.{
  ℕ, zero, suc, ◌+◌, ◌*◌, String, Bool, true, false, not, ◌&&◌, Option, none, some, List, [], ◌∷◌,
  ◌++◌, map, Result, ok, err, ◌>>=◌, key_error, type_error, Dict, insert, keys, elem, flatten,
  length, is_empty, all, ltb, leb, eqb, if◌then◌else◌, ◌==◌,
}
use epiphany_executor.Value.{
  Value, null, bool, nat, negative, float, str, arr, obj, cons, nil, Fields, end, field, get, has,
  to_text, iterate,
}
use epiphany_executor.Contract.{Contract}
use epiphany_executor.Template.{stamp_node_contract}
use epiphany_executor.Ledger.{LedgerEntry, LedgerApi, list_ledger}
use epiphany_executor.Lifecycle.{LifecycleState, in_flight, verified, accepted}
use epiphany_executor.Lifecycle.Store.{RecoveryCursor, record_cursor, fold, accepted_steps}
use epiphany_executor.Dod.{Decision, fail, is_pass, RunCheck, Verdict, verify_dod}
use epiphany_executor.Scheduler.Dag.{Dag, build_dag}
use epiphany_executor.Scheduler.Cohort.{contract_at}
use epiphany_executor.Scheduler.Waves.{Wave, all_steps, schedule_waves}
use epiphany_executor.Review.BackUpdate.{Budget, default_budget, BackUpdate, back_update}
use epiphany_executor.Coverage.{CoverageReport, blocks, coverage_report, text_of}
use epiphany_executor.Baseline.{
  BaselineResult, end_to_end_success, verified_step_rate, rate, run_baseline,
}

pub record ArmMetrics : Type 0 where
  pub arm : String
  pub plan_id : Value
  pub verified_step_rate : ℕ × ℕ
  pub verify_pass_rate : ℕ × ℕ
  pub back_update_correct : Bool
  pub end_to_end_success : Bool
  pub recovery_ok : Bool
  pub coverage_closed : Bool
  pub n_barriers : ℕ

-- `d[k]`
abbrev pub item : String → Fields → Result Value
item k d = if has k d then ok (get k d) else err key_error

-- one round of the comprehension of `_contracts`
unfoldable pub add_contract : Value → Dict Contract → Result (Dict Contract)
unfolding stamp_node_contract
add_contract (obj s) contracts = do
  id ← item "step_id" s
  sid ← text_of id
  c ← stamp_node_contract (obj s)
  ok (insert sid c contracts)
add_contract v contracts = err type_error

unfoldable pub add_contracts : List Value → Dict Contract → Result (Dict Contract)
unfolding add_contract
add_contracts [] contracts = ok contracts
add_contracts (v ∷ vs) contracts = do next ← add_contract v contracts; add_contracts vs next

unfoldable pub contracts_of : Fields → Result (Dict Contract)
unfolding add_contracts
contracts_of plan = do steps ← item "steps" plan; vs ← iterate steps; add_contracts vs []

abbrev applied : Fields → Fields
applied s = field "applied" (get "step_id" s) end

unfoldable pub run_baseline_arm : Fields → Result ArmMetrics
unfolding run_baseline end_to_end_success verified_step_rate
run_baseline_arm plan = do
  r ← run_baseline (λ n s. ok (applied s)) (λ n s a. ok true) plan
  plan_id ← item "plan_id" plan
  ok (record {
    arm = "baseline";
    plan_id = plan_id;
    verified_step_rate = verified_step_rate r;
    verify_pass_rate = verified_step_rate r;
    back_update_correct = false;
    end_to_end_success = end_to_end_success r;
    recovery_ok = false;
    coverage_closed = false;
    n_barriers = r.total;
  })

abbrev pub cursor : String → LifecycleState → RecoveryCursor
cursor sid s = record { step_id = sid; lifecycle_state = s; effect_ledger_cursor = 0 }

-- the body of the `try` of the back-update check; its ledger is the list `appended`, and
-- `propagate_forward_delta` returns a set, which is not None
abbrev appended_one : Result BackUpdate × Budget × List LedgerEntry → Bool
appended_one (ok u, b, appended) = not (is_empty appended)
appended_one (err e, b, appended) = false

unfoldable pub back_update_check : Dict Contract → Bool
unfolding back_update
back_update_check [] = false
back_update_check ((target, c) ∷ contracts) = appended_one (
    back_update list_ledger c (field "reason" (str "invalidated by a later step") end) 1
      default_budget [])

-- `order[n]`, and `None` past the end
abbrev pub nth : List String → ℕ → Option String
nth [] n = none
nth (s ∷ order) zero = some s
nth (s ∷ order) (suc n) = nth order n

abbrev pub kill_point : List String → Option String
kill_point order = nth order (length order / 2)

-- the variables of the clean run
pub record CleanRun (L : Type 0) : Type 0 where
  pub ledger : L
  pub verify_passes : ℕ
  pub verify_total : ℕ
  pub accepted : ℕ

module _ (api : LedgerApi) where
  open api use {Ledger}

  -- what the clean run does with a verdict
  abbrev pub settle : String → Bool → CleanRun Ledger → CleanRun Ledger
  settle sid true r = record {
    ledger =
        record_cursor api (record_cursor api r.ledger (cursor sid verified)) (cursor sid accepted);
    verify_passes = r.verify_passes + 1;
    verify_total = r.verify_total + 1;
    accepted = r.accepted + 1;
  }
  settle sid false r = record r { verify_total = r.verify_total + 1 }

  unfoldable pub clean_steps :
      Dict Contract → ℕ → List String → CleanRun Ledger → Result (CleanRun Ledger)
  unfolding verify_dod contract_at
  clean_steps contracts jury [] r = ok r
  clean_steps contracts jury (sid ∷ sids) r = do
    let started = record r { ledger = record_cursor api r.ledger (cursor sid in_flight) }
    c ← contract_at contracts sid
    v ← verify_dod (λ n crit vctx. true) c (field "diff" (str sid) end) [] jury
    clean_steps contracts jury sids (settle sid (is_pass v.decision) started)

  -- the fault run: every step until the killed one, which stays in flight
  unfoldable pub fault_steps : String → List String → Ledger → Ledger
  fault_steps kill_at [] l = l
  fault_steps kill_at (sid ∷ order) l =
      let started = record_cursor api l (cursor sid in_flight) in
      let onward = fault_steps kill_at order (record_cursor api started (cursor sid accepted)) in
      if sid == kill_at then started else onward

  -- the killed step is known to a fresh store, and not accepted
  unfoldable pub recovered : String → Ledger → Result Bool
  unfolding fold accepted_steps
  recovered kill_at l = do
    resumed ← fold api l
    already ← accepted_steps api l
    ok (not (kill_at == "") && (elem kill_at (keys resumed) && not (elem kill_at already)))

  abbrev pub recovered_after : Option String → List String → Ledger → Result Bool
  recovered_after none order l = ok false
  recovered_after (some kill_at) order l = recovered kill_at (fault_steps kill_at order l)

  unfoldable pub recovery_check : List String → Ledger → Result Bool
  unfolding fault_steps recovered
  recovery_check order l = recovered_after (kill_point order) order l

  abbrev pub arm_name : Bool → String
  arm_name serial = if serial then "executor-serial" else "executor-wave"

  abbrev pub ledger_file : Value → String → String → String
  ledger_file plan_id arm run = to_text plan_id +++ "-" +++ arm +++ "-" +++ run +++ ".jsonl"

  module _ (canonical : String → Option String) (ledger_at : String → Ledger) where
    unfoldable pub run_executor_arm : Fields → Bool → ℕ → Result ArmMetrics
    unfolding contracts_of build_dag schedule_waves clean_steps back_update_check recovery_check
        coverage_report blocks
    run_executor_arm plan serial jury = do
      contracts ← contracts_of plan
      dag ← build_dag contracts []
      waves ← schedule_waves canonical contracts [] none serial
      plan_id ← item "plan_id" plan
      let arm = arm_name serial
      let order = flatten (map all_steps waves)
      let n = length contracts
      clean ← clean_steps contracts jury order (record {
        ledger = ledger_at (ledger_file plan_id arm "clean");
        verify_passes = 0;
        verify_total = 0;
        accepted = 0;
      })
      recovery_ok ← recovery_check order (ledger_at (ledger_file plan_id arm "fault"))
      rep ← coverage_report plan
      ok (record {
        arm = arm;
        plan_id = plan_id;
        verified_step_rate = rate clean.accepted n;
        verify_pass_rate = rate clean.verify_passes clean.verify_total;
        back_update_correct = back_update_check contracts;
        end_to_end_success = eqb clean.accepted n;
        recovery_ok = recovery_ok;
        coverage_closed = not (blocks rep) && not (is_empty rep.matrix);
        n_barriers = length waves;
      })
