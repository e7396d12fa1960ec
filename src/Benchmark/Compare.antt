-- ===== src/Benchmark/Compare.antt =====
-- The comparison of the arms and the report of epiphany_executor/benchmark.py.
use epiphany_executor.Prelude.{
  ℕ, ◌+◌, ◌*◌, String, Bool, true, false, not, ◌&&◌, Option, List, [], ◌∷◌, Result, ok, ◌>>=◌, Dict,
  all, is_empty, ltb, leb, if◌then◌else◌,
}
use epiphany_executor.Value.{Value, str, arr, cons, nil, Fields, end, field}
use epiphany_executor.Template.{stamp_node_contract}
use epiphany_executor.Ledger.{LedgerApi}
use epiphany_executor.Dod.{Decision, pass, fail, blocked, verify_dod}
use epiphany_executor.Benchmark.{ArmMetrics, run_baseline_arm, run_executor_arm}

-- the values of a score vector, in the order of its keys
pub record ScoreVector : Type 0 where
  pub m1_verified : ℕ × ℕ
  pub m2_verify_pass : ℕ × ℕ
  pub m3_back_update : ℕ × ℕ
  pub m4_end_to_end : ℕ × ℕ
  pub m5_recovery : ℕ × ℕ
  pub m6_coverage : ℕ × ℕ

-- `float(b)`
abbrev pub float_of : Bool → ℕ × ℕ
float_of b = if b then (1, 1) else (0, 1)

unfoldable pub score_vector : ArmMetrics → ScoreVector
score_vector m = record {
  m1_verified = m.verified_step_rate;
  m2_verify_pass = m.verify_pass_rate;
  m3_back_update = float_of m.back_update_correct;
  m4_end_to_end = float_of m.end_to_end_success;
  m5_recovery = float_of m.recovery_ok;
  m6_coverage = float_of m.coverage_closed;
}

-- `x > y` and `x >= y`
abbrev pub above : ℕ × ℕ → ℕ × ℕ → Bool
above x y = ltb (y.0 * x.1) (x.0 * y.1)

abbrev pub no_less : ℕ × ℕ → ℕ × ℕ → Bool
no_less x y = leb (y.0 * x.1) (x.0 * y.1)

-- `{k: e[k] > b[k] for k in b}`, with the test as an argument
abbrev pub each_metric : (ℕ × ℕ → ℕ × ℕ → Bool) → ScoreVector → ScoreVector → List Bool
each_metric test e b =
    test e.m1_verified b.m1_verified
    ∷ test e.m2_verify_pass b.m2_verify_pass
    ∷ test e.m3_back_update b.m3_back_update
    ∷ test e.m4_end_to_end b.m4_end_to_end
    ∷ test e.m5_recovery b.m5_recovery
    ∷ test e.m6_coverage b.m6_coverage
    ∷ []

-- `sum(wins.values())`
abbrev pub sum_true : List Bool → ℕ
sum_true [] = 0
sum_true (b ∷ bs) = (if b then 1 else 0) + sum_true bs

pub record Comparison : Type 0 where
  pub n_strict_wins : ℕ
  pub decisive_trio_won : Bool
  pub no_regressions : Bool
  pub passes_R018 : Bool
  pub per_metric_wins : List Bool

unfoldable pub executor_beats_baseline : ArmMetrics → ArmMetrics → Comparison
unfolding score_vector
executor_beats_baseline baseline executor =
    let b = score_vector baseline in
    let e = score_vector executor in
    let wins = each_metric above e b in
    let ge = all (λ t. t) (each_metric no_less e b) in
    let decisive_wins =
      above e.m3_back_update b.m3_back_update
      && (above e.m5_recovery b.m5_recovery && above e.m6_coverage b.m6_coverage) in
    record {
      n_strict_wins = sum_true wins;
      decisive_trio_won = decisive_wins;
      no_regressions = ge;
      passes_R018 = decisive_wins && (leb 3 (sum_true wins) && ge);
      per_metric_wins = wins;
    }

abbrev is_fail : Decision → Bool
is_fail d = elim d [ fail ↦ true | pass ↦ false | blocked ↦ false ]

abbrev seeded_bad : Fields
seeded_bad =
    field "step_id" (str "seeded-bad") (
      field "acceptance_criteria" (arr (cons (str "the test suite passes with 0 failures") nil))
        end)

unfoldable pub jury_veto_self_test : Result Bool
unfolding stamp_node_contract verify_dod
jury_veto_self_test = do
  bad ← stamp_node_contract (Value.obj seeded_bad)
  verdict ← verify_dod (λ n crit vctx. false) bad (field "diff" (str "broken") end) [] 3
  ok (is_fail verdict.decision)

-- An entry of `per_plan`; the score vectors and the barriers of its arms are those of their metrics.
pub record PlanResult : Type 0 where
  pub plan_id : String
  pub baseline : ArmMetrics
  pub executor_serial : ArmMetrics
  pub executor_wave : ArmMetrics
  pub verdict : Comparison

-- `base.n_barriers - wave.n_barriers`, as the two sides of the difference
abbrev pub throughput_gain_barriers : PlanResult → ℕ × ℕ
throughput_gain_barriers r = (r.baseline.n_barriers, r.executor_wave.n_barriers)

pub record BenchmarkReport : Type 0 where
  pub per_plan : List PlanResult
  pub jury_veto_self_test_passed : Bool

unfoldable pub all_plans_pass_R018 : BenchmarkReport → Bool
all_plans_pass_R018 r = not (is_empty r.per_plan) && all (λ p. p.verdict.passes_R018) r.per_plan

module _ (api : LedgerApi) (canonical : String → Option String)
    (ledger_at : String → api.Ledger) where
  unfoldable pub run_plans : Dict Fields → Result (List PlanResult)
  unfolding run_baseline_arm run_executor_arm executor_beats_baseline
  run_plans [] = ok []
  run_plans ((pid, plan) ∷ plans) = do
    base ← run_baseline_arm plan
    ser ← run_executor_arm api canonical ledger_at plan true 1
    wave ← run_executor_arm api canonical ledger_at plan false 3
    rest ← run_plans plans
    let result : PlanResult = record {
      plan_id = pid;
      baseline = base;
      executor_serial = ser;
      executor_wave = wave;
      verdict = executor_beats_baseline base wave;
    }
    ok (result ∷ rest)

  unfoldable pub run_benchmark : Dict Fields → Result BenchmarkReport
  unfolding jury_veto_self_test run_plans
  run_benchmark plans = do
    vetoed ← jury_veto_self_test
    results ← run_plans plans
    ok (record { per_plan = results; jury_veto_self_test_passed = vetoed })
