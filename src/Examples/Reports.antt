-- ===== src/Examples/Reports.antt =====
-- Examples of the telemetry, the drift, the census, the validation, the corpus, the baseline, the
-- closure, the benchmark and the reconcile.
use epiphany_executor.Corpus.Partition.{partition_corpus-names_of}
use epiphany_executor.Corpus.{names_of}
use epiphany_executor.Prelude.{keep, ltb}
use epiphany_executor.Baseline.Prefix.{Prefix, run_baseline-Prefix}
use epiphany_executor.Prelude.{
  ℕ, ◌-◌, ◌≡◌, refl, String, Bool, true, not, ◌&&◌, ◌||◌, ◌==◌, none, some, List, [], ◌∷◌, Result,
  ok, err, Dict, elem, keys, length, is_empty, lookup, sorted, if◌then◌else◌,
}
use epiphany_executor.Validate.Scheduled.{has_wave, has_raised, scheduled_waves}
use epiphany_executor.Validate.Verdict.{validate_plan-valid}
use epiphany_executor.Value.{Value, str, bool, nat, null, arr, obj, cons, nil, Fields, field, end}
use epiphany_executor.Ledger.{LedgerEntry, list_ledger}
use epiphany_executor.Lifecycle.{LifecycleState, accepted}
use epiphany_executor.Lifecycle.Store.{RecoveryCursor, as_entry, fold, accepted_steps}
use epiphany_executor.Lifecycle.Store.Abstract.{CursorMap, Represents}
use epiphany_executor.Lifecycle.Store.Health.{health_view-accepted_steps}
use epiphany_executor.Telemetry.{HealthView, health_view}
use epiphany_executor.Drift.{
  Snapshot, DriftVerdict, no_drift, reimport, halt, snapshot_hashes, check_drift,
}
use epiphany_executor.Drift.Resolved.{has_drifted, has_started, check_drift-resolution}
use epiphany_executor.Census.{CensusFinding, passed, census}
use epiphany_executor.Census.Consumers.{plan_level_consumers, step_level_consumers}
use epiphany_executor.Census.Bound.{is_bound, used_in_plans, used_in_steps, census-passed}
use epiphany_executor.Coverage.{text_of}
use epiphany_executor.Corpus.{
  CorpusPlan, CorpusPartition, json, md, tuning_role, held_out_role, end_to_end, is_correct_halt,
  is_text, is_disjoint, partition_corpus,
}
use epiphany_executor.Gate.{GateDecision, proceed, halts, evaluate_gate}
use epiphany_executor.Validate.{GraphSpec, PlanValidation, is_valid, validate_plan}
use epiphany_executor.Baseline.{BaselineResult, end_to_end_success, run_baseline, steps_with_id}
use epiphany_executor.Convergence.{Fraction, one, default_floor, ClosureVerdict, closed, closure}
use epiphany_executor.Reconcile.{Tree, Manifest, live_module_refs, reconcile}
use epiphany_executor.Reconcile.Preserved.{merged, reconcile-merged}
use epiphany_executor.Examples.Data.{no_path, step_a}

abbrev cursor_a : RecoveryCursor
cursor_a = record { step_id = "a"; lifecycle_state = accepted; effect_ledger_cursor = 0 }

abbrev no_cursors : CursorMap
no_cursors sid = none

empty-Represents : Represents list_ledger [] no_cursors
unfolding fold
empty-Represents = ([], refl, λ sid. refl)

abbrev ledger : List LedgerEntry
ledger = as_entry cursor_a ∷ []

abbrev done : List String
done = "a" ∷ []

abbrev health : HealthView
health = record {
  total = 3;
  accepted = 1;
  blocked = 0;
  failed = 0;
  in_flight = 0;
  awaiting = 0;
  verify_pass_rate = none;
  back_edge_churn = 0;
  coverage_pct = null;
  est_remaining = 2;
  thinking_tiers = end;
  resident_mode = null;
  max_concurrent_effectors = nat 0;
  max_jury_width = nat 0;
  speculative_count = nat 0;
}

accepted_steps-ledger : accepted_steps list_ledger ledger ≡ ok done
unfolding accepted_steps as_entry
accepted_steps-ledger = refl

health_view-ledger : health_view ledger 3 null null end ≡ ok health
unfolding health_view as_entry
health_view-ledger = refl

health_view-accepted_steps_example :
    (health.accepted ≡ length done) × (health.est_remaining ≡ 3 - length done)
health_view-accepted_steps_example =
    health_view-accepted_steps list_ledger ledger 3 null null end done health accepted_steps-ledger
      health_view-ledger

abbrev dumps : Fields → String
dumps d = "{}"

abbrev sha256 : List ℕ → String
sha256 c = "new"

abbrev steps : List Value
steps = obj (field "step_id" (str "s1") end) ∷ []

abbrev raw_plan : Fields
raw_plan = field "steps" (arr (cons (obj (field "step_id" (str "s1") end)) nil)) end

abbrev recorded : Snapshot
recorded = record { plan = "new"; steps = ("s1", "old") ∷ [] }

abbrev current : Snapshot
current = record { plan = "new"; steps = ("s1", "new") ∷ [] }

abbrev lifecycle : Dict LifecycleState
lifecycle = ("s1", accepted) ∷ []

snapshot_hashes-plan : snapshot_hashes dumps sha256 raw_plan ≡ ok current
unfolding snapshot_hashes text_of
snapshot_hashes-plan = refl

check_drift-resolution_example :
    (v : DriftVerdict) × (check_drift dumps sha256 recorded raw_plan lifecycle ≡ ok v)
    × ((s : String)
        → (elem s v.drifted_steps ≡ has_drifted recorded.steps current.steps s)
          × (elem s v.halt_steps
              ≡ (has_drifted recorded.steps current.steps s && has_started lifecycle s)))
    × (v.resolution ≡ (
        if not (is_empty v.halt_steps) || not (current.plan == recorded.plan)
        then halt
        else if is_empty v.drifted_steps
        then no_drift
        else reimport))
check_drift-resolution_example =
    check_drift-resolution dumps sha256 recorded raw_plan lifecycle current snapshot_hashes-plan

abbrev census_plans : Dict Fields
census_plans = ("p", field "plan_id" (str "p") (field "mystery" null raw_plan)) ∷ []

abbrev returned : Result (List CensusFinding) → List CensusFinding
returned (err e) = []
returned (ok findings) = findings

abbrev findings : List CensusFinding
findings = returned (census census_plans)

census-plans : census census_plans ≡ ok findings
unfolding census
census-plans = refl

census-passed_example : passed findings ≡ (
    is_bound plan_level_consumers (used_in_plans census_plans)
    && is_bound step_level_consumers (used_in_steps census_plans))
census-passed_example = census-passed census_plans findings census-plans

abbrev corpus_plan : String → CorpusPlan
corpus_plan name = record {
  name = name;
  path = name;
  kind = json;
  role = held_out_role;
  disposition = end_to_end;
  gate_verdict = null;
}

abbrev part : CorpusPartition
part = record {
  tuning = record (corpus_plan "q") { kind = md; role = tuning_role } ∷ [];
  held_out = corpus_plan "p" ∷ [];
}

partition_corpus-part :
    partition_corpus ("p" ∷ []) (("p", "p", end) ∷ []) (("q", "q") ∷ []) ≡ ok part
unfolding partition_corpus
partition_corpus-part = refl

abbrev passing_plan : Fields
passing_plan = field "gate_status" (obj (field "verdict" (str "PASS") end)) end

abbrev spec : GraphSpec
spec = record { nodes = ("a", some step_a) ∷ []; raw = end }

abbrev load_plan : CorpusPlan → Result (Fields × GraphSpec)
load_plan p = ok (passing_plan, spec)

abbrev decision : GateDecision
decision = record { decision = proceed; reasons = []; blocking_steps = [] }

evaluate_gate-passing : evaluate_gate passing_plan ≡ ok decision
unfolding evaluate_gate sorted
evaluate_gate-passing = refl

abbrev unchanged : ℕ → Fields → Result Fields
unchanged n s = ok s

abbrev before_second : ℕ → Fields → Fields → Result Bool
before_second n s a = ok (ltb n 1)

abbrev first_s1 : Fields
first_s1 = field "step_id" (str "s1") end

abbrev second_s1 : Fields
second_s1 = field "step_id" (str "s1") (field "phase" (nat 2) end)

abbrev repeated_plan : Fields
repeated_plan = field "steps" (arr (cons (obj first_s1) (cons (obj second_s1) nil))) end

abbrev named_steps : Dict Fields
named_steps = ("s1", first_s1) ∷ ("s1", second_s1) ∷ []

steps_with_id-repeated : steps_with_id (obj first_s1 ∷ obj second_s1 ∷ []) ≡ ok named_steps
unfolding steps_with_id text_of
steps_with_id-repeated = refl

abbrev to_float : Value → Result Fraction
to_float v = ok one

abbrev closure_record : Fields
closure_record = field "original_suite_pass" (bool true) (field "session_pass" (bool true) end)

abbrev verdict : ClosureVerdict
verdict = record {
  original_suite_pass = true;
  session_pass = true;
  forge_authored_pct = one;
  floor = default_floor;
}

closure-record : closure to_float (some closure_record) default_floor ≡ ok verdict
unfolding closure
closure-record = refl

closed-verdict : closed verdict ≡ true
unfolding closed
closed-verdict = refl

fold-nothing : fold list_ledger [] ≡ ok []
unfolding fold
fold-nothing = refl

abbrev staging : Tree
staging = ("x", "new") ∷ ("y", "why") ∷ []

abbrev live : Tree
live = ("x", "old") ∷ []

abbrev live_after : Tree
live_after = ("x", "old") ∷ ("y", "why") ∷ []

abbrev manifest : Manifest
manifest = record {
  added = "y" ∷ [];
  preserved = "x" ∷ [];
  skipped_orphans = [];
  n_added = 1;
  n_preserved = 1;
  n_skipped_orphans = 0;
}

live_module_refs-none : live_module_refs none ≡ ok none
unfolding live_module_refs
live_module_refs-none = refl

reconcile-staging : reconcile staging live none ≡ ok (live_after, manifest)
unfolding reconcile sorted
reconcile-staging = refl

reconcile-merged_example : lookup "x" live_after ≡ merged none staging live "x"
reconcile-merged_example =
    reconcile-merged staging live live_after none none manifest "x" live_module_refs-none
      reconcile-staging

partition_corpus-names_of_example :
    (names_of part.tuning ≡ keep (λ n. not (elem n ("p" ∷ []))) ("p" ∷ "q" ∷ []))
    × (names_of part.held_out ≡ keep (λ n. elem n ("p" ∷ [])) ("p" ∷ "q" ∷ []))
    × (is_disjoint part ≡ true)
partition_corpus-names_of_example =
    partition_corpus-names_of ("p" ∷ []) (("p", "p", end) ∷ []) (("q", "q") ∷ []) part
      partition_corpus-part

validate_plan-valid_example :
    (v : PlanValidation) × (validate_plan no_path load_plan (corpus_plan "p") ≡ ok v)
    × (is_valid v ≡ (
        if halts decision
        then is_correct_halt (corpus_plan "p") || not (is_text "PASS" (str "PASS"))
        else not (is_correct_halt (corpus_plan "p")) && has_wave (scheduled_waves no_path spec)))
    × (v.routed_to_cotuning ≡ (not (halts decision) && has_raised (scheduled_waves no_path spec)))
validate_plan-valid_example =
    validate_plan-valid no_path load_plan (corpus_plan "p") passing_plan spec decision (str "PASS")
      refl evaluate_gate-passing refl

run_baseline-Prefix_example :
    (r : BaselineResult) × (run_baseline unchanged before_second repeated_plan ≡ ok r)
    × (p : Prefix unchanged before_second named_steps 0 (keys named_steps) r) × (end_to_end_success
          r
        ≡ is_empty p.rest)
run_baseline-Prefix_example =
    run_baseline-Prefix unchanged before_second repeated_plan (obj first_s1 ∷ obj second_s1 ∷ [])
      named_steps (λ n s. (s, refl)) (λ n s a. (ltb n 1, refl)) refl steps_with_id-repeated
