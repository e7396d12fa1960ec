-- ===== src/Telemetry.antt =====
-- epiphany_executor/telemetry.py: the health view over the ledger's entries, the resume brief and
-- the resolution of a halt. A rate is kept as a fraction, the passes and the verdicts.
use Prim.Native.String.{◌++◌ as ◌+++◌}
use epiphany_executor.Prelude.{
  ℕ, ◌+◌, ◌-◌, String, Bool, true, false, Option, none, some, List, [], ◌∷◌, Result, ok, err, ◌>>=◌,
  key_error, value_error, Dict, insert, elem, eqb, if◌then◌else◌, ◌==◌,
}
use epiphany_executor.Value.{Value, null, nat, str, Fields, end, get, get_or, truthy}
use epiphany_executor.Ledger.{LedgerEntry}
use epiphany_executor.Lifecycle.Store.{has_kind}

pub record HealthView : Type 0 where
  pub total : ℕ
  pub accepted : ℕ
  pub blocked : ℕ
  pub failed : ℕ
  pub in_flight : ℕ
  pub awaiting : ℕ
  pub verify_pass_rate : Option (ℕ × ℕ)
  pub back_edge_churn : ℕ
  pub coverage_pct : Value
  pub est_remaining : ℕ
  pub thinking_tiers : Fields
  pub resident_mode : Value
  pub max_concurrent_effectors : Value
  pub max_jury_width : Value
  pub speculative_count : Value

-- the variables of the loop over the entries; a state is what the entry has for it
pub record Tally : Type 0 where
  pub states : Dict (Option String)
  pub churn : ℕ
  pub verify_pass : ℕ
  pub verify_total : ℕ

-- `states[e["node"]] = e.get("lifecycle_state")`
abbrev pub set_state :
    Option String → Option String → Dict (Option String) → Result (Dict (Option String))
set_state none state states = err key_error
set_state (some sid) state states = ok (insert sid state states)

-- the branches on the kind of the entry
unfoldable pub tally_kind : LedgerEntry → Tally → Result Tally
tally_kind e t =
    if has_kind e "lifecycle-transition"
    then (do
      states ← set_state e.node e.lifecycle_state t.states
      ok (record t { states = states }))
    else if has_kind e "back-update-correcting-delta"
    then ok (record t { churn = t.churn + 1 })
    else if has_kind e "sentinel-regression-forward-delta"
    then ok (record t { churn = t.churn + 1 })
    else ok t

abbrev text_or_null : Value → Value
text_or_null (str s) = str s
text_or_null v = null

-- `e.get("verdict") or (...)`
abbrev pub verdict_of : LedgerEntry → Value
verdict_of e =
    let verdict = get "verdict" e.other in
    if truthy verdict then verdict else text_or_null (get "dod_verdict" e.other)

abbrev pub tally_verdict : Value → Tally → Tally
tally_verdict (str v) t =
    if v == "PASS"
    then record t { verify_pass = t.verify_pass + 1; verify_total = t.verify_total + 1 }
    else if v == "FAIL"
    then record t { verify_total = t.verify_total + 1 }
    else t
tally_verdict v t = t

unfoldable pub tally_entries : List LedgerEntry → Tally → Result Tally
unfolding tally_kind
tally_entries [] t = ok t
tally_entries (e ∷ es) t = do
  next ← tally_kind e t
  tally_entries es (tally_verdict (verdict_of e) next)

abbrev is_state : String → Option String → Bool
is_state s none = false
is_state s (some v) = v == s

-- the steps in a state, of the loop over `states.values()`
unfoldable pub count_state : String → Dict (Option String) → ℕ
count_state s [] = 0
count_state s ((sid, st) ∷ states) = (if is_state s st then 1 else 0) + count_state s states

-- the fields that `fanout` fills; an empty dictionary stands for a missing one too
abbrev fanout_value : Fields → String → Value
fanout_value fanout k = get_or k (nat 0) fanout

abbrev pub no_tally : Tally
no_tally = record { states = []; churn = 0; verify_pass = 0; verify_total = 0 }

unfoldable pub health_view : List LedgerEntry → ℕ → Value → Value → Fields → Result HealthView
unfolding tally_entries count_state
health_view entries total_steps coverage_pct resident_mode fanout = do
  t ← tally_entries entries no_tally
  ok (record {
    total = total_steps;
    accepted = count_state "ACCEPTED" t.states;
    blocked = count_state "BLOCKED" t.states;
    failed = count_state "FAILED" t.states;
    in_flight = count_state "IN_FLIGHT" t.states;
    awaiting = count_state "AWAITING" t.states;
    verify_pass_rate = if eqb t.verify_total 0 then none else some (t.verify_pass, t.verify_total);
    back_edge_churn = t.churn;
    coverage_pct = coverage_pct;
    est_remaining = total_steps - count_state "ACCEPTED" t.states;
    thinking_tiers = end;
    resident_mode = resident_mode;
    max_concurrent_effectors = fanout_value fanout "max_concurrent_effectors";
    max_jury_width = fanout_value fanout "max_jury_width";
    speculative_count = fanout_value fanout "speculative_count";
  })

pub record Progress : Type 0 where
  pub accepted : ℕ
  pub total : ℕ
  pub blocked : ℕ
  pub failed : ℕ

-- the dictionary that `resume_brief` returns
pub record ResumeBrief : Type 0 where
  pub plan_id : String
  pub graph_sha : String
  pub session_dir : String
  pub progress : Progress
  pub next_steps : List String
  pub verify_pass_rate : Option (ℕ × ℕ)
  pub coverage_pct : Value
  pub how_to_resume : String
  pub self_contained : Bool

unfoldable pub resume_brief : String → HealthView → List String → String → String → ResumeBrief
resume_brief plan_id health next_steps graph_sha session_dir = record {
  plan_id = plan_id;
  graph_sha = graph_sha;
  session_dir = session_dir;
  progress = record {
    accepted = health.accepted;
    total = health.total;
    blocked = health.blocked;
    failed = health.failed;
  };
  next_steps = next_steps;
  verify_pass_rate = health.verify_pass_rate;
  coverage_pct = health.coverage_pct;
  how_to_resume = "goatcs-harness run --resume " +++ session_dir;
  self_contained = true;
}

pub data HaltClass : Type 0 where
  defect_ack drift_reopen_or_keep irreversible_confirm waiver_ack backupdate_budget : HaltClass

abbrev pub prompts : HaltClass → String
prompts defect_ack = "Plan declares a BLOCKING gate/defect. Acknowledge & override, or abort?"
prompts drift_reopen_or_keep =
    "Plan content drifted on a started step. Re-open (re-verify) or keep?"
prompts irreversible_confirm =
    "Next effect is externally-irreversible. Confirm to proceed, or skip?"
prompts waiver_ack =
    "Requirement orphan is plan-caused. Acknowledge waiver (routes to epiphany-plan)?"
prompts backupdate_budget = "Back-update revision budget exhausted. Raise budget, or halt?"

abbrev pub legal_choices : HaltClass → List String
legal_choices defect_ack = "override-and-proceed" ∷ "abort" ∷ []
legal_choices drift_reopen_or_keep = "reopen" ∷ "keep" ∷ []
legal_choices irreversible_confirm = "confirm" ∷ "skip-with-waiver" ∷ "halt" ∷ []
legal_choices waiver_ack = "ack-waiver" ∷ "abort" ∷ []
legal_choices backupdate_budget = "raise-budget" ∷ "halt" ∷ []

pub record HaltResolution : Type 0 where
  pub halt_class : HaltClass
  pub prompt : String
  pub choices : List String

unfoldable pub halt_resolution : HaltClass → HaltResolution
halt_resolution h = record { halt_class = h; prompt = prompts h; choices = legal_choices h }

pub record ResumedRun : Type 0 where
  pub resolved : Bool
  pub decision : String
  pub resume_entry : String

unfoldable pub resume_from_halt : HaltClass → String → String → Result ResumedRun
resume_from_halt h operator_decision session_dir =
    if elem operator_decision (legal_choices h)
    then ok (record {
      resolved = true;
      decision = operator_decision;
      resume_entry = "goatcs-harness run --resume " +++ session_dir;
    })
    else err value_error
