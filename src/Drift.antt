-- ===== src/Drift.antt =====
-- epiphany_executor/drift.py: the hashes of a plan and the drift between two of them. `json.dumps`
-- with sorted keys and `hashlib.sha256` are parameters. Step ids are texts, as the annotations say;
-- another id is reported as an error. A recorded snapshot is what `snapshot_hashes` returned.
pub mod Resolved
use epiphany_executor.Prelude.{
  ℕ, String, Bool, true, false, not, ◌&&◌, ◌||◌, Option, none, some, List, [], ◌∷◌, Result, ok, err,
  ◌>>=◌, Dict, insert, lookup, is_empty, or_else, if◌then◌else◌, ◌==◌, codes, is_space, strip,
}
use epiphany_executor.Value.{
  Value, null, bool, nat, negative, float, str, arr, obj, nil, Fields, end, field, get, get_or,
  truthy, iterate,
}
use epiphany_executor.Coverage.{text_of}
use epiphany_executor.Lifecycle.{LifecycleState, unstarted, same_state}

-- `_WS.sub(" ", text)`; `gap` says that the character before was white space
unfoldable pub collapse : Bool → List ℕ → List ℕ
collapse gap [] = []
collapse gap (c ∷ s) =
    let inside = collapse true s in
    let outside = collapse false s in
    if is_space c then (if gap then inside else b' ' ∷ inside) else c ∷ outside

-- `{k: v for k, v in plan.items() if k != "steps"}`
unfoldable pub skeleton : Fields → Fields
skeleton end = end
skeleton (field k v fs) = let rest = skeleton fs in if k == "steps" then rest else field k v rest

pub record Snapshot : Type 0 where
  pub plan : String
  pub steps : Dict String

pub data DriftResolution : Type 0 where
  no_drift reimport halt : DriftResolution

pub record DriftVerdict : Type 0 where
  pub resolution : DriftResolution
  pub drifted_steps : List String
  pub plan_drifted : Bool
  pub halt_steps : List String
  pub reason : String

-- `sid in rec_steps and rec_steps[sid] != h`
abbrev pub differs : Option String → String → Bool
differs none h = false
differs (some g) h = not (g == h)

-- the lists `drifted` and `halt`
pub record Drifted : Type 0 where
  pub all_steps : List String
  pub started : List String

-- the loop over the current steps
unfoldable pub compare_steps : Dict String → Dict LifecycleState → Dict String → Drifted
compare_steps recorded lifecycle [] = record { all_steps = []; started = [] }
compare_steps recorded lifecycle ((sid, h) ∷ steps) =
    let rest = compare_steps recorded lifecycle steps in
    let state = or_else (lookup sid lifecycle) unstarted in
    if differs (lookup sid recorded) h
    then record {
      all_steps = sid ∷ rest.all_steps;
      started = if same_state state unstarted then rest.started else sid ∷ rest.started;
    }
    else rest

unfoldable pub drift_verdict : Bool → Drifted → DriftVerdict
drift_verdict plan_drifted d =
    if not (is_empty d.started) || plan_drifted
    then record {
      resolution = halt;
      drifted_steps = d.all_steps;
      plan_drifted = plan_drifted;
      halt_steps = d.started;
      reason = "started step (or plan skeleton) drifted -> human reconciliation";
    }
    else if not (is_empty d.all_steps)
    then record {
      resolution = reimport;
      drifted_steps = d.all_steps;
      plan_drifted = plan_drifted;
      halt_steps = [];
      reason = "UNSTARTED step(s) drifted -> safe re-import";
    }
    else record {
      resolution = no_drift;
      drifted_steps = [];
      plan_drifted = false;
      halt_steps = [];
      reason = "";
    }

module _ (dumps : Fields → String) (sha256 : List ℕ → String) where
  unfoldable pub canonicalize : Fields → List ℕ
  unfolding collapse strip
  canonicalize document = strip (collapse false (codes (dumps document)))

  unfoldable pub step_hash : Fields → String
  unfolding canonicalize
  step_hash step = sha256 (canonicalize step)

  unfoldable pub plan_hash : Fields → String
  unfolding canonicalize skeleton
  plan_hash plan = sha256 (canonicalize (skeleton plan))

  -- `if isinstance(s, dict) and s.get("step_id"): steps[s["step_id"]] = step_hash(s)`
  unfoldable pub add_hash : Value → Dict String → Result (Dict String)
  unfolding step_hash
  add_hash (obj s) steps =
      if truthy (get "step_id" s)
      then (do sid ← text_of (get "step_id" s); ok (insert sid (step_hash s) steps))
      else ok steps
  add_hash v steps = ok steps

  unfoldable pub add_hashes : List Value → Dict String → Result (Dict String)
  unfolding add_hash
  add_hashes [] steps = ok steps
  add_hashes (v ∷ vs) steps = do next ← add_hash v steps; add_hashes vs next

  unfoldable pub snapshot_hashes : Fields → Result Snapshot
  unfolding plan_hash add_hashes
  snapshot_hashes plan = do
    bodies ← iterate (get_or "steps" (arr nil) plan)
    steps ← add_hashes bodies []
    ok (record { plan = plan_hash plan; steps = steps })

  unfoldable pub check_drift : Snapshot → Fields → Dict LifecycleState → Result DriftVerdict
  unfolding snapshot_hashes compare_steps drift_verdict
  check_drift recorded current_plan lifecycle = do
    cur ← snapshot_hashes current_plan
    ok (
        drift_verdict (not (cur.plan == recorded.plan))
          (compare_steps recorded.steps lifecycle cur.steps))
