-- ===== src/Effector.antt =====
-- epiphany_executor/effector.py: one wave's steps, each in its own worktree, up to the barrier. The
-- worktree manager, the dispatch, the join and the test for background steps are parameters; those
-- that are called many times also see how many steps were started before. An exception of theirs
-- is the text of the message that the code keeps.
pub mod Staged
pub mod Total
pub mod InMemory
use epiphany_executor.Prelude.{
  ℕ, ◌+◌, String, Bool, true, false, not, Option, none, some, List, [], ◌∷◌, ◌++◌, Result, ok, err,
  ◌>>=◌, ◌>>◌, guard, assertion_error, Dict, insert, or_else, elem, any, all, is_some,
}
use epiphany_executor.Value.{Fields, end}
use epiphany_executor.Contract.{Contract}
use epiphany_executor.Scheduler.Cohort.{contract_at}
use epiphany_executor.Scheduler.Waves.{Wave}

-- How a call of an injected function ends; `returned none` is Python's None.
pub data Answer {ℓ} (A : Type ℓ) : Type ℓ where
  raised : String → Answer A
  returned : A → Answer A

pub record StepResult : Type 0 where
  pub step_id : String
  pub worktree : String
  pub artifacts : Fields
  pub background : Bool
  pub joined : Bool
  pub error : Option String
  pub committed : Bool

pub record WaveResult : Type 0 where
  pub index : ℕ
  pub results : Dict StepResult

abbrev pub values {ℓ} : {V : Type ℓ} → Dict V → List V
values [] = []
values ((k, v) ∷ d) = v ∷ values d

unfoldable pub all_ok : WaveResult → Bool
all_ok r = all (λ (s : StepResult). not (is_some s.error)) (values r.results)

unfoldable pub any_committed : WaveResult → Bool
any_committed r = any (λ (s : StepResult). s.committed) (values r.results)

abbrev pub paths : Dict StepResult → List String
paths [] = []
paths ((k, s) ∷ d) = s.worktree ∷ paths d

-- `WaveResult.worktrees`
abbrev pub worktrees : WaveResult → List String
worktrees r = paths r.results

-- the injected functions; `W` is the state of the worktree manager
pub record Runtime (W : Type 0) : Type 0 where
  pub create : String → W → String × W
  pub is_background : ℕ → String → Contract → Answer Bool
  pub dispatch : ℕ → String → Contract → String → Answer (Option Fields)
  pub join : Option (ℕ → String → Answer (Option Fields))

abbrev staged : String → String → StepResult
staged sid wt = record {
  step_id = sid;
  worktree = wt;
  artifacts = end;
  background = false;
  joined = false;
  error = none;
  committed = false;
}

abbrev failed_step : String → String → String → StepResult
failed_step sid wt message = record (staged sid wt) { error = some message }

-- `artifacts = dispatch_fn(...) or {}` of a step in the foreground
unfoldable pub foreground_result : String → String → Answer (Option Fields) → StepResult
foreground_result sid wt (raised message) = failed_step sid wt message
foreground_result sid wt (returned a) = record (staged sid wt) { artifacts = or_else a end }

-- a background step, joined
unfoldable pub background_result : String → String → Answer (Option Fields) → StepResult
background_result sid wt (raised message) = failed_step sid wt message
background_result sid wt (returned a) = record (staged sid wt) {
  artifacts = or_else a end;
  background = true;
  joined = true;
}

-- the branch on the kind of the step, with the answer that each branch gets
unfoldable pub result_of :
    String → String → Answer Bool → Answer (Option Fields) → Answer (Option Fields) → StepResult
unfolding foreground_result background_result
result_of sid wt (raised message) joined_answer answer = failed_step sid wt message
result_of sid wt (returned true) joined_answer answer = background_result sid wt joined_answer
result_of sid wt (returned false) joined_answer answer = foreground_result sid wt answer

module _ {W : Type 0} (runtime : Runtime W) (contracts : Dict Contract) where
  open runtime use {create, is_background, dispatch, join}

  abbrev background_answer : ℕ → String → Contract → String → Answer (Option Fields)
  background_answer n sid c wt = elim join [
    | none ↦ dispatch n sid c wt
    | some join_fn ↦ join_fn n sid
  ]

  -- the `try` of `_run`
  unfoldable pub attempt : ℕ → String → Contract → String → StepResult
  unfolding result_of
  attempt n sid c wt =
      result_of sid wt (is_background n sid c) (background_answer n sid c wt) (dispatch n sid c wt)

  -- what the loop carries
  pub record Progress : Type 0 where
    pub started : ℕ
    pub manager : W
    pub seen_paths : List String
    pub done : Dict StepResult

  -- one round: `result.results[sid] = _run(sid)`
  unfoldable pub run_one : String → Progress → Result Progress
  unfolding attempt
  run_one sid p = do
    c ← contract_at contracts sid
    let made = create sid p.manager
    guard (not (elem made.0 p.seen_paths)) assertion_error
    ok (record {
      started = p.started + 1;
      manager = made.1;
      seen_paths = made.0 ∷ p.seen_paths;
      done = insert sid (attempt p.started sid c made.0) p.done;
    })

  unfoldable pub run_all : List String → Progress → Result Progress
  unfolding run_one
  run_all [] p = ok p
  run_all (sid ∷ sids) p = do next ← run_one sid p; run_all sids next

  -- the cohort, then the serial residue, then the barrier
  unfoldable pub dispatch_wave : Wave → W → Result (WaveResult × W)
  unfolding run_all
  dispatch_wave wave manager = do
    cohort ←
        run_all wave.parallel
          (record { started = 0; manager = manager; seen_paths = []; done = [] })
    p ← run_all wave.serial cohort
    ok (record { index = wave.index; results = p.done }, p.manager)
