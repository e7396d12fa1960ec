-- ===== src/Baseline.antt =====
-- epiphany_executor/baseline.py: the sequential applier. `apply_fn` and `check_fn` are parameters that
-- also see how many steps went through them before, so that they may keep a state, and that may
-- raise; an empty dict stands for missing artifacts too. Step ids are texts, as the annotations say; another
-- id is reported as an error.
pub mod Prefix
use epiphany_executor.Prelude.{
  ℕ, ◌+◌, String, Bool, true, false, not, ◌&&◌, Option, none, some, List, [], ◌∷◌, Result, ok, err,
  ◌>>=◌, key_error, Dict, insert, lookup, keys, length, eqb, if◌then◌else◌,
}
use epiphany_executor.Value.{
  Value, null, bool, nat, negative, float, str, arr, obj, nil, Fields, get, get_or, truthy, iterate,
}
use epiphany_executor.Coverage.{text_of}

pub record BaselineResult : Type 0 where
  pub accepted : List String
  pub failed_at : Option String
  pub total : ℕ

abbrev pub is_none : Option String → Bool
is_none none = true
is_none (some s) = false

unfoldable pub end_to_end_success : BaselineResult → Bool
end_to_end_success r = is_none r.failed_at && eqb (length r.accepted) r.total

-- a rate as a fraction, with 0 for no steps
abbrev pub rate : ℕ → ℕ → ℕ × ℕ
rate part total = if eqb total 0 then (0, 1) else (part, total)

unfoldable pub verified_step_rate : BaselineResult → ℕ × ℕ
verified_step_rate r = rate (length r.accepted) r.total

-- `(s["step_id"], s)` for the steps that are dicts with an id
unfoldable pub steps_with_id : List Value → Result (Dict Fields)
steps_with_id [] = ok []
steps_with_id (obj s ∷ vs) =
    if truthy (get "step_id" s)
    then (do sid ← text_of (get "step_id" s); rest ← steps_with_id vs; ok ((sid, s) ∷ rest))
    else steps_with_id vs
steps_with_id (v ∷ vs) = steps_with_id vs

-- `by_id`: the last step with an id has it
abbrev pub by_id : Dict Fields → Dict Fields → Dict Fields
by_id [] d = d
by_id ((sid, s) ∷ steps) d = by_id steps (insert sid s d)

-- `by_id[sid]`
abbrev pub step_at : Option Fields → Result Fields
step_at none = err key_error
step_at (some s) = ok s

module _ (apply_fn : ℕ → Fields → Result Fields)
    (check_fn : ℕ → Fields → Fields → Result Bool) where
  -- the loop over the order, when `n` steps were applied and checked before
  unfoldable pub run_order : ℕ → Dict Fields → List String → ℕ → Result BaselineResult
  run_order n steps [] total = ok (record { accepted = []; failed_at = none; total = total })
  run_order n steps (sid ∷ order) total = do
    let rest = run_order (n + 1) steps order total
    step ← step_at (lookup sid steps)
    artifacts ← apply_fn n step
    passed ← check_fn n step artifacts
    if passed
        then (do res ← rest; ok (record res { accepted = sid ∷ res.accepted }))
        else ok (record { accepted = []; failed_at = some sid; total = total })

  unfoldable pub run_baseline : Fields → Result BaselineResult
  unfolding steps_with_id run_order
  run_baseline plan = do
    vs ← iterate (get_or "steps" (arr nil) plan)
    steps ← steps_with_id vs
    run_order 0 (by_id steps []) (keys steps) (length (keys steps))
