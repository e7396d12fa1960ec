-- ===== src/EffectClass.antt =====
-- epiphany_executor/effect_class.py: the class of a command before it runs, and the v1 gate.
pub mod Markers
use epiphany_executor.Prelude.{
  ℕ, String, Bool, true, false, not, ◌&&◌, List, [], ◌∷◌, Result, err, auto_resume_not_available,
  codes, lower, strip, starts_with, contains, any, is_empty, if◌then◌else◌, map,
}
use epiphany_executor.Value.{Value, to_text}
use epiphany_executor.Contract.{Contract}
use epiphany_executor.Scheduler.Static.{irreversible_markers, names_any}

pub data EffectClass : Type 0 where
  pure local_mutating externally_irreversible : EffectClass

abbrev pub readonly_prefixes : List String
readonly_prefixes =
    "cat " ∷ "ls " ∷ "grep " ∷ "rg " ∷ "find " ∷ "head " ∷ "tail " ∷ "echo " ∷ "test " ∷ "stat "
    ∷ "wc " ∷ "diff " ∷ "git status" ∷ "git log" ∷ "git diff" ∷ "pytest" ∷ "python -m pytest"
    ∷ "ruff check" ∷ "mypy" ∷ []

abbrev pub local_mutating_markers : List String
local_mutating_markers =
    ">" ∷ ">>" ∷ "touch " ∷ "mkdir " ∷ "rm " ∷ "mv " ∷ "cp " ∷ "sed -i" ∷ "git add" ∷ "git commit"
    ∷ "git checkout" ∷ "write" ∷ "edit" ∷ []

-- the tests of `classify_command` on `low`
unfoldable pub classify_low : List ℕ → EffectClass
unfolding contains starts_with
classify_low low =
    if is_empty low
    then externally_irreversible
    else if names_any irreversible_markers low
    then externally_irreversible
    else if names_any local_mutating_markers low
    then local_mutating
    else if any (λ p. starts_with low (codes p)) readonly_prefixes
    then pure
    else externally_irreversible

-- over the code points of the command
unfoldable pub classify_codes : List ℕ → EffectClass
unfolding classify_low lower strip
classify_codes cmd = classify_low (lower (strip cmd))

unfoldable pub classify_command : Value → EffectClass
unfolding classify_codes to_text
classify_command cmd = classify_codes (codes (to_text cmd))

pub record GateDecision : Type 0 where
  pub effect_class : EffectClass
  pub gated : Bool

abbrev pub is_external : EffectClass → Bool
is_external externally_irreversible = true
is_external _ = false

unfoldable pub gating_decision : EffectClass → Bool → GateDecision
gating_decision class has_token =
    if is_external class && not has_token
    then record { effect_class = class; gated = true }
    else record { effect_class = class; gated = false }

-- one decision for each action, with no idempotency token
unfoldable pub classify_step : Contract → List GateDecision
unfolding gating_decision classify_command
classify_step contract = map (λ a. gating_decision (classify_command a) false) contract.actions

unfoldable pub step_is_gated : Contract → Bool
unfolding classify_step
step_is_gated contract = any (λ (d : GateDecision). d.gated) (classify_step contract)

unfoldable pub auto_resume_irreversible : Result (Unit {0})
auto_resume_irreversible = err auto_resume_not_available
