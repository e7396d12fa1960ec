-- ===== src/Scheduler/Cohort.antt =====
-- `FanoutBudget` and `partition_cohort` of epiphany_executor/scheduler.py.
pub mod Safe
pub mod Total
use epiphany_executor.Prelude.{
  ℕ, String, Bool, true, false, Option, none, some, List, [], ◌∷◌, ◌++◌, Result, ok, err, ◌>>=◌,
  key_error, value_error, Dict, lookup, if◌then◌else◌, ltb, length,
}
use epiphany_executor.Contract.{Contract}
use epiphany_executor.Scheduler.Static.{static_effect_class, is_local, provably_disjoint}

pub record FanoutBudget : Type 0 where
  pub max_concurrent_effectors : ℕ
  pub max_jury_width : ℕ
  pub speculate_threshold : ℕ

-- the constructor with its `__post_init__`
unfoldable pub make_budget : ℕ → ℕ → ℕ → Result FanoutBudget
make_budget effectors jury threshold =
    if ltb effectors 1
    then err value_error
    else ok (record {
      max_concurrent_effectors = effectors;
      max_jury_width = jury;
      speculate_threshold = threshold;
    })

abbrev pub default_budget : FanoutBudget
default_budget = record {
  max_concurrent_effectors = 8;
  max_jury_width = 3;
  speculate_threshold = 2;
}

-- `contracts[sid]`
abbrev pub found_or : Option Contract → Result Contract
found_or none = err key_error
found_or (some c) = ok c

unfoldable pub contract_at : Dict Contract → String → Result Contract
contract_at contracts sid = found_or (lookup sid contracts)

-- `if len(parallel) == 1: serial.insert(0, parallel.pop())`
abbrev pub honest_widths : List String → List String → List String × List String
honest_widths (sid ∷ []) serial = ([], sid ∷ serial)
honest_widths parallel serial = (parallel, serial)

-- The branch of an eligible step; `free` says that it is disjoint from the cohort so far.
abbrev pub admit :
    FanoutBudget → String → List String → List String → Bool → Result (List String × List String)
admit budget sid parallel serial true =
    if ltb (length parallel) budget.max_concurrent_effectors
    then ok (parallel ++ sid ∷ [], serial)
    else ok (parallel, serial ++ sid ∷ [])
admit budget sid parallel serial false = ok (parallel, serial ++ sid ∷ [])

module _ (canonical : String → Option String) (contracts : Dict Contract) where
  -- `all(_provably_disjoint(c, contracts[p]) for p in parallel)`
  unfoldable pub disjoint_from : Contract → List String → Result Bool
  disjoint_from c [] = ok true
  disjoint_from c (p ∷ ps) = do
    other ← contract_at contracts p
    if provably_disjoint canonical c other then disjoint_from c ps else ok false

  -- one round of the loop: the cohort and the residue after the step `sid`
  unfoldable pub place :
      FanoutBudget → String → List String → List String → Result (List String × List String)
  unfolding contract_at disjoint_from
  place budget sid parallel serial = do
    c ← contract_at contracts sid
    if is_local (static_effect_class c)
        then (do free ← disjoint_from c parallel; admit budget sid parallel serial free)
        else ok (parallel, serial ++ sid ∷ [])

  -- the loop over the antichain
  unfoldable pub place_all :
      FanoutBudget → List String → List String → List String → Result (List String × List String)
  unfolding place
  place_all budget [] parallel serial = ok (parallel, serial)
  place_all budget (sid ∷ sids) parallel serial = do
    (parallel', serial') ← place budget sid parallel serial
    place_all budget sids parallel' serial'

  unfoldable pub partition_cohort : List String → FanoutBudget → Result (List String × List String)
  unfolding place_all
  partition_cohort antichain budget = do
    (parallel, serial) ← place_all budget antichain [] []
    ok (honest_widths parallel serial)
