-- ===== src/Context.antt =====
-- epiphany_executor/context_builder.py: the context of one step, with the thinking tier allocated to
-- it. The functions of `os.path` are a parameter. A rationale is kept as the values that its message
-- interpolates, and a share of the budget is compared exactly, as a fraction.
pub mod Tier
pub mod Clobber
pub mod Assembled
use epiphany_executor.Prelude.{
  ℕ, ◌+◌, ◌*◌, String, Bool, true, false, not, ◌&&◌, ◌||◌, Option, none, some, List, [], ◌∷◌, ◌++◌,
  Result, ok, err, ◌>>=◌, key_error, type_error, Dict, lookup, elem, keep, sorted, length, is_empty,
  or_else, leb, eqb, if◌then◌else◌, ◌==◌,
}
use epiphany_executor.Value.{Value, str, Fields, get, dict_or_empty}
use epiphany_executor.Contract.{Contract}
use epiphany_executor.Dod.{dod_field}
use epiphany_executor.Scheduler.Static.{
  StaticClass, unknown, externally_irreversible, local_mutating, is_local, static_effect_class,
}
use epiphany_executor.Scheduler.Dag.{Dag, prereqs}
use epiphany_executor.Scheduler.Cohort.{contract_at}
use epiphany_executor.Review.Delta.{propagate_forward_delta}
use epiphany_executor.Context.Tier.{
  ThinkingTier, minimal, standard, deep, max_tier, same_tier, suggested_tier,
}
use epiphany_executor.Context.Clobber.{
  OsPath, harness_forge_pack, context_lines, detect_self_clobber, subsystem_of,
}

pub data ResidentMode : Type 0 where
  hold_all tiered_summary windowed_stream : ResidentMode

-- `part / budget <= num / den`
abbrev pub within_share : ℕ → ℕ → ℕ × ℕ → Bool
within_share part budget share = leb (part * share.1) (share.0 * budget)

abbrev pub default_threshold : ℕ × ℕ
default_threshold = (7, 10)

unfoldable pub resident_context_mode : ℕ → ℕ → ℕ → ℕ × ℕ → ResidentMode
resident_context_mode plan_chars ledger_chars budget_chars threshold =
    if eqb budget_chars 0
    then windowed_stream
    else if within_share (plan_chars + ledger_chars) budget_chars threshold
    then hold_all
    else if within_share plan_chars budget_chars threshold
    then tiered_summary
    else windowed_stream

pub data Rationale : Type 0 where
  reversibility_deep : StaticClass → Rationale
  defect_deep : Rationale
  hub_deep : ℕ → Rationale
  leaf_minimal default_standard : Rationale
  prior_raised : ThinkingTier → ThinkingTier → Rationale
  clobber_deep : List String → Rationale

-- the number of criteria and checks of the contract
abbrev pub criteria_count : Contract → ℕ
criteria_count c =
    length (dod_field c).acceptance_criteria + length (dod_field c).integration_checks

-- The three raises, each with its reason; `is_local` says that the effect is provably reversible.
unfoldable pub raised_tier : StaticClass → Bool → ℕ → ThinkingTier × List Rationale
raised_tier reversibility defect_adjacent fan_out =
    let unsafe = not (is_local reversibility) in
    let hub = leb 3 fan_out in
    (
      if unsafe || (defect_adjacent || hub) then deep else standard,
      (if unsafe then reversibility_deep reversibility ∷ [] else [])
          ++ (if defect_adjacent then defect_deep ∷ [] else [])
          ++ (if hub then hub_deep fan_out ∷ [] else []),
    )

abbrev or_default : List Rationale → List Rationale
or_default [] = default_standard ∷ []
or_default (r ∷ rs) = r ∷ rs

unfoldable pub allocate_thinking_tier :
    Contract → ℕ → StaticClass → Bool → ThinkingTier × List Rationale
unfolding raised_tier
allocate_thinking_tier contract fan_out reversibility defect_adjacent =
    let raised = raised_tier reversibility defect_adjacent fan_out in
    let leaf =
      same_tier raised.0 standard
      && (is_local reversibility
          && (eqb fan_out 0 && (leb (criteria_count contract) 1 && not defect_adjacent))) in
    if leaf then (minimal, raised.1 ++ leaf_minimal ∷ []) else (raised.0, or_default raised.1)

-- what a legal suggestion does
abbrev raise_to : ThinkingTier → Option ThinkingTier → ThinkingTier × List Rationale
raise_to tier none = (tier, [])
raise_to tier (some t) =
    let raised = max_tier tier t in
    (raised, if same_tier raised tier then [] else prior_raised tier raised ∷ [])

-- An empty dictionary stands for missing priors too.
unfoldable pub apply_memory_priors : ThinkingTier → Fields → Result (ThinkingTier × List Rationale)
apply_memory_priors tier priors = do
  suggested ← suggested_tier (get "suggested_tier" priors)
  ok (raise_to tier suggested)

pub record StepContext {ℓ} (D : Type ℓ) : Type ℓ where
  pub step_id : String
  pub look_behind : List String
  pub look_ahead : List String
  pub predecessor_deltas : Dict D
  pub resident_mode : ResidentMode
  pub thinking_tier : ThinkingTier
  pub tier_rationale : List Rationale
  pub target_profile : String
  pub target_subsystem : Value
  pub harness_forge_context : List String
  pub self_clobber_paths : List String

-- `{p: ledger_deltas[p] for p in look_behind if p in ledger_deltas}`
unfoldable pub deltas_of_steps {ℓ} : {D : Type ℓ} → Dict D → List String → Dict D
deltas_of_steps deltas [] = []
deltas_of_steps deltas (p ∷ ps) =
    let rest = deltas_of_steps deltas ps in
    elim (lookup p deltas) [ none ↦ rest | some d ↦ (p, d) ∷ rest ]

-- `sorted(p for p in prereqs if p in accepted)`
unfoldable pub look_behind_of : Dag → String → List String → List String
look_behind_of dag step_id accepted = sorted (keep (λ p. elem p accepted) (prereqs dag step_id))

-- `sorted(s for s, deps in dag.items() if step_id in deps)`
unfoldable pub look_ahead_of : Dag → String → List String
unfolding propagate_forward_delta
look_ahead_of dag step_id = sorted (propagate_forward_delta dag step_id)

-- what the pack adds: the lines and the outputs at risk
pub record Accommodation : Type 0 where
  pub profile : String
  pub lines : List String
  pub clobber : List String

abbrev pub generic_profile : Accommodation
generic_profile = record { profile = "generic"; lines = []; clobber = [] }

-- the tier and its rationale, with the outputs at risk
unfoldable pub final_tier :
    Contract → ℕ → Fields → List String → Result (ThinkingTier × List Rationale)
unfolding allocate_thinking_tier apply_memory_priors
final_tier c fan_out priors clobber = do
  let allocated = allocate_thinking_tier c fan_out (static_effect_class c) false
  primed ← apply_memory_priors allocated.0 priors
  let raised = max_tier primed.0 deep
  ok (
      if is_empty clobber then (primed.0, allocated.1 ++ primed.1) else (
        raised,
        allocated.1
            ++ (primed.1 ++ (if same_tier raised primed.0 then [] else clobber_deep clobber ∷ [])),
      ))

module _ (os : OsPath) where
  unfoldable pub accommodate : Option Fields → Value → Result Accommodation
  unfolding context_lines detect_self_clobber
  accommodate none step = ok generic_profile
  accommodate (some pack) step = do
    lines ← context_lines pack step
    clobber ← detect_self_clobber os step pack
    ok (record { profile = "harness-forge"; lines = lines; clobber = clobber })

  unfoldable pub build_step_context {ℓ} :
      {D : Type ℓ}
      → Dict Contract
      → String
      → Dag
      → List String
      → Dict D
      → ℕ
      → ℕ
      → Fields
      → Fields
      → Value
      → Result (StepContext D)
  unfolding accommodate final_tier look_behind_of look_ahead_of deltas_of_steps
      resident_context_mode harness_forge_pack
  build_step_context contracts step_id dag accepted deltas plan_chars ledger_chars priors plan_meta
        step =
      do
        let behind = look_behind_of dag step_id accepted
        let ahead = look_ahead_of dag step_id
        c ← contract_at contracts step_id
        pack ← harness_forge_pack plan_meta
        extra ← accommodate pack step
        tier ← final_tier c (length ahead) priors extra.clobber
        ok (record {
          step_id = step_id;
          look_behind = behind;
          look_ahead = ahead;
          predecessor_deltas = deltas_of_steps deltas behind;
          resident_mode = resident_context_mode plan_chars ledger_chars 1000000 default_threshold;
          thinking_tier = tier.0;
          tier_rationale = tier.1;
          target_profile = extra.profile;
          target_subsystem = subsystem_of step;
          harness_forge_context = extra.lines;
          self_clobber_paths = extra.clobber;
        })
